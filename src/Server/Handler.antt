-- ===== src/Server/Handler.antt =====
-- ClientHandler, server/client_handler.hpp and server/client_handler.cpp: the bytes that a client
-- sends are collected, and commands are read off them and executed. The database is the server's.
pub mod Serve
pub mod Chunks
pub mod Calls
pub mod Commands
pub mod Pieces
pub mod Stores
use boutique.Common.{
  ℕ, zero, suc, ◌-◌, Bool, true, false, Option, none, some, List, [], ◌∷◌, ◌++◌, map, Bytes, length,
  ◌==◌, if◌then◌else◌,
}
use boutique.Core.Serialize.{bind_option}
use boutique.Core.StreamBuf
use boutique.Core.StreamBuf.{StreamBuf}
use boutique.Db.Collection.{KeyKind}
use boutique.Db.Database.{Database}
use boutique.Protocol.Messages.{Response}
use boutique.Protocol.Read.{Read, success, incomplete, invalid}
use boutique.Protocol.Messages.{Command}
use boutique.Protocol.Binary.{read_command, write_response}
use boutique.Server.Execute.{execute}

-- `sent` are the buffers given to async_send_all, in order. `receiving` says that an async_recv with
-- this handler is pending.
pub record Client : Type 0 where
  pub db : Database
  pub stream : StreamBuf
  pub closed : Bool
  pub sent : List Bytes
  pub receiving : Bool

-- write_and_send
unfoldable pub write_and_send : Client → List Response → Client
write_and_send s responses = record s { sent = s.sent ++ map write_response responses }

module _ (hash : KeyKind → Bytes → ℕ) where
  -- The body of the `for (;;)` behind the read of a command, over the rounds that follow.
  -- `m_stream.consume(cmd_buf.data - m_stream.data())`: both point into one buffer, so the distance
  -- is what the cursor has left behind of the stream's bytes.
  unfoldable pub handle_read :
      (Client → Bytes → Option Client) → Client → Read Command → Option Client
  handle_read next_rounds s incomplete = some s
  handle_read next_rounds s invalid = some (write_and_send s (Response.invalid_command ∷ []))
  handle_read next_rounds s (success cmd rest) = bind_option (execute hash s.db cmd) λ r.
      let s' = write_and_send (record s { db = r.0 }) r.1 in
      bind_option (StreamBuf.consume s.stream (StreamBuf.size s.stream - length rest))
        λ stream. next_rounds (record s' { stream = stream }) rest

  -- The `for (;;)`, from the cursor `cmd_buf`. A round that goes on has read a byte at least.
  unfoldable pub handle_loop : ℕ → Client → Bytes → Option Client
  handle_loop zero s cmd_buf = none
  handle_loop (suc fuel) s cmd_buf = handle_read (handle_loop fuel) s (read_command cmd_buf)

  -- recv_handler(len), where `received` are the first len bytes of m_buf. m_buf has 128 bytes; here
  -- there is no such limit.
  unfoldable pub recv_handler : Client → Bytes → Option Client
  recv_handler s received =
      if length received == 0
      then some (record s { closed = true; receiving = false })
      else (let stream = StreamBuf.append s.stream received in
          let cmd_buf = StreamBuf.contents stream in
          bind_option (handle_loop (suc (length cmd_buf)) (record s { stream = stream }) cmd_buf)
            λ s'. some (record s' { receiving = true }))
