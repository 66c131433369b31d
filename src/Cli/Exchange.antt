-- ===== src/Cli/Exchange.antt =====
-- The part of `main` in cli/main.cpp that sends a command and reads until one response is there.
pub mod Receives
pub mod Whole
use boutique.Common.{
  ℕ, zero, suc, ◌+◌, ◌-◌, Bool, Option, none, some, List, [], ◌∷◌, ◌++◌, Bytes, length, take, drop,
  ltb, ◌==◌, if◌then◌else◌, not,
}
use boutique.Core.Serialize.{bind_option}
use boutique.Core.StreamBuf
use boutique.Core.StreamBuf.{StreamBuf}
use boutique.Protocol.Messages.{Response}
use boutique.Protocol.Read.{Read, success, incomplete, invalid}
use boutique.Protocol.Binary.{read_response}

-- The `do … while (n < cmd_buf.size())`, over what the calls of `send` return: the bytes that are
-- sent, and whether the loop ends by its test. `results` are all that the system gives, and the loop
-- fails where they run out.
unfoldable pub send_loop : Bytes → ℕ → List ℕ → Option (Bytes × Bool)
send_loop cmd_buf n [] = none
send_loop cmd_buf n (r ∷ results) =
    let sent = take r (drop n cmd_buf) in
    let later = send_loop cmd_buf (n + r) results in
    if r == 0
    then some ([], Bool.false)
    else if ltb (n + r) (length cmd_buf)
    then (bind_option later λ l. some (sent ++ l.0, l.1))
    else some (sent, Bool.true)

-- what the loop has shown: a response, or the message of an invalid one
pub data Shown : Type 0 where
  response : Response → Shown
  invalid_response : Shown

pub record Session : Type 0 where
  pub stream : StreamBuf
  pub shown : List Shown

-- The body of the `do` with a received `recv_buf`; the second part is whether the loop goes on
-- at its test.
unfoldable pub on_read : Session → Read Response → Option (Session × Bool)
on_read s incomplete = some (s, not (StreamBuf.empty s.stream))
on_read s invalid = bind_option (StreamBuf.consume s.stream (StreamBuf.size s.stream)) λ stream.
    some (record { stream = stream; shown = s.shown ++ invalid_response ∷ [] }, Bool.false)
on_read s (success res rest) =
    bind_option (StreamBuf.consume s.stream (StreamBuf.size s.stream - length rest)) λ stream.
      some (
        record { stream = stream; shown = s.shown ++ response res ∷ [] },
        not (StreamBuf.empty stream),
      )

unfoldable pub receive : Session → Bytes → Option (Session × Bool)
unfolding on_read
receive s recv_buf =
    let stream = StreamBuf.append s.stream recv_buf in
    on_read (record s { stream = stream }) (read_response (StreamBuf.contents stream))

-- The `do … while (!stream.empty())` over what the calls of `recv` give. It ends with the session and
-- the calls that it has not made; `none` is a failed assertion, or that it waits for more.
unfoldable pub receive_loop : Session → List Bytes → Option (Session × List Bytes)
receive_loop s [] = none
receive_loop s (recv_buf ∷ more) =
    bind_option (receive s recv_buf) λ r. if r.1 then receive_loop r.0 more else some (r.0, more)
