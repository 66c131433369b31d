-- ===== src/Cli/Exchange/Whole.antt =====
-- A command and its answer, from the client to the server and back.
use boutique.Common.{ℕ, ◌≡◌, ◌∙◌, some, List, [], ◌∷◌, ◌++◌, Bytes, IsBytes, joined, AreNonEmpty}
use boutique.Core.StreamBuf
use boutique.Core.StreamBuf.{StreamBuf}
use boutique.Core.StreamBuf.Laws
use boutique.Db.Collection.{KeyKind}
use boutique.Db.Database.{Database}
use boutique.Protocol.Messages.{Command, Response}
use boutique.Protocol.Binary.{write_command, write_response}
use boutique.Protocol.Binary.RoundTrip.{FitsCommand, FitsResponse}
use boutique.Server.Execute.{execute}
use boutique.Server.Handler.{Client}
use boutique.Server.Handler.Calls.{IsReady, pending}
use boutique.Server.Handler.Pieces.{recv_pieces, sent_back, recv_pieces_lem}
use boutique.Cli.Exchange.{Session, response, receive_loop}
use boutique.Cli.Exchange.Receives.{receive_loop-response}

-- What the server and the client are left with.
pub record Exchanged (hash : KeyKind → Bytes → ℕ) (c : Client) (s : Session) (requests : List Bytes)
    (db : Database) (res : Response) (pieces later : List Bytes) : Type 0 where
  pub server : Client
  pub serves : recv_pieces hash c requests ≡ some server
  pub changed : server.db ≡ db
  pub answered : server.sent ≡ c.sent ++ write_response res ∷ []
  pub nothing_left : pending server ≡ []
  pub ready : IsReady server
  pub stream : StreamBuf
  pub shows :
      receive_loop s (pieces ++ later)
      ≡ some (record { stream = stream; shown = s.shown ++ response res ∷ [] }, later)
  pub nothing_more : StreamBuf.contents stream ≡ []

module _ (hash : KeyKind → Bytes → ℕ) where
  -- Between a server that is not waiting for the rest of a command and a client that has read every
  -- response: where the server is handed the bytes of a command in any non-empty pieces, and the client
  -- the bytes that the server then hands to async_send_all, in any non-empty pieces, a command that is
  -- answered by `res` is executed once, the server keeps nothing of it, and the client shows `res` once
  -- and keeps nothing.
  pub exchange-response :
      (c : Client) (s : Session) (cmd : Command) (db : Database) (res : Response) (a : Bytes)
      (requests : List Bytes) (b : Bytes) (pieces later : List Bytes)
      → IsReady c
      → pending c ≡ []
      → FitsCommand cmd
      → IsBytes (write_command cmd)
      → execute hash c.db cmd ≡ some (db, res ∷ [])
      → FitsResponse res
      → AreNonEmpty (a ∷ requests)
      → joined (a ∷ requests) ≡ write_command cmd
      → StreamBuf.Laws.IsValid s.stream
      → StreamBuf.contents s.stream ≡ []
      → AreNonEmpty (b ∷ pieces)
      → joined (b ∷ pieces) ≡ sent_back hash c (a ∷ requests)
      → Exchanged hash c s (a ∷ requests) db res (b ∷ pieces) later
  exchange-response c s cmd db res a requests b pieces later ready fresh fits bytes run fits_res
        full_requests whole valid read_all full cut =
      let (server, serves, answers, sent) =
        recv_pieces_lem hash c a requests cmd db res ready fresh fits bytes run full_requests
          whole in
      let (stream, shows, v', gone) =
        receive_loop-response s b pieces later res valid fits_res full (rw read_all (cut ∙ sent)) in
      record {
        server = server;
        serves = serves;
        changed = answers.changed;
        answered = answers.answered;
        nothing_left = answers.nothing_left;
        ready = answers.ready;
        stream = stream;
        shows = shows;
        nothing_more = gone;
      }
