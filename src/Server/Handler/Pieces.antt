-- ===== src/Server/Handler/Pieces.antt =====
-- The calls of recv_handler that get one command. m_buf has 128 bytes, so a call gets no more, and a
-- longer command comes in several.
use boutique.Common.{
  ℕ, ◌≤◌, ◌≡◌, refl, ap, ◌∙◌, Option, none, some, List, [], ◌∷◌, ◌++◌, append_assoc, append-nil,
  arith, Bytes, IsBytes, IsBytes-append, length, length-append, drop, drop-length_append, joined,
  AreNonEmpty,
}
use boutique.Core.Serialize.{bind_option}
use boutique.Db.Collection.{KeyKind}
use boutique.Db.Database.{Database}
use boutique.Protocol.Messages.{Command, Response}
use boutique.Protocol.Read.{Read, success, incomplete, invalid}
use boutique.Protocol.Read.Laws.{Extends}
use boutique.Protocol.Binary.{read_command, write_command, write_response}
use boutique.Protocol.Binary.RoundTrip.{FitsCommand, read_command-write_command}
use boutique.Protocol.Binary.Stream.{read_command_stable}
use boutique.Server.Execute.{execute}
use boutique.Server.Handler.{Client, recv_handler}
use boutique.Server.Handler.Calls.{IsReady, pending}
use boutique.Server.Handler.Commands.{Delivers, recv_handler-commands}

-- A part of a written command that ends before it does is not read as anything.
written_part :
    (c more : Bytes) (cmd : Command) (r : Read Command)
    → FitsCommand cmd
    → c ++ more ≡ write_command cmd
    → 1 ≤ length more
    → read_command c ≡ r
    → r ≡ incomplete
written_part c more cmd r fits split pos e =
    go r (rw (split, e) at (read_command_stable c more))
      (rw append-nil at (read_command-write_command cmd [] fits))
  where
    go :
        (r : Read Command)
        → Extends more r (read_command (write_command cmd))
        → read_command (write_command cmd) ≡ success cmd []
        → r ≡ incomplete
    go incomplete ext whole = refl
    go invalid ext whole = cc
    go (success other rest) ext whole =
        let none_left : rest ++ more ≡ [] = cc in
        absurd (omega (arith, pos, ap length none_left, length-append rest more))

read_command-nothing : read_command [] ≡ incomplete
unfolding read_command boutique.Core.Serialize.read_uint
read_command-nothing = refl

-- What is left of a client that was handed a command and answered it.
pub record Answers (s server : Client) (db : Database) (res : Response) : Type 0 where
  pub changed : server.db ≡ db
  pub answered : server.sent ≡ s.sent ++ write_response res ∷ []
  pub nothing_left : pending server ≡ []
  pub ready : IsReady server

Delivers-Answers :
    (s : Client) (a : Option Client) (db : Database) (res : Response)
    → Delivers s [] a (some (db, res ∷ []))
    → (server : Client) × (a ≡ some server) × Answers s server db res
Delivers-Answers s none db res d = absurd d
Delivers-Answers s (some server) db res (changed, answered, left, ready) = (
  server,
  refl,
  record { changed = changed; answered = answered; nothing_left = left; ready = ready },
)

-- What a call leaves that completes no command.
Delivers-waits :
    (s : Client) (rest : Bytes) (a : Option Client)
    → Delivers s rest a (some (s.db, []))
    → (s' : Client) × (a ≡ some s')
      × (s'.db ≡ s.db)
      × (s'.sent ≡ s.sent)
      × (pending s' ≡ rest)
      × IsReady s'
Delivers-waits s rest none d = absurd d
Delivers-waits s rest (some s') (same, sent, left, ready) =
    (s', refl, same, sent ∙ append-nil s.sent, left, ready)

-- the bytes that were handed to async_send_all behind the first n buffers
abbrev sent_after : ℕ → Option Client → Bytes
sent_after n none = []
sent_after n (some s) = joined (drop n s.sent)

module _ (hash : KeyKind → Bytes → ℕ) where
  -- the calls of recv_handler, one for each of the pieces
  unfoldable pub recv_pieces : Client → List Bytes → Option Client
  recv_pieces s [] = some s
  recv_pieces s (b ∷ pieces) = bind_option (recv_handler hash s b) λ s'. recv_pieces s' pieces

  -- the bytes that are handed to async_send_all in these calls
  unfoldable pub sent_back : Client → List Bytes → Bytes
  unfolding recv_pieces
  sent_back s pieces = sent_after (length s.sent) (recv_pieces s pieces)

  recv_pieces-command :
      (s : Client) (b : Bytes) (pieces : List Bytes) (cmd : Command) (db : Database)
      (res : Response)
      → IsReady s
      → FitsCommand cmd
      → IsBytes (write_command cmd)
      → execute hash s.db cmd ≡ some (db, res ∷ [])
      → AreNonEmpty (b ∷ pieces)
      → pending s ++ joined (b ∷ pieces) ≡ write_command cmd
      → (server : Client) × (recv_pieces s (b ∷ pieces) ≡ some server) × Answers s server db res
  unfolding recv_pieces
  recv_pieces-command s b [] cmd db res ready fits bytes run full split =
      let whole : pending s ++ b ≡ write_command cmd = rw append-nil at split in
      let (server, served, answers) = Delivers-Answers s (recv_handler hash s b) db res (
        rw run at (
          recv_handler-commands hash s b [] (cmd ∷ []) ready full.0 (rw whole bytes)
            (rw (whole, append-nil, append-nil) refl) (fits, tt) read_command-nothing)) in
      (server, rw served refl, answers)
  recv_pieces-command s b (b' ∷ pieces) cmd db res ready fits bytes run full split =
      let split' : (pending s ++ b) ++ joined (b' ∷ pieces) ≡ write_command cmd =
        rw append_assoc split in
      let part =
        written_part (pending s ++ b) (joined (b' ∷ pieces)) cmd _ fits split'
          (omega (arith, full.1.0, length-append b' (joined pieces))) refl in
      let in_part : IsBytes (pending s ++ b) =
        (IsBytes-append (pending s ++ b) (joined (b' ∷ pieces)) (rw split' bytes)).0 in
      let (s', went, same, sent, left, ready') =
        Delivers-waits s (pending s ++ b) (recv_handler hash s b)
          (recv_handler-commands hash s b (pending s ++ b) [] ready full.0 in_part refl tt part) in
      let (server, served, answers) =
        recv_pieces-command s' b' pieces cmd db res ready' fits bytes (rw same run) full.1
          (rw left split') in
      (
        server,
        rw (went, served) refl,
        record {
          changed = answers.changed;
          answered = rw sent at answers.answered;
          nothing_left = answers.nothing_left;
          ready = answers.ready;
        },
      )

  sent_back-command :
      (s server : Client) (pieces : List Bytes) (db : Database) (res : Response)
      → recv_pieces s pieces ≡ some server
      → Answers s server db res
      → sent_back s pieces ≡ write_response res
  unfolding sent_back
  sent_back-command s server pieces db res run answers =
      rw (run, answers.answered, drop-length_append s.sent (write_response res ∷ []), append-nil)
        refl

  -- Where a server that keeps nothing of an earlier command is handed a command in any non-empty pieces,
  -- it executes the command once, when the last piece is there.
  pub recv_pieces_lem :
      (s : Client) (b : Bytes) (pieces : List Bytes) (cmd : Command) (db : Database)
      (res : Response)
      → IsReady s
      → pending s ≡ []
      → FitsCommand cmd
      → IsBytes (write_command cmd)
      → execute hash s.db cmd ≡ some (db, res ∷ [])
      → AreNonEmpty (b ∷ pieces)
      → joined (b ∷ pieces) ≡ write_command cmd
      → (server : Client) × (recv_pieces s (b ∷ pieces) ≡ some server)
        × Answers s server db res
        × (sent_back s (b ∷ pieces) ≡ write_response res)
  recv_pieces_lem s b pieces cmd db res ready fresh fits bytes run full split =
      let (server, served, answers) =
        recv_pieces-command s b pieces cmd db res ready fits bytes run full (rw fresh split) in
      (server, served, answers, sent_back-command s server (b ∷ pieces) db res served answers)
