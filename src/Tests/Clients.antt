-- ===== src/Tests/Clients.antt =====
-- A client that asks for a schema that nobody registered, in one piece and in two.
use boutique.Common.{ℕ, ◌≡◌, ◌≢◌, ◌++◌, refl, arith, some, false, true, [], ◌∷◌, Bytes, length}
use boutique.Core.StreamBuf
use boutique.Core.StreamBuf.Laws as StreamLaws
use boutique.Db.Collection.{KeyKind}
use boutique.Db.Database
use boutique.Protocol.Messages.{Command, Response}
use boutique.Protocol.Read.{incomplete, invalid}
use boutique.Protocol.Binary.{read_command, write_command, write_response}
use boutique.Server.Execute.{execute}
use boutique.Server.Execute.Answers.{AnswersOnce, execute-AnswersOnce}
use boutique.Server.Handler.{Client, recv_handler}
use boutique.Server.Handler.Calls.{
  IsReady, pending, SameOutcome, recv_handler-append, recv_handler-refused, recv_handler-Matches,
}
use boutique.Server.Handler.Serve.{Matches, serve_all}
use boutique.Server.Handler.Commands.{Delivers, execute_all, recv_handler-commands}

abbrev hash : KeyKind → Bytes → ℕ
hash kind key = length key

abbrev connected : Client
connected = record {
  db = Database.new;
  stream = StreamBuf.new;
  closed = false;
  sent = [];
  receiving = true;
}

-- the schema 9, first without its last byte
abbrev asking : Bytes
asking = 3 ∷ 1 ∷ 0 ∷ 0 ∷ 0 ∷ []

abbrev waiting : Client
waiting = record connected { stream = record { m_buf = asking; m_size = 5; m_used = 0 } }

connected-IsReady : IsReady connected
connected-IsReady = StreamLaws.new-IsValid

asking_waits : recv_handler hash connected asking ≡ some waiting
unfolding recv_handler boutique.Server.Handler.handle_loop boutique.Server.Handler.handle_read
    read_command boutique.Core.Serialize.read_uint StreamBuf.contents StreamBuf.append StreamBuf.new
    boutique.Core.Serialize.read_string
asking_waits = refl

pending-waiting : read_command (pending waiting) ≡ incomplete
unfolding read_command boutique.Core.Serialize.read_uint StreamBuf.contents
    boutique.Core.Serialize.read_string
pending-waiting = refl

incomplete-not_invalid : read_command (pending waiting) ≢ invalid
incomplete-not_invalid e = cc pending-waiting

recv_handler-append_example :
    SameOutcome
      (recv_handler hash waiting (9 ∷ []))
      (recv_handler hash connected (asking ++ 9 ∷ []))
unfolding StreamBuf.contents StreamBuf.new
recv_handler-append_example =
    recv_handler-append hash connected waiting asking (9 ∷ []) connected-IsReady (omega arith)
      (omega arith)
      (omega arith, (omega arith, (omega arith, (omega arith, (omega arith, (omega arith, tt))))))
      asking_waits incomplete-not_invalid

recv_handler-Matches_example :
    Matches connected (recv_handler hash connected asking) (serve_all hash Database.new asking)
unfolding StreamBuf.contents StreamBuf.new
recv_handler-Matches_example =
    recv_handler-Matches hash connected asking connected-IsReady (omega arith)
      (omega arith, (omega arith, (omega arith, (omega arith, (omega arith, tt)))))

recv_handler-commands_example :
    Delivers connected asking
      (recv_handler hash connected (3 ∷ 1 ∷ 0 ∷ 0 ∷ 0 ∷ 9 ∷ asking))
      (execute_all hash Database.new (Command.get_schema (9 ∷ []) ∷ []))
unfolding StreamBuf.contents StreamBuf.new write_command boutique.Core.Serialize.write_uint
    boutique.Core.Serialize.write_string
recv_handler-commands_example =
    recv_handler-commands hash connected (3 ∷ 1 ∷ 0 ∷ 0 ∷ 0 ∷ 9 ∷ asking) asking
      (Command.get_schema (9 ∷ []) ∷ []) connected-IsReady (omega arith)
      (
        omega arith,
        (
          omega arith,
          (
            omega arith,
            (
              omega arith,
              (
                omega arith,
                (
                  omega arith,
                  (omega arith, (omega arith, (omega arith, (omega arith, (omega arith, tt))))),
                ),
              ),
            ),
          ),
        ),
      )
      refl (omega arith, tt) pending-waiting

-- 9 is no command
abbrev stuck : Client
stuck = record connected { stream = record { m_buf = 9 ∷ []; m_size = 1; m_used = 0 } }

stuck-IsReady : IsReady stuck
stuck-IsReady = record { counted = refl; used = omega arith; cleared = λ e. absurd (omega arith) }

stuck_refused : read_command (pending stuck) ≡ invalid
unfolding read_command boutique.Core.Serialize.read_uint StreamBuf.contents
stuck_refused = refl

recv_handler-refused_example :
    (s' : Client) × (recv_handler hash stuck asking ≡ some s')
    × IsReady s'
    × (s'.db ≡ Database.new)
    × (s'.sent ≡ write_response Response.invalid_command ∷ [])
    × (pending s' ≡ pending stuck ++ asking)
    × (read_command (pending s') ≡ invalid)
unfolding StreamBuf.contents
recv_handler-refused_example =
    recv_handler-refused hash stuck asking stuck-IsReady (omega arith)
      (omega arith, (omega arith, (omega arith, (omega arith, (omega arith, (omega arith, tt))))))
      stuck_refused

execute-AnswersOnce_example : AnswersOnce (execute hash Database.new (Command.get_schema (9 ∷ [])))
execute-AnswersOnce_example =
    execute-AnswersOnce hash Database.new (Command.get_schema (9 ∷ [])) (omega arith)
