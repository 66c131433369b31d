-- ===== src/Server/Handler/Commands.antt =====
-- What a client that sends commands gets, said without buffers and bytes: they are executed one
-- after another.
use boutique.Common.{
  ℕ, zero, suc, ◌≤◌, ◌<◌, ◌≡◌, refl, false, Option, none, some, List, [], ◌∷◌, ◌++◌, map,
  append_assoc, arith, Bytes, IsBytes, length, length-append, Option-cases, inl, inr,
}
use boutique.Core.Serialize.{bind_option}
use boutique.Db.Collection.{KeyKind}
use boutique.Db.Database.{Database}
use boutique.Protocol.Messages.{Command, Response}
use boutique.Protocol.Read.{success, incomplete}
use boutique.Protocol.Binary.{read_command, write_command, write_response}
use boutique.Protocol.Binary.RoundTrip.{FitsCommand, read_command-write_command}
use boutique.Server.Execute.{execute}
use boutique.Server.Handler.{Client, recv_handler}
use boutique.Server.Handler.Serve.{
  Served, Matches, serve, serve_read, serve_all, length-write_command,
}
use boutique.Server.Handler.Calls.{IsReady, pending, recv_handler-Matches}

-- the bytes of commands that are sent one behind another
abbrev pub write_commands : List Command → Bytes
write_commands [] = []
write_commands (cmd ∷ cmds) = write_command cmd ++ write_commands cmds

abbrev pub FitCommands : List Command → Type 0
FitCommands [] = Unit
FitCommands (cmd ∷ cmds) = FitsCommand cmd × FitCommands cmds

-- The call ends as the commands do: with their database and with their responses in order sent
-- behind those sent before. `rest` stays in the buffer.
abbrev pub Delivers : Client → Bytes → Option Client → Option (Database × List Response) → Type 0
Delivers s rest (some s') (some (db, responses)) =
    (s'.db ≡ db)
    × (s'.sent ≡ s.sent ++ map write_response responses)
    × (pending s' ≡ rest)
    × IsReady s'
Delivers s rest none none = Unit
Delivers s rest _ _ = ⊥

Matches-Delivers :
    (s : Client) (rest : Bytes) (a : Option Client) (b : Option (Database × List Response))
    → Matches s a
        (bind_option b λ r. some (record { db = r.0; left = rest; sent = r.1; refused = false }))
    → Delivers s rest a b
Matches-Delivers s rest none none m = m
Matches-Delivers s rest none (some r) m = m
Matches-Delivers s rest (some s') none m = m
Matches-Delivers s rest (some s') (some (db, responses)) m = (m.db, m.sent, m.left, m.valid)

module _ (hash : KeyKind → Bytes → ℕ) where
  -- commands on the database, one after another
  abbrev pub execute_all : Database → List Command → Option (Database × List Response)
  execute_all db [] = some (db, [])
  execute_all db (cmd ∷ cmds) =
      bind_option (execute hash db cmd)
        λ r. bind_option (execute_all r.0 cmds) λ r'. some (r'.0, r.1 ++ r'.1)

  -- what serving gives, from what the commands give
  abbrev served : Bytes → Option (Database × List Response) → Option Served
  served rest b =
      bind_option b λ r. some (record { db = r.0; left = rest; sent = r.1; refused = false })

  served-after :
      (rest : Bytes) (responses : List Response) (b : Option (Database × List Response))
      → bind_option (served rest b) (λ o. some (record o { sent = responses ++ o.sent }))
        ≡ served rest (bind_option b λ r'. some (r'.0, responses ++ r'.1))
  served-after rest responses none = refl
  served-after rest responses (some r) = refl

  serve-commands :
      (f : ℕ) (db : Database) (cmds : List Command) (rest : Bytes)
      → FitCommands cmds
      → read_command rest ≡ incomplete
      → length (write_commands cmds ++ rest) < f
      → serve hash f db (write_commands cmds ++ rest) ≡ served rest (execute_all db cmds)
  unfolding serve serve_read
  serve-commands zero db cmds rest fits stop enough = absurd (omega arith)
  serve-commands (suc f) db [] rest fits stop enough = rw stop
  serve-commands (suc f) db (cmd ∷ cmds) rest fits stop enough =
      let later = write_commands cmds ++ rest in
      let first : read_command ((write_command cmd ++ write_commands cmds) ++ rest)
          ≡ success cmd later =
        rw append_assoc (read_command-write_command cmd later fits.0) in
      let shorter : length later < f = omega (
        arith,
        length-append (write_command cmd ++ write_commands cmds) rest,
        length-append (write_command cmd) (write_commands cmds),
        length-append (write_commands cmds) rest,
        length-write_command cmd,
      ) in
      rw first (elim (Option-cases (execute hash db cmd)) [
        | inl failed ↦ rw failed
        | inr (r, done) ↦
            rw (done, serve-commands f r.0 cmds rest fits.1 stop shorter)
              (served-after rest r.1 (execute_all r.0 cmds))
      ])

  -- When what a client has sent are whole commands and the beginning of one more, recv_handler
  -- executes the commands in order, sends the responses in order, and keeps the beginning. It fails
  -- exactly when a command does.
  pub recv_handler-commands :
      (s : Client) (received rest : Bytes) (cmds : List Command)
      → IsReady s
      → 1 ≤ length received
      → IsBytes (pending s ++ received)
      → pending s ++ received ≡ write_commands cmds ++ rest
      → FitCommands cmds
      → read_command rest ≡ incomplete
      → Delivers s rest (recv_handler hash s received) (execute_all s.db cmds)
  unfolding serve_all
  recv_handler-commands s received rest cmds v pos bytes split fits stop =
      let c = write_commands cmds ++ rest in
      let m : Matches s (recv_handler hash s received) (serve_all hash s.db c) =
        rw split at (recv_handler-Matches hash s received v pos bytes) in
      Matches-Delivers s rest (recv_handler hash s received) (execute_all s.db cmds)
        (rw (serve-commands (suc (length c)) s.db cmds rest fits stop (omega arith)) at m)
