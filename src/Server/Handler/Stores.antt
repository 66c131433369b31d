-- ===== src/Server/Handler/Stores.antt =====
-- The server from the bytes that a client sends to those that are handed to async_send_all: a store of
-- collections that are finite maps.
use boutique.Common.{
  ℕ, ◌≤◌, ◌≡◌, refl, subst, Option, none, some, List, [], ◌∷◌, ◌++◌, map, Bytes, IsBytes, length,
}
use boutique.Db.Collection.{KeyKind}
use boutique.Db.Database.{Database}
use boutique.Protocol.Messages.{Command}
use boutique.Protocol.Read.{incomplete}
use boutique.Protocol.Binary.{read_command, write_response}
use boutique.Server.Execute.Store.{Store, Act, act}
use boutique.Server.Execute.Store.Tables.{Refines}
use boutique.Server.Execute.Store.Acts.{Allows, Carries, execute-Carries}
use boutique.Server.Handler.{Client, recv_handler}
use boutique.Server.Handler.Calls.{IsReady, pending}
use boutique.Server.Handler.Commands.{
  write_commands, FitCommands, Delivers, execute_all, recv_handler-commands,
}

-- what commands do to the store, one after another
abbrev pub acts : Store → List Command → Act
acts w [] = (w, [])
acts w (cmd ∷ cmds) = ((acts (act w cmd).0 cmds).0, (act w cmd).1 ++ (acts (act w cmd).0 cmds).1)

-- each is allowed when its turn comes
abbrev pub AllowAll : (KeyKind → Bytes → ℕ) → Store → List Command → Type 0
AllowAll hash w [] = Unit
AllowAll hash w (cmd ∷ cmds) = Allows hash w cmd × AllowAll hash (act w cmd).0 cmds

-- The client after the call.
pub record Serves (hash : KeyKind → Bytes → ℕ) (s s' : Client) (a : Act) (rest : Bytes)
    : Type 0 where
  pub refines : Refines hash s'.db a.0
  pub sent : s'.sent ≡ s.sent ++ map write_response a.1
  pub left : pending s' ≡ rest
  pub ready : IsReady s'

module _ (hash : KeyKind → Bytes → ℕ) where
  execute_all-Carries :
      (db : Database) (w : Store) (cmds : List Command)
      → Refines hash db w
      → AllowAll hash w cmds
      → Carries hash (execute_all hash db cmds) (acts w cmds)
  execute_all-Carries db w [] refines ok = (db, refl, refines)
  execute_all-Carries db w (cmd ∷ cmds) refines (ok, later) =
      let (db₁, run, refines₁) = execute-Carries hash db w cmd refines ok in
      let (db₂, run₂, refines₂) = execute_all-Carries db₁ (act w cmd).0 cmds refines₁ later in
      (db₂, rw (run, run₂), refines₂)

  Delivers-Serves :
      (s : Client) (rest : Bytes) (a : Act) (o : Option Client) (db : Database)
      → Delivers s rest o (some (db, a.1))
      → Refines hash db a.0
      → (s' : Client) × (o ≡ some s') × Serves hash s s' a rest
  Delivers-Serves s rest a none db delivers refines = absurd delivers
  Delivers-Serves s rest a (some s') db (same, sent, left, ready) refines =
      (s', refl, record { refines = rw same refines; sent = sent; left = left; ready = ready })

  -- Where the database is as the store says and a client has sent whole commands and the beginning of
  -- one more, recv_handler ends, the database is then as the store says after the commands, the
  -- responses of the store are handed to async_send_all in order, behind those before, and the beginning
  -- is kept. The commands are allowed: what is made a collection of has a layout, keys have hashes that are not
  -- reserved, documents fit, and they are put under keys that are not there or before any delete.
  pub recv_handler-acts :
      (s : Client) (w : Store) (received rest : Bytes) (cmds : List Command)
      → Refines hash s.db w
      → AllowAll hash w cmds
      → IsReady s
      → 1 ≤ length received
      → IsBytes (pending s ++ received)
      → pending s ++ received ≡ write_commands cmds ++ rest
      → FitCommands cmds
      → read_command rest ≡ incomplete
      → (s' : Client) × (recv_handler hash s received ≡ some s')
        × Serves hash s s' (acts w cmds) rest
  recv_handler-acts s w received rest cmds refines ok ready pos bytes split fits stop =
      let (db', run, refines') = execute_all-Carries s.db w cmds refines ok in
      Delivers-Serves s rest (acts w cmds) (recv_handler hash s received) db'
        (subst (Delivers s rest (recv_handler hash s received)) run
          (recv_handler-commands hash s received rest cmds ready pos bytes split fits stop))
        refines'
