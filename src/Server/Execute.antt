-- ===== src/Server/Execute.antt =====
-- The `std::visit` of ClientHandler::recv_handler, server/client_handler.cpp: a command on the
-- database, and the responses that are sent. `none` is a failed assertion or a read out of bounds.
pub mod Answers
pub mod Store
use boutique.Common.{ℕ, Option, none, some, List, [], ◌∷◌, Bytes}
use boutique.Core.Serialize.{bind_option}
use boutique.Db.Storage
use boutique.Db.Collection
use boutique.Db.Collection.{KeyKind, Collection, Found, null, at}
use boutique.Db.Database
use boutique.Db.Database.{Database}
use boutique.Protocol.Messages.{Command, Response}

-- the database after a command, and the response
abbrev pub Outcome : Type 0
Outcome = Option (Database × List Response)

abbrev pub answer : Database → Response → Outcome
answer db res = some (db, res ∷ [])

-- `if (!schema)` and `if (!coll)`
abbrev pub or_not_found {ℓ} : {A : Type ℓ} → Database → Option A → (A → Outcome) → Outcome
or_not_found db none f = answer db Response.not_found
or_not_found db (some a) f = f a

module _ (hash : KeyKind → Bytes → ℕ) where
  unfoldable pub execute_get : Database → Bytes → Collection → Outcome
  execute_get db key coll = bind_option (Collection.find hash coll key) λ found. elim found [
    | null ↦ answer db Response.not_found
    | at i ↦ answer db (Response.found (Storage.doc coll.storage i))
  ]

  -- The handler does not compare the value's length with the size of a document. `put` reads on
  -- behind a value that is too short; here that is `none`.
  unfoldable pub execute_put : Database → Bytes → Bytes → Collection → Outcome
  execute_put db coll_name value coll = bind_option (Collection.put hash coll value) λ r.
      let db' = Database.update_collection db coll_name r.0 in
      elim r.1 [ null ↦ answer db' Response.failed | at i ↦ answer db' Response.success ]

  unfoldable pub execute_delete : Database → Bytes → Bytes → Collection → Outcome
  execute_delete db coll_name key coll =
      bind_option (Collection.remove hash coll key)
        λ coll'. answer (Database.update_collection db coll_name coll') Response.success

  unfoldable pub execute : Database → Command → Outcome
  execute db Command.no_command = some (db, [])
  execute db (Command.register_schema name s) =
      answer (Database.register_schema db name s) Response.success
  execute db (Command.create_collection name schema_name) =
      or_not_found db (Database.schema db schema_name)
        λ s. bind_option (Database.create_collection db name s) λ db'. answer db' Response.success
  execute db (Command.get_schema name) =
      or_not_found db (Database.schema db name) λ s. answer db (Response.schema s)
  execute db (Command.get_collection_schema coll_name) =
      or_not_found db (Database.collection db coll_name)
        λ coll. answer db (Response.schema coll.schema)
  execute db (Command.get coll_name key) =
      or_not_found db (Database.collection db coll_name) (execute_get db key)
  execute db (Command.put coll_name value) =
      or_not_found db (Database.collection db coll_name) (execute_put db coll_name value)
  execute db (Command.delete coll_name key) =
      or_not_found db (Database.collection db coll_name) (execute_delete db coll_name key)
