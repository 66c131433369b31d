-- ===== src/Server/Execute/Answers.antt =====
-- Each command is answered once.
use boutique.Common.{◌⊎◌, inl, inr, ℕ, ◌≡◌, refl, Option, none, some, Bytes, length}
use boutique.Core.Serialize.{bind_option}
use boutique.Db.Collection
use boutique.Db.Collection.{KeyKind, Collection, Found, null, at}
use boutique.Db.Database
use boutique.Db.Database.{Database}
use boutique.Protocol.Messages.{Command}
use boutique.Protocol.Binary.RoundTrip.{FitsCommand}
use boutique.Server.Execute.{
  Outcome, or_not_found, execute_get, execute_put, execute_delete, execute,
}

-- A failure, or one response.
abbrev pub AnswersOnce : Outcome → Type 0
AnswersOnce none = Unit
AnswersOnce (some (db, responses)) = length responses ≡ 1

or_not_found-AnswersOnce :
    {A : Type 0} (db : Database) (a : Option A) (f : A → Outcome)
    → ((x : A) → AnswersOnce (f x))
    → AnswersOnce (or_not_found db a f)
or_not_found-AnswersOnce db none f h = refl
or_not_found-AnswersOnce db (some x) f h = h x

bind_option-AnswersOnce :
    {A : Type 0} (a : Option A) (f : A → Outcome)
    → ((x : A) → AnswersOnce (f x))
    → AnswersOnce (bind_option a f)
bind_option-AnswersOnce none f h = tt
bind_option-AnswersOnce (some x) f h = h x

Found-cases : (found : Found) → (found ≡ null) ⊎ ((i : ℕ) × (found ≡ at i))
Found-cases null = inl refl
Found-cases (at i) = inr (i, refl)

module _ (hash : KeyKind → Bytes → ℕ) where
  execute_get-AnswersOnce :
      (db : Database) (key : Bytes) (coll : Collection) → AnswersOnce (execute_get hash db key coll)
  unfolding execute_get
  execute_get-AnswersOnce db key coll =
      bind_option-AnswersOnce (Collection.find hash coll key) _
        λ found. elim (Found-cases found) [ inl e ↦ rw e refl | inr (i, e) ↦ rw e refl ]

  execute_put-AnswersOnce :
      (db : Database) (name value : Bytes) (coll : Collection)
      → AnswersOnce (execute_put hash db name value coll)
  unfolding execute_put
  execute_put-AnswersOnce db name value coll =
      bind_option-AnswersOnce (Collection.put hash coll value) _
        λ r. elim (Found-cases r.1) [ inl e ↦ rw e refl | inr (i, e) ↦ rw e refl ]

  execute_delete-AnswersOnce :
      (db : Database) (name key : Bytes) (coll : Collection)
      → AnswersOnce (execute_delete hash db name key coll)
  unfolding execute_delete
  execute_delete-AnswersOnce db name key coll =
      bind_option-AnswersOnce (Collection.remove hash coll key) _ λ coll'. refl

  -- Every command that the protocol carries either fails or is answered by exactly one response.
  pub execute-AnswersOnce :
      (db : Database) (cmd : Command) → FitsCommand cmd → AnswersOnce (execute hash db cmd)
  unfolding execute
  execute-AnswersOnce db Command.no_command fits = absurd fits
  execute-AnswersOnce db (Command.register_schema name s) fits = refl
  execute-AnswersOnce db (Command.create_collection name schema_name) fits =
      or_not_found-AnswersOnce db (Database.schema db schema_name) _
        λ s. bind_option-AnswersOnce (Database.create_collection db name s) _ λ db'. refl
  execute-AnswersOnce db (Command.get_schema name) fits =
      or_not_found-AnswersOnce db (Database.schema db name) _ λ s. refl
  execute-AnswersOnce db (Command.get_collection_schema name) fits =
      or_not_found-AnswersOnce db (Database.collection db name) _ λ coll. refl
  execute-AnswersOnce db (Command.get name key) fits =
      or_not_found-AnswersOnce db (Database.collection db name) _ (execute_get-AnswersOnce db key)
  execute-AnswersOnce db (Command.put name value) fits =
      or_not_found-AnswersOnce db (Database.collection db name) _
        (execute_put-AnswersOnce db name value)
  execute-AnswersOnce db (Command.delete name key) fits =
      or_not_found-AnswersOnce db (Database.collection db name) _
        (execute_delete-AnswersOnce db name key)
