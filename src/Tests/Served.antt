-- ===== src/Tests/Served.antt =====
-- A client that makes a collection, puts a document, reads it, deletes it and asks again.
use boutique.Common.{
  ℕ, ◌<◌, ◌≡◌, ◌++◌, refl, subst, arith, true, false, Bool, ◌&&◌, none, some, Option, ap, inl, List,
  [], ◌∷◌, Bytes, IsBytes, ltb, Bool-cases, inr, length,
}
use boutique.Core.StreamBuf
use boutique.Core.StreamBuf.Laws as StreamLaws
use boutique.Db.Schema.{Schema, field_type?}
use boutique.Db.Layout.{schema_size, schema_offset}
use boutique.Db.Storage
use boutique.Db.Collection
use boutique.Db.Collection.{tombstone_key_hash}
use boutique.Db.Collection.Puts.{Fits}
use boutique.Db.Database
use boutique.Db.Database.{Database}
use boutique.Protocol.Messages.{Command}
use boutique.Protocol.Binary.{write_command}
use boutique.Server.Execute.{execute}
use boutique.Server.Execute.Store.{Table, Store, no_store, with_table, act, key_of}
use boutique.Server.Execute.Store.Tables.{Refines-new, Refines-table, Keeps, HasHash, HasRoom}
use boutique.Server.Execute.Store.Acts.{Carries, execute-Carries}
use boutique.Server.Handler.{Client, recv_handler}
use boutique.Server.Handler.Calls.{pending}
use boutique.Server.Handler.Commands.{write_commands}
use boutique.Server.Handler.Stores.{acts, AllowAll, Serves, recv_handler-acts}
use boutique.Tests.Tables.{
  hash, letters, no_letters, new-letters, two_letters, both_letters, two_letters-Reached,
}

abbrev connected : Client
connected = record {
  db = Database.new;
  stream = StreamBuf.new;
  closed = false;
  sent = [];
  receiving = true;
}

abbrev session : List Command
session =
    Command.register_schema (7 ∷ []) letters
    ∷ Command.create_collection (5 ∷ []) (7 ∷ [])
    ∷ Command.put (5 ∷ []) (8 ∷ [])
    ∷ Command.get (5 ∷ []) (8 ∷ [])
    ∷ Command.delete (5 ∷ []) (8 ∷ [])
    ∷ Command.get (5 ∷ []) (8 ∷ [])
    ∷ []

are_bytes : Bytes → Bool
are_bytes [] = true
are_bytes (b ∷ bs) = ltb b 256 && are_bytes bs

are_bytes-IsBytes : (bs : Bytes) → are_bytes bs ≡ true → IsBytes bs
unfolding are_bytes
are_bytes-IsBytes [] e = tt
are_bytes-IsBytes (b ∷ bs) e = elim (Bool-cases (ltb b 256)) [
  | inl small ↦ (ground arith, are_bytes-IsBytes bs (rw small at e))
  | inr large ↦ let bad = rw large at e in cc
]

letters_fit : Fits hash no_letters (8 ∷ [])
unfolding Collection.key_buffer Collection.hash_key
letters_fit = record {
  whole = refl;
  key = 8 ∷ [];
  with_key = refl;
  key_hash = 2;
  hashed = refl;
  nonzero = omega arith;
  unremoved = λ e. omega (arith, e);
}

eight-HasHash : (t : Table) → letters ≡ t.schema → HasHash hash t.schema (8 ∷ [])
unfolding Collection.hash_key
eight-HasHash t same =
    subst (λ s. HasHash hash s (8 ∷ [])) same
      (record {
        empty = no_letters;
        is_new = new-letters;
        key_hash = 2;
        hashed = refl;
        unremoved = λ e. omega (arith, e);
      })

eight-HasRoom :
    HasRoom hash (record { schema = letters; removed = false; docs = λ q. none }) (8 ∷ [])
eight-HasRoom = record {
  empty = no_letters;
  is_new = new-letters;
  fits = letters_fit;
  free = inl refl;
}

abbrev schema_of : Option Table → Schema
schema_of none = letters
schema_of (some t) = t.schema

-- the same schema throughout
session-AllowAll : AllowAll hash no_store session
unfolding act key_of Collection.new schema_size schema_offset boutique.Db.Layout.end_offset
    boutique.Db.Layout.alignment field_type? boutique.Db.Layout.align_offset Storage.new
    boutique.Common.bytes_eq Collection.key_buffer
session-AllowAll = (
  tt,
  (
    λ s e. (
      no_letters,
      let same : letters ≡ s = cc in
          subst (λ x. Collection.new x ≡ some no_letters) same new-letters,
    ),
    (
      λ t e.
          let same : record { schema = letters; removed = false; docs = λ q. none } ≡ t = cc in
          subst (λ x. HasRoom hash x (8 ∷ [])) same eight-HasRoom,
      (
        λ t e. eight-HasHash t (ap schema_of e),
        (λ t e. eight-HasHash t (ap schema_of e), (λ t e. eight-HasHash t (ap schema_of e), tt)),
      ),
    ),
  ),
)

abbrev rest : Bytes
rest = 3 ∷ 1 ∷ []

recv_handler-acts_example :
    (s' : Client) × (recv_handler hash connected (write_commands session ++ rest) ≡ some s')
    × Serves hash connected s' (acts no_store session) rest
unfolding are_bytes StreamBuf.contents StreamBuf.new write_command
    boutique.Core.Serialize.write_uint boutique.Core.Serialize.write_string
    boutique.Protocol.Binary.Schemas.write_schema boutique.Protocol.Binary.Schemas.write_aggregate
    boutique.Db.Schema.field_count boutique.Protocol.Binary.Schemas.type_index
    boutique.Protocol.Binary.read_command boutique.Core.Serialize.read_uint
    boutique.Core.Serialize.read_string boutique.Db.Schema.FitsFields
recv_handler-acts_example =
    recv_handler-acts hash connected no_store (write_commands session ++ rest) rest session
      (Refines-new hash) session-AllowAll StreamLaws.new-IsValid (omega arith)
      (are_bytes-IsBytes (pending connected ++ (write_commands session ++ rest)) refl) refl
      (
        (omega arith, ((omega arith, (omega arith, tt, tt)), omega arith)),
        (
          (omega arith, omega arith),
          (
            (omega arith, omega arith),
            (
              (omega arith, omega arith),
              ((omega arith, omega arith), ((omega arith, omega arith), tt)),
            ),
          ),
        ),
      )
      refl

-- a collection with two documents, on which a delete was tried before
abbrev lettered : Table
lettered = record { schema = letters; removed = true; docs = both_letters }

lettered-Keeps : Keeps hash two_letters lettered
lettered-Keeps = record {
  reached = two_letters-Reached;
  same_schema = refl;
  empty = no_letters;
  is_new = new-letters;
  kind = refl;
  offset = refl;
  size = refl;
  unremoved = λ e. cc;
}

abbrev stocked : Database
stocked = Database.update_collection Database.new (5 ∷ []) two_letters

abbrev stock : Store
stock = with_table no_store (5 ∷ []) lettered

-- one of the documents is deleted
execute-Carries_example :
    Carries hash
      (execute hash stocked (Command.delete (5 ∷ []) (8 ∷ [])))
      (act stock (Command.delete (5 ∷ []) (8 ∷ [])))
unfolding boutique.Common.bytes_eq
execute-Carries_example =
    execute-Carries hash stocked stock (Command.delete (5 ∷ []) (8 ∷ []))
      (Refines-table hash Database.new no_store (5 ∷ []) two_letters lettered (Refines-new hash)
        lettered-Keeps)
      (λ t e. eight-HasHash t (ap schema_of e))
