-- ===== src/Db/Database.antt =====
-- db/database.hpp and db/database.cpp: schemas and collections by name. `std::unordered_map` is a list
-- of entries, since the program never walks over one.
use boutique.Common.{
  ◌≡◌, refl, Option, none, some, List, [], ◌∷◌, arith, Bytes, bytes_eq, bytes_eq_iff, if◌then◌else◌,
}
use boutique.Core.Serialize.{bind_option}
use boutique.Db.Schema.{Schema}
use boutique.Db.Collection
use boutique.Db.Collection.{Collection}

module _ {ℓ} {V : Type ℓ} where
  -- find
  unfoldable pub lookup : Bytes → List (Bytes × V) → Option V
  lookup k [] = none
  lookup k ((j, v) ∷ m) = if bytes_eq j k then some v else lookup k m

  unfoldable pub insert_or_assign : Bytes → V → List (Bytes × V) → List (Bytes × V)
  insert_or_assign k v [] = (k, v) ∷ []
  insert_or_assign k v ((j, w) ∷ m) =
      if bytes_eq j k then (k, v) ∷ m else (j, w) ∷ insert_or_assign k v m

  -- After insert_or_assign of a key, that key has the new value and every other key what it had.
  pub lookup-insert_or_assign :
      (k q : Bytes) (v : V) (m : List (Bytes × V))
      → lookup q (insert_or_assign k v m) ≡ (if bytes_eq k q then some v else lookup q m)
  unfolding lookup insert_or_assign
  lookup-insert_or_assign k q v [] = refl
  lookup-insert_or_assign k q v ((j, w) ∷ m) =
      ground (
        arith,
        lookup-insert_or_assign k q v m,
        bytes_eq_iff k q,
        bytes_eq_iff j k,
        bytes_eq_iff j q,
      )

pub record Database : Type 0 where
  pub schemas : List (Bytes × Schema)
  pub colls : List (Bytes × Collection)

unfoldable pub new : Database
new = record { schemas = []; colls = [] }

unfoldable pub register_schema : Database → Bytes → Schema → Database
register_schema db name s = record db { schemas = insert_or_assign name s db.schemas }

-- `none` where the constructor of the collection fails an assertion
unfoldable pub create_collection : Database → Bytes → Schema → Option Database
create_collection db name s =
    bind_option (Collection.new s)
      λ c. some (record db { colls = insert_or_assign name c db.colls })

unfoldable pub schema : Database → Bytes → Option Schema
unfolding lookup
schema db name = lookup name db.schemas

unfoldable pub collection : Database → Bytes → Option Collection
unfolding lookup
collection db name = lookup name db.colls

-- What a handler does to a collection through the pointer that `collection` returned.
unfoldable pub update_collection : Database → Bytes → Collection → Database
update_collection db name c = record db { colls = insert_or_assign name c db.colls }
