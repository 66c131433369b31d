-- ===== src/Tests/Stores.antt =====
-- Stream buffers, storages and the index of a collection.
use boutique.Common.{
  ◌≡◌, ◌^◌, ◌-◌, ℕ, refl, arith, some, inr, [], ◌∷◌, Bytes, bytes_eq_refl, replicate,
}
use boutique.Core.StreamBuf.{StreamBuf}
use boutique.Core.StreamBuf.Laws.{new-IsValid, append-contents, consume-contents, empty_iff}
use boutique.Db.Schema.{no_fields, uint8_type}
use boutique.Db.Storage
use boutique.Db.Storage.{Storage}
use boutique.Db.Storage.Laws.{docs, put-docs, set_doc-docs, remove-docs}
use boutique.Db.Collection
use boutique.Db.Collection.{KeyKind, KeyValue, Collection, Found, plain_key, null, at, first_index}
use boutique.Db.Collection.Reserved.{find-zero_hash}
use boutique.Core.StreamBuf.Laws as StreamLaws
use boutique.Db.Storage.Laws as StorageLaws

-- two bytes, of which one is used
abbrev stream : StreamBuf
stream = record { m_buf = 5 ∷ 6 ∷ []; m_size = 2; m_used = 1 }

stream-IsValid : StreamLaws.IsValid stream
stream-IsValid = record { counted = refl; used = omega arith; cleared = λ e. absurd (omega arith) }

-- documents 1 2 and 3 4, in a vector that has room for one more
abbrev pairs : Storage
pairs = record { doc_size = 2; bytes = 1 ∷ 2 ∷ 3 ∷ 4 ∷ 0 ∷ 0 ∷ []; count = 2 }

pairs-IsValid : StorageLaws.IsValid pairs
pairs-IsValid = record { fits = omega arith }

abbrev bucket : ℕ → ℕ → KeyValue
bucket h i = record { key_hash = h; value_index = i }

-- documents of one byte, which is the key; the key 9 is in the second bucket, behind a removed one
abbrev behind_tombstone : Collection
behind_tombstone = record {
  schema = record { fields = no_fields; key_field_index = 0 };
  key_offset = 0;
  key_kind = plain_key uint8_type 1;
  storage = record { doc_size = 1; bytes = 9 ∷ []; count = 1 };
  buckets = bucket (2 ^ 64 - 1) 0 ∷ bucket 2 0 ∷ [];
}

-- the hash of every key is 0, or is 2
abbrev all_zero : KeyKind → Bytes → ℕ
all_zero kind key = 0

abbrev all_two : KeyKind → Bytes → ℕ
all_two kind key = 2

-- The key is there, and put stores it a second time.
found_behind_tombstone : Collection.find all_two behind_tombstone (9 ∷ []) ≡ some (at 0)
unfolding Collection.find Collection.hash_key Collection.find_internal Collection.find_loop
    first_index Collection.holds_key Collection.next_index Collection.doc_key Storage.doc
found_behind_tombstone = rw (bytes_eq_refl (9 ∷ []))

find-zero_hash_example : Collection.find all_zero behind_tombstone (9 ∷ []) ≡ some null
unfolding Collection.hash_key
find-zero_hash_example = find-zero_hash all_zero behind_tombstone (9 ∷ []) (inr (1, refl)) refl

-- the key 8 takes the place of the removed one
abbrev with_eight : Collection
with_eight = record behind_tombstone {
  storage = record { doc_size = 1; bytes = 9 ∷ 8 ∷ replicate 14 0; count = 2 };
  buckets = bucket 2 1 ∷ bucket 2 0 ∷ [];
}

insert-eight : Collection.insert all_two behind_tombstone (8 ∷ []) ≡ some (with_eight, at 1)
unfolding Collection.insert Collection.key_buffer Collection.hash_key Collection.put_internal
    Collection.put_loop first_index Collection.is_free Collection.store Storage.put
    Storage.overwrite Storage.reserve
insert-eight = refl
