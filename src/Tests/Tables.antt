-- ===== src/Tests/Tables.antt =====
-- A collection of documents of one byte, which are their keys, made by a call of put.
use boutique.Common.{
  inl, inr, ℕ, ◌≡◌, refl, arith, Option, none, some, [], ◌∷◌, Bytes, set, replicate,
}
use boutique.Db.Schema.{Schema, no_fields, field, uint8_type, field_type?}
use boutique.Db.Layout.{schema_size, schema_offset}
use boutique.Db.Storage
use boutique.Db.Collection
use boutique.Db.Collection.{
  KeyKind, KeyValue, Collection, Found, plain_key, null, at, first_index, empty_bucket,
  tombstone_key_hash,
}
use boutique.Db.Collection.Index.{IsIndexed, AreUnremoved}
use boutique.Db.Collection.Removal.{Leaves, remove_total}
use boutique.Db.Collection.Contents.{find_doc, with_doc, without_doc}
use boutique.Db.Collection.Reached.{
  Reached, Sound, Reached-Sound, stored, removed, find_doc-Reached, put-Reached, remove-Reached,
}
use boutique.Db.Collection.Reached as Maps
use boutique.Db.Collection.Puts.{Fits, Filled, made, filled, put-IsIndexed, Filled-IsIndexed}

abbrev pub hash : KeyKind → Bytes → ℕ
hash kind key = 2

abbrev pub letters : Schema
letters = record { fields = field [] uint8_type no_fields; key_field_index = 0 }

abbrev pub no_letters : Collection
no_letters = record {
  schema = letters;
  key_offset = 0;
  key_kind = plain_key uint8_type 1;
  storage = record { doc_size = 1; bytes = []; count = 0 };
  buckets = [];
}

abbrev one_letter : Collection
one_letter = record no_letters {
  storage = record { doc_size = 1; bytes = 8 ∷ replicate 15 0; count = 1 };
  buckets = set (replicate 32 empty_bucket) 2 (record { key_hash = 2; value_index = 0 });
}

pub new-letters : Collection.new letters ≡ some no_letters
unfolding Collection.new schema_size schema_offset boutique.Db.Layout.end_offset
    boutique.Db.Layout.alignment field_type? boutique.Db.Layout.align_offset Storage.new
new-letters = refl

put-letter : Collection.put hash no_letters (8 ∷ []) ≡ some (one_letter, at 0)
unfolding Collection.put Collection.grow Collection.rehash Collection.insert Collection.key_buffer
    Collection.hash_key Collection.put_internal Collection.put_loop first_index Collection.is_free
    Collection.store Storage.put Storage.overwrite Storage.reserve Collection.load_limit
put-letter = refl

letter_fits : Fits hash no_letters (8 ∷ [])
unfolding Collection.key_buffer Collection.hash_key
letter_fits = record {
  whole = refl;
  key = 8 ∷ [];
  with_key = refl;
  key_hash = 2;
  hashed = refl;
  nonzero = omega arith;
  unremoved = λ e. omega (arith, e);
}

no_letters-Filled : Filled hash no_letters
no_letters-Filled = made letters no_letters new-letters

one_letter-Filled : Filled hash one_letter
one_letter-Filled = filled no_letters one_letter (8 ∷ []) 0 no_letters-Filled letter_fits put-letter

put-IsIndexed_example :
    IsIndexed hash one_letter × (AreUnremoved no_letters.buckets → AreUnremoved one_letter.buckets)
put-IsIndexed_example =
    put-IsIndexed hash no_letters one_letter (8 ∷ []) 0
      (Filled-IsIndexed hash no_letters no_letters-Filled).0 letter_fits (inl tt) put-letter

-- a document whose key has the hash of the one that is there
nine_fits : Fits hash one_letter (9 ∷ [])
unfolding Collection.key_buffer Collection.hash_key
nine_fits = record {
  whole = refl;
  key = 9 ∷ [];
  with_key = refl;
  key_hash = 2;
  hashed = refl;
  nonzero = omega arith;
  unremoved = λ e. omega (arith, e);
}

-- two documents, and the second one alone
abbrev pub two_letters : Collection
two_letters = record no_letters {
  storage = record { doc_size = 1; bytes = 8 ∷ 9 ∷ replicate 14 0; count = 2 };
  buckets =
      set (set (replicate 32 empty_bucket) 2 (record { key_hash = 2; value_index = 0 })) 3
        (record { key_hash = 2; value_index = 1 });
}

abbrev last_letter : Collection
last_letter = record no_letters {
  storage = record { doc_size = 1; bytes = 9 ∷ 9 ∷ replicate 14 0; count = 1 };
  buckets =
      set
        (set (replicate 32 empty_bucket) 2
          (record { key_hash = tombstone_key_hash; value_index = 0 }))
        3 (record { key_hash = 2; value_index = 0 });
}

put-nine : Collection.put hash one_letter (9 ∷ []) ≡ some (two_letters, at 1)
unfolding Collection.put Collection.grow Collection.insert Collection.key_buffer Collection.hash_key
    Collection.put_internal Collection.put_loop first_index Collection.is_free Collection.store
    Storage.put Storage.overwrite Storage.reserve Collection.load_limit Collection.holds_key
    Collection.doc_key Storage.doc boutique.Common.bytes_eq Collection.next_index
put-nine = refl

remove-eight : Collection.remove hash two_letters (8 ∷ []) ≡ some last_letter
unfolding Collection.remove Collection.find_internal Collection.find_loop Collection.hash_key
    first_index Collection.redirect_last Collection.set_index Storage.remove Storage.overwrite
    Storage.doc Collection.key_buffer Collection.holds_key Collection.doc_key
    boutique.Common.bytes_eq Collection.next_index
remove-eight = refl

no_letters-Reached : Reached hash no_letters (λ q. none)
no_letters-Reached = Maps.made letters no_letters new-letters

abbrev eight : Bytes → Option Bytes
eight = with_doc (λ q. none) (8 ∷ []) (8 ∷ [])

one_letter-Reached : Reached hash one_letter eight
unfolding letter_fits
one_letter-Reached =
    stored no_letters one_letter (λ q. none) (8 ∷ []) 0 no_letters-Reached letter_fits (inl refl)
      put-letter

abbrev pub both_letters : Bytes → Option Bytes
both_letters = with_doc eight (9 ∷ []) (9 ∷ [])

pub two_letters-Reached : Reached hash two_letters both_letters
unfolding boutique.Common.bytes_eq nine_fits
two_letters-Reached =
    stored one_letter two_letters eight (9 ∷ []) 1 one_letter-Reached nine_fits (inl refl) put-nine

last_letter-Reached : Reached hash last_letter (without_doc both_letters (8 ∷ []))
unfolding Collection.hash_key
last_letter-Reached =
    removed two_letters last_letter both_letters (8 ∷ []) 2 two_letters-Reached refl
      (λ e. omega (arith, e)) remove-eight

-- the second document is found behind the bucket of the first one
find_doc-Reached_example : find_doc hash last_letter (9 ∷ []) ≡ some (some (9 ∷ []))
unfolding Collection.hash_key boutique.Common.bytes_eq
find_doc-Reached_example =
    find_doc-Reached hash last_letter (without_doc both_letters (8 ∷ [])) (9 ∷ []) 2
      last_letter-Reached refl (λ e. omega (arith, e))

put-Reached_example :
    (c' : Collection) × (i : ℕ) × (Collection.put hash one_letter (9 ∷ []) ≡ some (c', at i))
    × Reached hash c' both_letters
unfolding boutique.Common.bytes_eq nine_fits
put-Reached_example =
    put-Reached hash one_letter eight (9 ∷ []) one_letter-Reached nine_fits (inl refl)

-- the first document is removed, and the second one, behind its bucket, is still found
remove-Reached_example :
    (c' : Collection) × (Collection.remove hash two_letters (8 ∷ []) ≡ some c')
    × (find_doc hash two_letters (9 ∷ []) ≡ some (some (9 ∷ [])))
    × (find_doc hash c' (9 ∷ []) ≡ some (some (9 ∷ [])))
unfolding Collection.hash_key boutique.Common.bytes_eq
remove-Reached_example =
    remove-Reached hash two_letters both_letters (8 ∷ []) (9 ∷ []) 2 2 two_letters-Reached refl
      (λ e. omega (arith, e)) refl (λ e. omega (arith, e))

remove_total_example :
    (c' : Collection) × (Collection.remove hash two_letters (8 ∷ []) ≡ some c')
    × Leaves two_letters (8 ∷ []) c'
unfolding Collection.hash_key
remove_total_example =
    remove_total hash two_letters (8 ∷ []) 2
      (Reached-Sound hash two_letters both_letters two_letters-Reached).indexed
      (inr λ e. omega (arith, e)) refl
