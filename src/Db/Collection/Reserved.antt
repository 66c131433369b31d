-- ===== src/Db/Collection/Reserved.antt =====
-- Keys whose hash is a reserved value, and buckets that hold the mark of a removed document.
use boutique.Common.{
  ℕ, zero, suc, ◌-◌, ◌^◌, ◌≤◌, ◌≡◌, true, false, inl, inr, ◌⊎◌, some, List, [], arith, Bytes,
  length, get_elem?, get_elem?-lt, set, ◌==◌, Bool-cases, ap,
}
use boutique.Db.Collection.{
  KeyKind, KeyValue, Collection, null, at, tombstone_key_hash, holds_key, first_index, next_index,
  is_free, put_loop, put_internal, find_loop, find_internal, hash_key, find,
}
use boutique.Db.Collection.Probing.{Around, Around-start, Around-next, first_index-lt}

-- The buckets that the code allocates: none, or a power of two of them.
abbrev pub IsTable : List KeyValue → Type 0
IsTable buckets = (buckets ≡ []) ⊎ ((k : ℕ) × (length buckets ≡ 2 ^ k))

-- a bucket in use does not have the hash 0
holds_key-zero_hash :
    (c : Collection) (key : Bytes) (bucket : KeyValue)
    → (bucket.key_hash == 0) ≡ false
    → holds_key c key 0 bucket ≡ some false
unfolding holds_key
holds_key-zero_hash c key bucket h = rw h

find_loop-zero_hash :
    (k : ℕ) (fuel left : ℕ) (c : Collection) (key : Bytes) (orig idx : ℕ)
    → length c.buckets ≡ 2 ^ k
    → Around k orig idx left
    → left ≤ fuel
    → find_loop fuel c key 0 orig idx ≡ some null
unfolding find_loop
find_loop-zero_hash k zero left c key orig idx e a h = absurd (omega (arith, a.some_left))
find_loop-zero_hash k (suc fuel) left c key orig idx e a h =
    let (bucket, here) = get_elem?-lt c.buckets idx (omega (arith, e, a.in_range)) in
    elim (Bool-cases (bucket.key_hash == 0)) [
      | inl stop ↦ rw (here, stop)
      | inr used ↦
          rw (here, used, holds_key-zero_hash c key bucket used, e)
            (elim (Bool-cases (next_index idx (2 ^ k) == orig)) [
              | inl back ↦ rw back
              | inr on ↦ rw on (
                  find_loop-zero_hash k fuel (left - 1) c key orig (next_index idx (2 ^ k)) e
                    (Around-next k orig idx left a on) (omega arith))
            ])
    ]

find_internal-zero_hash :
    (c : Collection) (key : Bytes) → IsTable c.buckets → find_internal c key 0 ≡ some null
unfolding find_internal
find_internal-zero_hash c key (inl e) = rw (ap length e)
find_internal-zero_hash c key (inr (k, e)) =
    let n = length c.buckets in
    elim (Bool-cases (n == 0)) [
      | inl none_there ↦ rw none_there
      | inr there ↦
          rw (there, e)
            (find_loop-zero_hash k (2 ^ k) (2 ^ k) c key (first_index 0 (2 ^ k))
              (first_index 0 (2 ^ k)) e (Around-start k _ (first_index-lt k 0)) (omega arith))
    ]

-- A key whose hash is 0 is never found, in any collection whose buckets are as the code allocates
-- them, whatever was stored in it: 0 is the mark of an empty bucket.
pub find-zero_hash :
    (hash : KeyKind → Bytes → ℕ) (c : Collection) (key : Bytes)
    → IsTable c.buckets
    → hash_key hash c.key_kind key ≡ some 0
    → find hash c key ≡ some null
unfolding find
find-zero_hash hash c key table h = rw (h, find_internal-zero_hash c key table)

-- a free bucket is taken
put_loop-free :
    (fuel : ℕ) (c : Collection) (dest : List KeyValue) (key : Bytes) (h orig idx : ℕ)
    (bucket : KeyValue)
    → 1 ≤ fuel
    → get_elem? dest idx ≡ some bucket
    → is_free bucket ≡ true
    → put_loop fuel c dest key h orig idx
      ≡ some (set dest idx (record { key_hash = h; value_index = c.storage.count }), at idx)
unfolding put_loop
put_loop-free zero c dest key h orig idx bucket pos here free = absurd (omega arith)
put_loop-free (suc fuel) c dest key h orig idx bucket pos here free = rw (here, free)

is_free-tombstone :
    (bucket : KeyValue) → bucket.key_hash ≡ tombstone_key_hash → is_free bucket ≡ true
unfolding is_free
is_free-tombstone bucket e = ground arith

-- Where the first bucket of a key is the mark of a removed document, put_internal takes it and looks
-- no further, also if a bucket behind it holds the key: the bucket is given to the document that
-- comes next in the storage. The number of buckets is a power of two.
pub put_internal-tombstone :
    (k : ℕ) (c : Collection) (dest : List KeyValue) (key : Bytes) (h : ℕ) (bucket : KeyValue)
    → length dest ≡ 2 ^ k
    → get_elem? dest (first_index h (2 ^ k)) ≡ some bucket
    → bucket.key_hash ≡ tombstone_key_hash
    → put_internal c dest key h
      ≡ some (
        set dest (first_index h (2 ^ k)) (record { key_hash = h; value_index = c.storage.count }),
        at (first_index h (2 ^ k)),
      )
unfolding put_internal
put_internal-tombstone k c dest key h bucket e here mark =
    let idx = first_index h (2 ^ k) in
    rw e (
      put_loop-free (2 ^ k) c dest key h idx idx bucket (omega (arith, first_index-lt k h)) here
        (is_free-tombstone bucket mark))
