-- ===== src/Db/Collection/Search.antt =====
-- find is a search of the documents for the key.
use boutique.Common.{
  ℕ, ◌^◌, ◌<◌, ◌≡◌, ◌≢◌, ap, ◌∙◌, false, inl, inr, some, [], arith, Bytes, length, ◌==◌,
}
use boutique.Db.Collection.{
  KeyKind, Collection, Found, null, at, doc_key, first_index, find_loop, find_internal, hash_key,
  find,
}
use boutique.Db.Collection.Probing.{Around-start, first_index-lt}
use boutique.Db.Collection.Insert.{PointBelow-at, holds_key-hash}
use boutique.Db.Collection.Walk.{Holds, find_loop-Holds, find_loop-Reaches, find_loop_total}
use boutique.Db.Collection.Index.{
  IsIndexed, IsClear, IsClear-used, holds_key-key, IsIndexed-Compares, Indexed-Holds,
}

-- What a search of the documents for the key gives.
abbrev pub Answers : Collection → Bytes → Found → Type 0
Answers c key null = (i : ℕ) → i < c.storage.count → doc_key c i ≢ some key
Answers c key (at i) = (i < c.storage.count) × (doc_key c i ≡ some key)

module _ (hash : KeyKind → Bytes → ℕ) where
  Holds-Answers :
      (c : Collection) (key : Bytes) (h q : ℕ)
      → IsIndexed hash c
      → IsClear c.buckets h
      → (there : Holds c key h q) → Answers c key (at there.bucket.value_index)
  Holds-Answers c key h q inv clear place =
      let b = place.bucket in
      let used =
        IsClear-used c.buckets h q b clear place.here place.nonzero
          (holds_key-hash c key h b place.held) in
      (
        PointBelow-at c.storage.count c.buckets q b inv.below place.here used,
        holds_key-key c key h b place.held,
      )

  -- a walk that ends at an empty bucket has missed no document
  pub find_loop-null :
      (k : ℕ) (c : Collection) (key : Bytes) (h : ℕ)
      → IsIndexed hash c
      → IsClear c.buckets h
      → length c.buckets ≡ 2 ^ k
      → hash_key hash c.key_kind key ≡ some h
      → find_loop (2 ^ k) c key h (first_index h (2 ^ k)) (first_index h (2 ^ k)) ≡ some null
      → Answers c key null
  find_loop-null k c key h inv clear len hashed gone i lt e =
      let doc = inv.indexed i lt in
      let (same_hash, place) = Indexed-Holds hash c key h i doc e hashed in
      let start = first_index h (2 ^ k) in
      let (q, found) =
        find_loop-Reaches k (2 ^ k) (2 ^ k) c key h start start doc.place len
          (Around-start k start (first_index-lt k h)) (omega arith) (omega arith)
          (IsIndexed-Compares hash c key h inv clear) (rw (len, ← same_hash) at doc.reached)
          place in
      cc

  find-at :
      (c : Collection) (key : Bytes) (h q : ℕ)
      → hash_key hash c.key_kind key ≡ some h
      → find_internal c key h ≡ some (at q)
      → (there : Holds c key h q) → find hash c key ≡ some (at there.bucket.value_index)
  unfolding find
  find-at c key h q hashed found place = rw (hashed, found, place.here)

  find-null :
      (c : Collection) (key : Bytes) (h : ℕ)
      → hash_key hash c.key_kind key ≡ some h
      → find_internal c key h ≡ some null
      → find hash c key ≡ some null
  unfolding find
  find-null c key h hashed found = rw (hashed, found)

  pub find_internal-table :
      (k : ℕ) (c : Collection) (key : Bytes) (h : ℕ)
      → length c.buckets ≡ 2 ^ k
      → find_internal c key h
        ≡ find_loop (2 ^ k) c key h (first_index h (2 ^ k)) (first_index h (2 ^ k))
  unfolding find_internal
  find_internal-table k c key h len =
      let some_there : (2 ^ k == 0) ≡ false =
        ground (arith, (Around-start k (first_index h (2 ^ k)) (first_index-lt k h)).some_left) in
      rw (len, some_there)

  find_loop-Answers :
      (k : ℕ) (c : Collection) (key : Bytes) (h : ℕ) (found : Found)
      → IsIndexed hash c
      → IsClear c.buckets h
      → length c.buckets ≡ 2 ^ k
      → hash_key hash c.key_kind key ≡ some h
      → find_loop (2 ^ k) c key h (first_index h (2 ^ k)) (first_index h (2 ^ k)) ≡ some found
      → (answer : Found) × (find hash c key ≡ some answer) × Answers c key answer
  find_loop-Answers k c key h null inv clear len hashed run = (
    null,
    find-null c key h hashed (find_internal-table k c key h len ∙ run),
    find_loop-null k c key h inv clear len hashed run,
  )
  find_loop-Answers k c key h (at q) inv clear len hashed run =
      let place =
        find_loop-Holds (2 ^ k) c key h (first_index h (2 ^ k)) (first_index h (2 ^ k)) q run in
      (
        at place.bucket.value_index,
        find-at c key h q hashed (find_internal-table k c key h len ∙ run) place,
        Holds-Answers c key h q inv clear place,
      )

  find-none :
      (c : Collection) (key : Bytes) (h : ℕ)
      → IsIndexed hash c
      → c.buckets ≡ []
      → hash_key hash c.key_kind key ≡ some h
      → (answer : Found) × (find hash c key ≡ some answer) × Answers c key answer
  unfolding find_internal
  find-none c key h inv no_buckets hashed = (
    null,
    find-null c key h hashed (rw (ap length no_buckets)),
    λ i lt e. let bad = rw no_buckets at (inv.indexed i lt).here in cc,
  )

  -- In a collection whose documents are indexed, find, for a key
  -- whose hash is not that of a removed bucket, is a search of the documents: it ends, it gives
  -- the index of a document that has the key, and it gives null only where no document has it.
  pub find-Answers :
      (c : Collection) (key : Bytes) (h : ℕ)
      → IsIndexed hash c
      → IsClear c.buckets h
      → hash_key hash c.key_kind key ≡ some h
      → (found : Found) × (find hash c key ≡ some found) × Answers c key found
  find-Answers c key h inv clear hashed = elim inv.table [
    | inl no_buckets ↦ find-none c key h inv no_buckets hashed
    | inr (k, len) ↦
        let start = first_index h (2 ^ k) in
        let (found, run) =
          find_loop_total k (2 ^ k) (2 ^ k) c key h start start len
            (Around-start k start (first_index-lt k h)) (omega arith)
            (IsIndexed-Compares hash c key h inv clear) in
        find_loop-Answers k c key h found inv clear len hashed run
  ]
