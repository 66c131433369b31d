-- ===== src/Db/Collection/Puts.antt =====
-- The collections that are made by put: their index, and what find gives in them.
use boutique.Common.{
  ℕ, ◌≡◌, ◌≢◌, refl, subst, inl, inr, none, some, [], arith, List, Bytes, length, Option-cases,
}
use boutique.Db.Schema.{Schema, field_type?}
use boutique.Db.Layout.{schema_size, schema_offset}
use boutique.Db.Storage
use boutique.Db.Collection.{
  doc_key, KeyKind, KeyValue, Collection, Found, at, tombstone_key_hash, hash_key, kind_of_key, new,
  grow, insert, put, find, key_buffer,
}
use boutique.Db.Collection.Index.{IsIndexed, IsSafe, AreUnremoved}
use boutique.Db.Collection.Search.{Answers, find-Answers}
use boutique.Db.Collection.Stays.{insert-IsIndexed}
use boutique.Db.Collection.Grow.{grow-IsIndexed}

-- A document that put is given: of the collection's size, with a key whose hash is not reserved.
pub record Fits (hash : KeyKind → Bytes → ℕ) (c : Collection) (elem : Bytes) : Type 0 where
  pub whole : length elem ≡ c.storage.doc_size
  pub key : Bytes
  pub with_key : key_buffer c.key_kind c.key_offset elem ≡ some key
  pub key_hash : ℕ
  pub hashed : hash_key hash c.key_kind key ≡ some key_hash
  pub nonzero : key_hash ≢ 0
  pub unremoved : key_hash ≢ tombstone_key_hash

-- a new collection is empty
pub new_lem :
    (s : Schema) (c : Collection)
    → new s ≡ some c
    → (c.buckets ≡ []) × (c.storage.count ≡ 0) × (c.schema ≡ s)
unfolding new Storage.new
new_lem s c e = elim (Option-cases (schema_size s)) [
  | inl failed ↦ let bad = rw failed at e in cc
  | inr (doc_size, sized) ↦ elim (Option-cases (schema_offset s s.key_field_index)) [
    | inl failed ↦ let bad = rw (sized, failed) at e in cc
    | inr (key_offset, at_offset) ↦ elim (Option-cases (field_type? s.fields s.key_field_index)) [
      | inl failed ↦ let bad = rw (sized, at_offset, failed) at e in cc
      | inr (type, typed) ↦ elim (Option-cases (kind_of_key type)) [
        | inl failed ↦ let bad = rw (sized, at_offset, typed, failed) at e in cc
        | inr (kind, of_kind) ↦
            let e' = rw (sized, at_offset, typed, of_kind) at e in
            let same : record {
              schema = s;
              key_offset = key_offset;
              key_kind = kind;
              storage = Storage.new doc_size;
              buckets = [];
            }
                ≡ c =
              cc in
            subst (λ x. (x.buckets ≡ []) × (x.storage.count ≡ 0) × (x.schema ≡ s)) same
              (refl, refl, refl)
      ]
    ]
  ]
]

-- other buckets do not change the keys
IsSafe-grown :
    (c : Collection) (bs : List KeyValue) (key : Bytes)
    → (AreUnremoved c.buckets → AreUnremoved bs)
    → IsSafe c key
    → IsSafe (record c { buckets = bs }) key
unfolding doc_key
IsSafe-grown c bs key un (inl none_removed) = inl (un none_removed)
IsSafe-grown c bs key un (inr absent) = inr absent

module _ (hash : KeyKind → Bytes → ℕ) where
  put-grown :
      (c c' : Collection) (bs : List KeyValue) (elem : Bytes) (i : ℕ)
      → IsIndexed hash (record c { buckets = bs })
      → (f : Fits hash c elem) → IsSafe (record c { buckets = bs }) f.key
      → insert hash (record c { buckets = bs }) elem ≡ some (c', at i)
      → IsIndexed hash c' × (AreUnremoved bs → AreUnremoved c'.buckets)
  put-grown c c' bs elem i inv f safe run =
      insert-IsIndexed hash (record c { buckets = bs }) c' f.key elem f.key_hash i inv f.whole
        f.with_key f.hashed f.nonzero f.unremoved safe run

  -- In a collection whose documents are indexed they still are after put, which may move them to
  -- more buckets, for a document of the collection's size whose key's hash is not reserved, where no
  -- document has its key or nothing was removed, in which case nothing is removed then.
  pub put-IsIndexed :
      (c c' : Collection) (elem : Bytes) (i : ℕ)
      → IsIndexed hash c
      → (f : Fits hash c elem) → IsSafe c f.key
      → put hash c elem ≡ some (c', at i)
      → IsIndexed hash c' × (AreUnremoved c.buckets → AreUnremoved c'.buckets)
  unfolding put
  put-IsIndexed c c' elem i inv f safe run = elim (Option-cases (grow hash c)) [
    | inl failed ↦ let bad = rw failed at run in cc
    | inr (none, grown) ↦ let bad = rw grown at run in cc
    | inr (some g, grown) ↦
        let (inv', same, un) = grow-IsIndexed hash c inv g grown in
        let (kept, un') =
          put-grown c c' g.buckets elem i (subst (IsIndexed hash) same inv') f
            (IsSafe-grown c g.buckets f.key un safe)
            (subst (λ x. insert hash x elem ≡ some (c', at i)) same (rw grown at run)) in
        (kept, λ none_removed. un' (un none_removed))
  ]

  -- The collections that are made from a new one by calls of put.
  pub data Filled : Collection → Type 0 where
    made : (s : Schema) (c : Collection) → new s ≡ some c → Filled c
    filled :
        (c c' : Collection) (elem : Bytes) (i : ℕ)
        → Filled c
        → Fits hash c elem
        → put hash c elem ≡ some (c', at i)
        → Filled c'

  IsIndexed-none : (c : Collection) → c.buckets ≡ [] → c.storage.count ≡ 0 → IsIndexed hash c
  IsIndexed-none c no_buckets none_there = record {
    valid = record { fits = rw none_there (omega arith) };
    table = inl no_buckets;
    indexed = λ i lt. absurd (omega (arith, lt, none_there));
    distinct = λ i j key lt lt_j e e_j. absurd (omega (arith, lt, none_there));
    below = rw no_buckets tt;
    unique = λ p q b b' at_p at_q used used' same. let bad = rw no_buckets at at_p in cc;
  }

  pub new-IsIndexed : (s : Schema) (c : Collection) → new s ≡ some c → IsIndexed hash c
  new-IsIndexed s c e =
      let (no_buckets, none_there, _) = new_lem s c e in IsIndexed-none c no_buckets none_there

  pub Filled-IsIndexed : (c : Collection) → Filled c → IsIndexed hash c × AreUnremoved c.buckets
  Filled-IsIndexed _ (made s c e) = (new-IsIndexed s c e, rw (new_lem s c e).0 tt)
  Filled-IsIndexed _ (filled c c' elem i before fits run) =
      let (inv, none_removed) = Filled-IsIndexed c before in
      let (inv', un) = put-IsIndexed c c' elem i inv fits (inl none_removed) run in
      (inv', un none_removed)

  -- In every collection that is made from a new one by calls of put, for documents of the collection's
  -- size whose keys' hashes are not reserved, find is a search of the documents: it ends, it gives the
  -- index of a document that has the key, and it gives null only where no document has it.
  pub find-Filled :
      (c : Collection) (key : Bytes) (h : ℕ)
      → Filled c
      → hash_key hash c.key_kind key ≡ some h
      → (found : Found) × (find hash c key ≡ some found) × Answers c key found
  find-Filled c key h reached hashed =
      let (inv, none_removed) = Filled-IsIndexed c reached in
      find-Answers hash c key h inv (inl none_removed) hashed
