-- ===== src/Db/Collection/Insert.antt =====
-- The document that the second part of put stores is the one that find finds.
use boutique.Common.{
  ℕ, zero, suc, ◌<◌, ◌≡◌, ◌≢◌, refl, sym, subst, ◌∙◌, true, false, inl, inr, ◌⊎◌, some, List, [],
  ◌∷◌, arith, Bytes, length, get_elem?, ◌==◌, ==_iff, ==_refl, Bool-cases, Option-cases,
  bytes_eq_refl,
}
use boutique.Db.Storage
use boutique.Db.Storage.{Storage}
use boutique.Db.Storage.Laws
use boutique.Db.Storage.Reads.{Stores, put-Stores, set_doc-Stores}
use boutique.Db.Collection.{
  KeyKind, KeyValue, Collection, null, at, doc_key, key_buffer, holds_key, first_index, is_free,
  put_internal, find_loop, find_internal, hash_key, find, insert, store,
}
use boutique.Db.Collection.Lookup.{
  Placed, fresh, there, put_loop-Placed, Placed-length, find_loop-put_loop, get_elem?-set_length,
}

-- Every bucket in use points to one of `count` documents.
abbrev pub PointBelow : ℕ → List KeyValue → Type 0
PointBelow count [] = Unit
PointBelow count (b ∷ bs) = ((is_free b ≡ true) ⊎ (b.value_index < count)) × PointBelow count bs

pub PointBelow-at :
    (count : ℕ) (bs : List KeyValue) (i : ℕ) (b : KeyValue)
    → PointBelow count bs
    → get_elem? bs i ≡ some b
    → is_free b ≡ false
    → b.value_index < count
PointBelow-at count [] i b h e used = cc
PointBelow-at count (x ∷ bs) zero b (inl free, h) e used = let same : x ≡ b = cc in cc
PointBelow-at count (x ∷ bs) zero b (inr lt, h) e used = let same : x ≡ b = cc in rw same at lt
PointBelow-at count (x ∷ bs) (suc i) b h e used = PointBelow-at count bs i b h.1 e used

holds_key-congr :
    (c c' : Collection) (key : Bytes) (h : ℕ) (b : KeyValue)
    → (b.key_hash ≡ h → doc_key c' b.value_index ≡ doc_key c b.value_index)
    → holds_key c' key h b ≡ holds_key c key h b
unfolding holds_key
holds_key-congr c c' key h b same = elim (Bool-cases (b.key_hash == h)) [
  | inl equal ↦ rw (equal, same ((==_iff b.key_hash h).0 equal))
  | inr other ↦ rw other
]

holds_key-true :
    (c : Collection) (key : Bytes) (h : ℕ) (b : KeyValue)
    → b.key_hash ≡ h
    → doc_key c b.value_index ≡ some key
    → holds_key c key h b ≡ some true
unfolding holds_key
holds_key-true c key h b e stored = rw (e, ==_refl h, stored, bytes_eq_refl key)

pub holds_key-hash :
    (c : Collection) (key : Bytes) (h : ℕ) (b : KeyValue)
    → holds_key c key h b ≡ some true
    → b.key_hash ≡ h
unfolding holds_key
holds_key-hash c key h b held = elim (Bool-cases (b.key_hash == h)) [
  | inl equal ↦ (==_iff b.key_hash h).0 equal
  | inr other ↦ let bad = rw other at held in cc
]

some_bucket :
    (bs : List KeyValue) (i : ℕ) (b : KeyValue) → get_elem? bs i ≡ some b → (length bs == 0) ≡ false
some_bucket [] i b e = cc
some_bucket (x ∷ bs) i b e = ground arith

-- After `elem`, with this key, was stored as document b'.value_index, where the bucket b' is the
-- key's, the walk of find comes to it.
find_internal-Stores :
    (c : Collection) (s' : Storage) (dest' : List KeyValue) (key elem : Bytes) (h p : ℕ)
    (b' : KeyValue)
    → put_internal c c.buckets key h ≡ some (dest', at p)
    → get_elem? dest' p ≡ some b'
    → b'.key_hash ≡ h
    → h ≢ 0
    → Stores c.storage s' b'.value_index elem
    → key_buffer c.key_kind c.key_offset elem ≡ some key
    → PointBelow c.storage.count c.buckets
    → ((b : KeyValue)
        → is_free b ≡ false
        → b.value_index < c.storage.count
        → b.key_hash ≡ h
        → holds_key c key h b ≡ some false
        → b.value_index ≢ b'.value_index)
    → find_internal (record c { storage = s'; buckets = dest' }) key h ≡ some (at p)
unfolding put_internal find_internal doc_key
find_internal-Stores c s' dest' key elem h p b' run now hashed nonzero stores with_key below apart =
    let c' : Collection = record c { storage = s'; buckets = dest' } in
    let n = length c.buckets in
    let start = first_index h n in
    let len =
      Placed-length c c.buckets dest' key h p
        (put_loop-Placed n c c.buckets key h start start p dest' run) in
    let held' : holds_key c' key h b' ≡ some true =
      holds_key-true c' key h b' hashed (rw stores.this with_key) in
    let found : find_loop n c' key h start start ≡ some (at p) =
      find_loop-put_loop n c c' c.buckets key h start start p b' run now (ground arith) held'
        (λ i b here used no.
          holds_key-congr c c' key h b (λ same.
            let lt = PointBelow-at c.storage.count c.buckets i b below here used in
            rw (stores.others b.value_index lt (apart b used lt same no)))
          ∙ no) in
    let some_there : (n == 0) ≡ false = rw len at (some_bucket dest' p b' now) in
    rw (len, some_there) found

pub put_internal-Placed :
    (c : Collection) (bs : List KeyValue) (key : Bytes) (h p : ℕ) (dest' : List KeyValue)
    → put_internal c bs key h ≡ some (dest', at p)
    → Placed c bs key h p dest'
unfolding put_internal
put_internal-Placed c bs key h p dest' run =
    let n = length bs in
    let start = first_index h n in put_loop-Placed n c bs key h start start p dest' run

-- What `store` and then find do at the bucket that put_internal gives.
pub record Finds (hash : KeyKind → Bytes → ℕ) (c : Collection) (dest' : List KeyValue)
    (key elem : Bytes) (h p i : ℕ) : Type 0 where
  pub after : Storage
  pub stored :
      store hash (record c { buckets = dest' }) elem p
      ≡ some (record c { storage = after; buckets = dest' }, at i)
  pub kept : Stores c.storage after i elem
  pub index : KeyValue
  pub now : get_elem? dest' p ≡ some index
  pub points : index.value_index ≡ i
  pub finds : find_internal (record c { storage = after; buckets = dest' }) key h ≡ some (at p)

module _ (hash : KeyKind → Bytes → ℕ) (c : Collection) (key elem : Bytes) (h p : ℕ)
    (valid : Storage.Laws.IsValid c.storage) (whole : length elem ≡ c.storage.doc_size)
    (with_key : key_buffer c.key_kind c.key_offset elem ≡ some key)
    (below : PointBelow c.storage.count c.buckets) (nonzero : h ≢ 0) where
  pub Finds-Placed :
      (dest' : List KeyValue)
      → put_internal c c.buckets key h ≡ some (dest', at p)
      → Placed c c.buckets key h p dest'
      → (i : ℕ) × Finds hash c dest' key elem h p i
  unfolding store
  Finds-Placed dest' run (fresh b here free) =
      let new : KeyValue = record { key_hash = h; value_index = c.storage.count } in
      let now = get_elem?-set_length c.buckets p new b here in
      let (s', put_run, stores) = put-Stores c.storage elem valid whole in
      (
        c.storage.count,
        record {
          after = s';
          stored = rw (now, ==_refl c.storage.count, put_run);
          kept = stores;
          index = new;
          now = now;
          points = refl;
          finds =
              find_internal-Stores c s' _ key elem h p new run now refl nonzero stores with_key
                below λ b₁ used lt same no e. omega (arith, lt, e);
        },
      )
  Finds-Placed dest' run (there b here used held) =
      let lt = PointBelow-at c.storage.count c.buckets p b below here used in
      let (s', set_run, stores) = set_doc-Stores c.storage b.value_index elem valid lt whole in
      let not_new : (b.value_index == c.storage.count) ≡ false = ground arith in
      (
        b.value_index,
        record {
          after = s';
          stored = rw (here, not_new, set_run);
          kept = stores;
          index = b;
          now = here;
          points = refl;
          finds =
              find_internal-Stores c s' _ key elem h p b run here (holds_key-hash c key h b held)
                nonzero stores with_key below
                λ b₁ used₁ lt₁ same no e.
                  let eb : b₁ ≡ b = λ x. record {
                    key_hash = (same ∙ sym (holds_key-hash c key h b held)) x;
                    value_index = e x;
                  } in
                  let bad = rw eb at no in cc;
        },
      )

-- the same, from what `insert` returns
find-Finds :
    (hash : KeyKind → Bytes → ℕ) (c c' : Collection) (dest' : List KeyValue) (key elem : Bytes)
    (h p i j : ℕ)
    → hash_key hash c.key_kind key ≡ some h
    → Finds hash c dest' key elem h p j
    → store hash (record c { buckets = dest' }) elem p ≡ some (c', at i)
    → (find hash c' key ≡ some (at i)) × Stores c.storage c'.storage i elem
unfolding find
find-Finds hash c c' dest' key elem h p i j hashed f run =
    let both = sym f.stored ∙ run in
    let same : record c { storage = f.after; buckets = dest' } ≡ c' = cc in
    let here : j ≡ i = cc in
    let found : find hash (record c { storage = f.after; buckets = dest' }) key ≡ some (at j) =
      rw (hashed, f.finds, f.now, f.points) in
    subst (λ x. (find hash x key ≡ some (at i)) × Stores c.storage x.storage i elem) same
      (subst
        (λ x.
          (find hash (record c { storage = f.after; buckets = dest' }) key ≡ some (at x))
          × Stores c.storage f.after x elem)
        here (found, f.kept))

-- A document of the collection's size, whose key does not hash to 0, is stored by the second part of
-- put at an index where find finds it, as it was given, and the other documents stay as they were.
-- The buckets in use point to documents.
pub find-insert :
    (hash : KeyKind → Bytes → ℕ) (c c' : Collection) (key elem : Bytes) (h i : ℕ)
    → Storage.Laws.IsValid c.storage
    → PointBelow c.storage.count c.buckets
    → length elem ≡ c.storage.doc_size
    → key_buffer c.key_kind c.key_offset elem ≡ some key
    → hash_key hash c.key_kind key ≡ some h
    → h ≢ 0
    → insert hash c elem ≡ some (c', at i)
    → (find hash c' key ≡ some (at i)) × Stores c.storage c'.storage i elem
unfolding insert
find-insert hash c c' key elem h i valid below whole with_key hashed nonzero run =
    elim (Option-cases (put_internal c c.buckets key h)) [
      | inl failed ↦ let bad = rw (with_key, hashed, failed) at run in cc
      | inr ((dest', null), placed) ↦ let bad = rw (with_key, hashed, placed) at run in cc
      | inr ((dest', at p), placed) ↦
          let (j, f) =
            Finds-Placed hash c key elem h p valid whole with_key below nonzero dest' placed
              (put_internal-Placed c c.buckets key h p dest' placed) in
          find-Finds hash c c' dest' key elem h p i j hashed f
            (rw (with_key, hashed, placed) at run)
    ]
