-- ===== src/Db/Collection/Keeps.antt =====
-- The second part of put keeps the documents of a collection indexed.
use boutique.Common.{
  ℕ, ◌<◌, ◌≡◌, ◌≢◌, refl, sym, ◌∙◌, true, inl, inr, Option, some, List, arith, Bytes, length,
  get_elem?, ◌==◌, ==_iff, Bool-cases, set, length-set,
}
use boutique.Db.Storage.{Storage}
use boutique.Db.Collection.{
  KeyKind, KeyValue, Collection, at, tombstone_key_hash, doc_key, first_index, is_free, hash_key,
  put_internal, key_buffer,
}
use boutique.Db.Collection.Insert.{PointBelow-at}
use boutique.Db.Collection.Walk.{put_loop-Reaches}
use boutique.Db.Storage.Reads.{Stores}
use boutique.Db.Collection.Lookup.{Placed, fresh, there, get_elem?-set_length}
use boutique.Db.Collection.Index.{
  Indexed, IsIndexed, IsSafe, AreUnremoved, AreUnremoved-at, holds_key-key, Indexed-Holds,
}
use boutique.Db.Collection.Fill.{
  put_loop-there, PointBelow-mono, PointBelow-set, AreUnremoved-set, IsUnique-set, IsTable-set,
  used-bucket, Indexed-set,
}

-- the keys of documents stay different when one is added whose key is new
distinct-new :
    (n m : ℕ) (f f' : ℕ → Option Bytes) (key : Bytes)
    → ((j : ℕ) → j < m → j ≢ n → j < n)
    → ((j : ℕ) → j < m → j ≢ n → f' j ≡ f j)
    → f' n ≡ some key
    → ((j : ℕ) → j < n → f j ≢ some key)
    → ((i j : ℕ) (k : Bytes) → i < n → j < n → f i ≡ some k → f j ≡ some k → i ≡ j)
    → (i j : ℕ) (k : Bytes) → i < m
    → j < m
    → f' i ≡ some k
    → f' j ≡ some k
    → i ≡ j
distinct-new n m f f' key only old this new apart i j k lt_i lt_j ei ej =
    elim (Bool-cases (i == n)) [
      | inl at_i ↦ elim (Bool-cases (j == n)) [
        | inl at_j ↦ (==_iff i n).0 at_i ∙ sym ((==_iff j n).0 at_j)
        | inr other ↦
            let ne : j ≢ n = ground arith in
            let e = (==_iff i n).0 at_i in
            let e' = rw e at ei in
            absurd (new j (only j lt_j ne) (sym (old j lt_j ne) ∙ (ej ∙ (sym e' ∙ this))))
      ]
      | inr other ↦
          let ne : i ≢ n = ground arith in
          elim (Bool-cases (j == n)) [
            | inl at_j ↦
                let e = (==_iff j n).0 at_j in
                let e' = rw e at ej in
                absurd (new i (only i lt_i ne) (sym (old i lt_i ne) ∙ (ei ∙ (sym e' ∙ this))))
            | inr other' ↦
                let ne' : j ≢ n = ground arith in
                apart i j k (only i lt_i ne) (only j lt_j ne') (sym (old i lt_i ne) ∙ ei)
                  (sym (old j lt_j ne') ∙ ej)
          ]
    ]

module _ (hash : KeyKind → Bytes → ℕ) (c : Collection) (key elem : Bytes) (h : ℕ)
    (inv : IsIndexed hash c) (with_key : key_buffer c.key_kind c.key_offset elem ≡ some key)
    (hashed : hash_key hash c.key_kind key ≡ some h) (nonzero : h ≢ 0)
    (unremoved : h ≢ tombstone_key_hash) (safe : IsSafe c key) where
  abbrev pub filled : Storage → List KeyValue → Collection
  filled s' dest' = record c { storage = s'; buckets = dest' }

  doc_key-other :
      (s' : Storage) (dest' : List KeyValue) (i j : ℕ)
      → Stores c.storage s' i elem
      → j < c.storage.count
      → j ≢ i
      → doc_key (filled s' dest') j ≡ doc_key c j
  unfolding doc_key
  doc_key-other s' dest' i j stores lt ne = rw (stores.others j lt ne)

  doc_key-this :
      (s' : Storage) (dest' : List KeyValue) (i : ℕ)
      → Stores c.storage s' i elem
      → doc_key (filled s' dest') i ≡ some key
  unfolding doc_key
  doc_key-this s' dest' i stores = rw stores.this with_key

  -- a free bucket is given only to a key that no document has
  absent :
      (dest' : List KeyValue) (p j : ℕ) (b : KeyValue)
      → put_internal c c.buckets key h ≡ some (dest', at p)
      → get_elem? c.buckets p ≡ some b
      → is_free b ≡ true
      → j < c.storage.count
      → doc_key c j ≢ some key
  unfolding put_internal
  absent dest' p j b run here free lt e = elim safe [
    | inr new ↦ new j lt e
    | inl none_removed ↦
        let doc = inv.indexed j lt in
        let (same_hash, place) = Indexed-Holds hash c key h j doc e hashed in
        let n = length c.buckets in
        let start = first_index h n in
        let used =
          AreUnremoved-at c.buckets doc.place place.bucket none_removed place.here place.nonzero in
        let (b', here', used') =
          put_loop-there n c c.buckets key h start start p doc.place dest' place.bucket run
            none_removed (rw (← same_hash) at doc.reached) place.here used place.held in
        let same : b ≡ b' = cc in cc
  ]

  Indexed-new :
      (s' : Storage) (p i : ℕ) (b : KeyValue)
      → put_internal c c.buckets key h
        ≡ some (set c.buckets p (record { key_hash = h; value_index = i }), at p)
      → get_elem? c.buckets p ≡ some b
      → Stores c.storage s' i elem
      → let dest' = set c.buckets p (record { key_hash = h; value_index = i }) in
        Indexed hash (filled s' dest') dest' i
  unfolding put_internal
  Indexed-new s' p i b run here stores =
      let new : KeyValue = record { key_hash = h; value_index = i } in
      let n = length c.buckets in
      let start = first_index h n in
      record {
        key = key;
        has_key = doc_key-this s' _ i stores;
        key_hash = h;
        hashed = hashed;
        nonzero = ground arith;
        used = used-bucket h i nonzero unremoved;
        place = p;
        here = get_elem?-set_length c.buckets p new b here;
        reached =
            rw (length-set c.buckets p new)
              (put_loop-Reaches n c c.buckets key h start start p (set c.buckets p new) run);
      }

  IsIndexed-fresh :
      (s' : Storage) (p : ℕ) (b : KeyValue)
      → put_internal c c.buckets key h
        ≡ some (set c.buckets p (record { key_hash = h; value_index = c.storage.count }), at p)
      → get_elem? c.buckets p ≡ some b
      → is_free b ≡ true
      → Stores c.storage s' c.storage.count elem
      → IsIndexed hash
          (filled s' (set c.buckets p (record { key_hash = h; value_index = c.storage.count })))
  IsIndexed-fresh s' p b run here free stores =
      let n = c.storage.count in
      let new : KeyValue = record { key_hash = h; value_index = n } in
      let dest' = set c.buckets p new in
      let c' = filled s' dest' in
      let old : (j : ℕ) → j < s'.count → j ≢ n → doc_key c' j ≡ doc_key c j =
        λ j lt ne. doc_key-other s' dest' n j stores (stores.only j lt ne) ne in
      record {
        valid = stores.valid;
        table = IsTable-set c.buckets p new inv.table;
        indexed = λ j lt. elim (Bool-cases (j == n)) [
          | inl same ↦ rw ((==_iff j n).0 same) (Indexed-new s' p n b run here stores)
          | inr other ↦
              let ne : j ≢ n = ground arith in
              Indexed-set hash c c' c.buckets p j b new refl here free (ground arith) (old j lt ne)
                (inv.indexed j (stores.only j lt ne))
        ];
        distinct =
            distinct-new n s'.count (doc_key c) (doc_key c') key stores.only old
              (doc_key-this s' dest' n stores) (λ j. absent dest' p j b run here free) inv.distinct;
        below =
            PointBelow-set s'.count p c.buckets new stores.in_range
              (PointBelow-mono n s'.count c.buckets stores.grows inv.below);
        unique = IsUnique-set n p c.buckets new inv.below (omega arith) inv.unique;
      }

  -- the key of the document that is written over is that of the new one
  doc_key-all :
      (s' : Storage) (i j : ℕ)
      → Stores c.storage s' i elem
      → doc_key c i ≡ some key
      → j < c.storage.count
      → doc_key (filled s' c.buckets) j ≡ doc_key c j
  doc_key-all s' i j stores e lt = elim (Bool-cases (j == i)) [
    | inl same ↦ let ej = (==_iff j i).0 same in rw ej (doc_key-this s' c.buckets i stores ∙ sym e)
    | inr other ↦ doc_key-other s' c.buckets i j stores lt (ground arith)
  ]

  stays :
      (s' : Storage) (i j : ℕ)
      → Stores c.storage s' i elem
      → i < c.storage.count
      → j < s'.count
      → j < c.storage.count
  stays s' i j stores lt below = elim (Bool-cases (j == i)) [
    | inl same ↦ let e = (==_iff j i).0 same in rw e lt
    | inr other ↦ stores.only j below (ground arith)
  ]

  IsIndexed-there :
      (s' : Storage) (i : ℕ)
      → Stores c.storage s' i elem
      → i < c.storage.count
      → doc_key c i ≡ some key
      → IsIndexed hash (filled s' c.buckets)
  IsIndexed-there s' i stores lt e = record {
    valid = stores.valid;
    table = inv.table;
    indexed = λ j below.
        let old = stays s' i j stores lt below in
        let doc = inv.indexed j old in
        record {
          key = doc.key;
          has_key = doc_key-all s' i j stores e old ∙ doc.has_key;
          key_hash = doc.key_hash;
          hashed = doc.hashed;
          nonzero = doc.nonzero;
          used = doc.used;
          place = doc.place;
          here = doc.here;
          reached = doc.reached;
        };
    distinct = λ a b k lt_a lt_b ea eb.
        let old_a = stays s' i a stores lt lt_a in
        let old_b = stays s' i b stores lt lt_b in
        inv.distinct a b k old_a old_b (sym (doc_key-all s' i a stores e old_a) ∙ ea)
          (sym (doc_key-all s' i b stores e old_b) ∙ eb);
    below = PointBelow-mono c.storage.count s'.count c.buckets stores.grows inv.below;
    unique = inv.unique;
  }

  pub AreUnremoved-Placed :
      (p : ℕ) (dest' : List KeyValue)
      → Placed c c.buckets key h p dest'
      → AreUnremoved c.buckets
      → AreUnremoved dest'
  AreUnremoved-Placed p _ (fresh b here free) un =
      AreUnremoved-set p c.buckets (record { key_hash = h; value_index = c.storage.count })
        (used-bucket h c.storage.count nonzero unremoved) un
  AreUnremoved-Placed p _ (there b here used held) un = un

  pub IsIndexed-Placed :
      (p : ℕ) (dest' : List KeyValue) (s' : Storage)
      → put_internal c c.buckets key h ≡ some (dest', at p)
      → Placed c c.buckets key h p dest'
      → (i : ℕ) × (b : KeyValue) × (get_elem? dest' p ≡ some b)
        × (b.value_index ≡ i)
        × (Stores c.storage s' i elem → IsIndexed hash (filled s' dest'))
  IsIndexed-Placed p dest' s' run (fresh b here free) = (
    c.storage.count,
    _,
    get_elem?-set_length c.buckets p _ b here,
    refl,
    IsIndexed-fresh s' p b run here free,
  )
  IsIndexed-Placed p dest' s' run (there b here used held) = (
    b.value_index,
    b,
    here,
    refl,
    λ stores.
        IsIndexed-there s' b.value_index stores
          (PointBelow-at c.storage.count c.buckets p b inv.below here used)
          (holds_key-key c key h b held),
  )
