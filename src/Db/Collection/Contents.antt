-- ===== src/Db/Collection/Contents.antt =====
-- A collection as a finite map from keys to documents.
use boutique.Common.{
  ℕ, ◌<◌, ◌≡◌, ◌≢◌, sym, ap, ◌∙◌, inl, inr, Option, none, some, arith, Bytes, ◌==◌, ==_iff,
  if◌then◌else◌, Bool-cases, bytes_eq, bytes_eq_iff,
}
use boutique.Core.Serialize.{bind_option}
use boutique.Db.Storage
use boutique.Db.Collection.{
  KeyKind, Collection, Found, null, at, doc_key, hash_key, key_buffer, find,
}
use boutique.Db.Collection.Index.{IsIndexed, IsClear}
use boutique.Db.Collection.Search.{Answers, find-Answers}
use boutique.Db.Collection.Renamed.{moved_from, moved_from_ne, moved_from_lt, moved_to_place}
use boutique.Db.Collection.Writes.{Writes}
use boutique.Db.Collection.Removal.{Removed}

-- What the collection holds under a key.
abbrev pub Has : Collection → Bytes → Option Bytes → Type 0
Has c key none = (i : ℕ) → i < c.storage.count → doc_key c i ≢ some key
Has c key (some doc) =
    (i : ℕ) × (i < c.storage.count) × (doc_key c i ≡ some key) × (Storage.doc c.storage i ≡ doc)

-- The contents after put and after remove.
abbrev pub with_doc : (Bytes → Option Bytes) → Bytes → Bytes → Bytes → Option Bytes
with_doc m key doc q = if bytes_eq key q then some doc else m q

abbrev pub without_doc : (Bytes → Option Bytes) → Bytes → Bytes → Option Bytes
without_doc m key q = if bytes_eq key q then none else m q

-- the document behind the pointer that find returns
unfoldable pub find_doc : (KeyKind → Bytes → ℕ) → Collection → Bytes → Option (Option Bytes)
find_doc hash c key =
    bind_option (find hash c key)
      λ found. elim found [ null ↦ some none | at i ↦ some (some (Storage.doc c.storage i)) ]

module _ (c c' : Collection) (key elem : Bytes) (i : ℕ) (w : Writes c c' key elem i)
    (with_key : key_buffer c.key_kind c.key_offset elem ≡ some key) where
  Writes-key : doc_key c' i ≡ some key
  unfolding doc_key
  Writes-key = rw (w.kind, w.offset, w.stores.this) with_key

  Writes-other : (j : ℕ) → j < c.storage.count → j ≢ i → doc_key c' j ≡ doc_key c j
  unfolding doc_key
  Writes-other j lt ne = rw (w.kind, w.offset, w.stores.others j lt ne)

  Writes-Has_other : (q : Bytes) (o : Option Bytes) → key ≢ q → Has c q o → Has c' q o
  Writes-Has_other q none ne none_has = λ j lt e. elim (Bool-cases (j == i)) [
    | inl same ↦
        let e_j = (==_iff j i).0 same in
        let e' = sym Writes-key ∙ (ap (doc_key c') (sym e_j) ∙ e) in
        let same_key : key ≡ q = cc in ne same_key
    | inr other ↦
        let ne_j : j ≢ i = ground arith in
        let old = w.stores.only j lt ne_j in none_has j old (sym (Writes-other j old ne_j) ∙ e)
  ]
  Writes-Has_other q (some doc) ne (j, lt, has_key, at_j) =
      let ne_j : j ≢ i = λ e. elim w.place [
        | inl new ↦ omega (arith, new, e, lt)
        | inr has ↦
            let e' = sym has ∙ (ap (doc_key c) (sym e) ∙ has_key) in
            let same_key : key ≡ q = cc in ne same_key
      ] in
      (
        j,
        omega (arith, lt, w.stores.grows),
        Writes-other j lt ne_j ∙ has_key,
        w.stores.others j lt ne_j ∙ at_j,
      )

  pub Writes-Has :
      (m : Bytes → Option Bytes)
      → ((q : Bytes) → Has c q (m q))
      → (q : Bytes) → Has c' q (with_doc m key elem q)
  Writes-Has m has q = elim (Bool-cases (bytes_eq key q)) [
    | inl same ↦
        rw same
          (i, w.stores.in_range, Writes-key ∙ ap some ((bytes_eq_iff key q).0 same), w.stores.this)
    | inr other ↦
        let ne : key ≢ q = λ e. let both = (bytes_eq_iff key q).1 e in cc (both, other) in
        rw other (Writes-Has_other q (m q) ne (has q))
  ]

module _ (hash : KeyKind → Bytes → ℕ) (c c' : Collection) (key : Bytes) (r : Removed c c' key)
    (inv : IsIndexed hash c) where
  abbrev from : ℕ → ℕ
  from = moved_from r.i c'.storage.count

  Removed-key : (j : ℕ) → j < c'.storage.count → doc_key c' j ≡ doc_key c (from j)
  unfolding doc_key
  Removed-key j lt = rw (r.kind, r.offset, r.removes.kept j lt)

  from_lt : (j : ℕ) → j < c'.storage.count → from j < c.storage.count
  from_lt j lt = moved_from_lt r.i c'.storage.count j c.storage.count (sym r.removes.fewer) lt

  Removed-Has_this : Has c' key none
  Removed-Has_this j lt e = moved_from_ne r.i c'.storage.count j lt (
      inv.distinct (from j) r.i key (from_lt j lt) r.in_range (sym (Removed-key j lt) ∙ e)
        r.has_key)

  Removed-Has_other : (q : Bytes) (o : Option Bytes) → key ≢ q → Has c q o → Has c' q o
  Removed-Has_other q none ne none_has =
      λ j lt e. none_has (from j) (from_lt j lt) (sym (Removed-key j lt) ∙ e)
  Removed-Has_other q (some doc) ne (j, lt, has_key, at_j) =
      let other : j ≢ r.i = λ e.
        let e' = sym r.has_key ∙ (ap (doc_key c) (sym e) ∙ has_key) in
        let same_key : key ≡ q = cc in ne same_key in
      let (k, lt_k, back) =
        moved_to_place r.i c'.storage.count j other (omega (arith, lt, r.removes.fewer))
          (omega (arith, r.in_range, r.removes.fewer)) in
      (
        k,
        lt_k,
        Removed-key k lt_k ∙ (ap (doc_key c) back ∙ has_key),
        r.removes.kept k lt_k ∙ (ap (Storage.doc c.storage) back ∙ at_j),
      )

  pub Removed-Has :
      (m : Bytes → Option Bytes)
      → ((q : Bytes) → Has c q (m q))
      → (q : Bytes) → Has c' q (without_doc m key q)
  Removed-Has m has q = elim (Bool-cases (bytes_eq key q)) [
    | inl same ↦ let e = (bytes_eq_iff key q).0 same in rw same (rw (← e) Removed-Has_this)
    | inr other ↦
        let ne : key ≢ q = λ e. let both = (bytes_eq_iff key q).1 e in cc (both, other) in
        rw other (Removed-Has_other q (m q) ne (has q))
  ]

module _ (hash : KeyKind → Bytes → ℕ) where
  Answers-Has :
      (c : Collection) (key : Bytes) (found : Found) (o : Option Bytes)
      → IsIndexed hash c
      → find hash c key ≡ some found
      → Answers c key found
      → Has c key o
      → find_doc hash c key ≡ some o
  unfolding find_doc
  Answers-Has c key null none inv run answers has = rw run
  Answers-Has c key (at i) none inv run (lt, has_key) has = absurd (has i lt has_key)
  Answers-Has c key null (some doc) inv run answers (i, lt, has_key, at_i) =
      absurd (answers i lt has_key)
  Answers-Has c key (at i) (some doc) inv run (lt, has_key) (j, lt_j, has_key_j, at_j) =
      let same = inv.distinct i j key lt lt_j has_key has_key_j in rw (run, same, at_j)

  -- find gives what the collection holds
  pub find_doc-Has :
      (c : Collection) (key : Bytes) (h : ℕ) (o : Option Bytes)
      → IsIndexed hash c
      → IsClear c.buckets h
      → hash_key hash c.key_kind key ≡ some h
      → Has c key o
      → find_doc hash c key ≡ some o
  find_doc-Has c key h o inv clear hashed has =
      let (found, run, answers) = find-Answers hash c key h inv clear hashed in
      Answers-Has c key found o inv run answers has
