-- ===== src/Db/Collection/Index.antt =====
-- The index of a collection: each document is reached from the first bucket of its key, also where
-- buckets of removed documents stand before it.
use boutique.Common.{
  ℕ, zero, suc, ◌<◌, ◌≡◌, ap, ◌∙◌, Bool, true, false, inl, inr, ◌⊎◌, some, List, [], ◌∷◌, Bytes,
  length, get_elem?, ◌==◌, ◌≢◌, ==_iff, arith, ==_refl, Bool-cases, Option-cases, bytes_eq,
  bytes_eq_refl, bytes_eq_iff,
}
use boutique.Db.Storage
use boutique.Db.Storage.{Storage}
use boutique.Db.Storage.Laws
use boutique.Db.Collection.{
  tombstone_key_hash, KeyKind, KeyValue, Collection, doc_key, holds_key, first_index, is_free,
  hash_key,
}
use boutique.Db.Collection.Reserved.{IsTable}
use boutique.Db.Collection.Insert.{PointBelow, PointBelow-at}
use boutique.Db.Collection.Walk.{Reaches, Holds, Compares}

-- Document i is in the buckets, under its key's hash, and reached.
pub record Indexed (hash : KeyKind → Bytes → ℕ) (c : Collection) (bs : List KeyValue) (i : ℕ)
    : Type 0 where
  pub key : Bytes
  pub has_key : doc_key c i ≡ some key
  pub key_hash : ℕ
  pub hashed : hash_key hash c.key_kind key ≡ some key_hash
  pub nonzero : (key_hash == 0) ≡ false
  pub used : is_free (record { key_hash = key_hash; value_index = i }) ≡ false
  pub place : ℕ
  pub here : get_elem? bs place ≡ some (record { key_hash = key_hash; value_index = i })
  pub reached : Reaches bs (length bs) (first_index key_hash (length bs)) place

-- A free bucket is an empty one, and not that of a removed document.
abbrev pub AreUnremoved : List KeyValue → Type 0
AreUnremoved [] = Unit
AreUnremoved (b ∷ bs) = ((is_free b ≡ false) ⊎ ((b.key_hash == 0) ≡ true)) × AreUnremoved bs

-- No two buckets in use point to one document.
abbrev pub IsUnique : List KeyValue → Type 0
IsUnique bs =
    (p q : ℕ) (b b' : KeyValue)
    → get_elem? bs p ≡ some b
    → get_elem? bs q ≡ some b'
    → is_free b ≡ false
    → is_free b' ≡ false
    → b.value_index ≡ b'.value_index
    → p ≡ q

-- No bucket with the hash is that of a removed document.
abbrev pub IsClear : List KeyValue → ℕ → Type 0
IsClear bs h = AreUnremoved bs ⊎ (h ≢ tombstone_key_hash)

-- No document has the key, or nothing was removed.
abbrev pub IsSafe : Collection → Bytes → Type 0
IsSafe c key = AreUnremoved c.buckets ⊎ ((j : ℕ) → j < c.storage.count → doc_key c j ≢ some key)

-- Every document is reached under its key.
pub record IsIndexed (hash : KeyKind → Bytes → ℕ) (c : Collection) : Type 0 where
  pub valid : Storage.Laws.IsValid c.storage
  pub table : IsTable c.buckets
  pub indexed : (i : ℕ) → i < c.storage.count → Indexed hash c c.buckets i
  pub distinct :
      (i j : ℕ) (key : Bytes)
      → i < c.storage.count
      → j < c.storage.count
      → doc_key c i ≡ some key
      → doc_key c j ≡ some key
      → i ≡ j
  pub below : PointBelow c.storage.count c.buckets
  pub unique : IsUnique c.buckets

pub AreUnremoved-at :
    (bs : List KeyValue) (i : ℕ) (b : KeyValue)
    → AreUnremoved bs
    → get_elem? bs i ≡ some b
    → (b.key_hash == 0) ≡ false
    → is_free b ≡ false
AreUnremoved-at [] i b h e nonzero = cc
AreUnremoved-at (x ∷ bs) zero b (inl used, h) e nonzero = let same : x ≡ b = cc in cc
AreUnremoved-at (x ∷ bs) zero b (inr empty, h) e nonzero =
    let same : x ≡ b = cc in let bad = rw same at empty in cc
AreUnremoved-at (x ∷ bs) (suc i) b h e nonzero = AreUnremoved-at bs i b h.1 e nonzero

pub holds_key-defined :
    (c : Collection) (key : Bytes) (h : ℕ) (b : KeyValue) (k : Bytes)
    → doc_key c b.value_index ≡ some k
    → (same : Bool) × (holds_key c key h b ≡ some same)
unfolding holds_key
holds_key-defined c key h b k e = elim (Bool-cases (b.key_hash == h)) [
  | inl equal ↦ (bytes_eq k key, rw (equal, e))
  | inr other ↦ (false, rw other)
]

pub holds_key-key :
    (c : Collection) (key : Bytes) (h : ℕ) (b : KeyValue)
    → holds_key c key h b ≡ some true
    → doc_key c b.value_index ≡ some key
unfolding holds_key
holds_key-key c key h b held = elim (Bool-cases (b.key_hash == h)) [
  | inl equal ↦ elim (Option-cases (doc_key c b.value_index)) [
    | inl failed ↦ let bad = rw (equal, failed) at held in cc
    | inr (k, e) ↦
        let same = rw (equal, e) at held in
        let equal_keys : bytes_eq k key ≡ true = cc in
        e ∙ ap some ((bytes_eq_iff k key).0 equal_keys)
  ]
  | inr other ↦ let bad = rw other at held in cc
]

-- a bucket with the hash is in use
pub IsClear-used :
    (bs : List KeyValue) (h p : ℕ) (b : KeyValue)
    → IsClear bs h
    → get_elem? bs p ≡ some b
    → (b.key_hash == 0) ≡ false
    → b.key_hash ≡ h
    → is_free b ≡ false
unfolding is_free
IsClear-used bs h p b (inl un) here nonzero same = AreUnremoved-at bs p b un here nonzero
IsClear-used bs h p b (inr ne) here nonzero same = ground arith

module _ (hash : KeyKind → Bytes → ℕ) where
  pub IsIndexed-Compares :
      (c : Collection) (key : Bytes) (h : ℕ)
      → IsIndexed hash c
      → IsClear c.buckets h
      → Compares c c.buckets key h
  unfolding holds_key
  IsIndexed-Compares c key h inv clear i b here nonzero = elim (Bool-cases (b.key_hash == h)) [
    | inl equal ↦
        let used =
          IsClear-used c.buckets h i b clear here nonzero ((==_iff b.key_hash h).0 equal) in
        let lt = PointBelow-at c.storage.count c.buckets i b inv.below here used in
        let doc = inv.indexed b.value_index lt in holds_key-defined c key h b doc.key doc.has_key
    | inr other ↦ (false, rw other)
  ]

  pub Indexed-Holds :
      (c : Collection) (key : Bytes) (h i : ℕ)
      → (doc : Indexed hash c c.buckets i) → doc_key c i ≡ some key
      → hash_key hash c.key_kind key ≡ some h
      → (h ≡ doc.key_hash) × Holds c key h doc.place
  unfolding holds_key
  Indexed-Holds c key h i doc e hashed =
      let same : doc.key ≡ key = cc in
      let same_hash : h ≡ doc.key_hash = cc in
      (
        same_hash,
        record {
          bucket = record { key_hash = doc.key_hash; value_index = i };
          here = doc.here;
          nonzero = doc.nonzero;
          held = rw (same_hash, ==_refl doc.key_hash, e, bytes_eq_refl key);
        },
      )
