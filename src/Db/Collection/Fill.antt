-- ===== src/Db/Collection/Fill.antt =====
-- Filling a bucket keeps what the index says of the other buckets.
use boutique.Common.{
  ℕ, zero, suc, sym, ==_iff, ◌≤◌, ◌<◌, ◌≡◌, ◌≢◌, refl, ap, ◌∙◌, true, false, inl, inr, some, List,
  [], ◌∷◌, arith, Bytes, length, get_elem?, ◌==◌, Bool-cases, Option-cases, set, get_elem?-set_ne,
  length-set,
}
use boutique.Db.Collection.{
  KeyKind, KeyValue, Collection, at, tombstone_key_hash, doc_key, holds_key, first_index, is_free,
  put_loop, next_index,
}
use boutique.Db.Collection.Reserved.{IsTable}
use boutique.Db.Collection.Insert.{PointBelow, PointBelow-at}
use boutique.Db.Collection.Walk.{Reaches, Reaches-set}
use boutique.Db.Collection.Index.{Indexed, AreUnremoved, AreUnremoved-at, IsUnique}

free_first :
    (dest : List KeyValue) (idx r left : ℕ) (b br : KeyValue)
    → AreUnremoved dest
    → Reaches dest (suc left) idx r
    → get_elem? dest r ≡ some br
    → is_free br ≡ false
    → get_elem? dest idx ≡ some b
    → is_free b ≡ true
    → ⊥
free_first dest idx r left b br un (inl same) at_r used here free = let e : b ≡ br = cc in cc
free_first dest idx r left b br un (inr (full, _)) at_r used here free =
    let e : full.bucket ≡ b = cc (full.here, here) in
    let used_here = AreUnremoved-at dest idx full.bucket un full.here full.nonzero in cc

goes_on :
    (c : Collection) (dest : List KeyValue) (key : Bytes) (h idx r left : ℕ) (b br : KeyValue)
    → Reaches dest (suc left) idx r
    → get_elem? dest r ≡ some br
    → holds_key c key h br ≡ some true
    → get_elem? dest idx ≡ some b
    → holds_key c key h b ≡ some false
    → Reaches dest left (next_index idx (length dest)) r
goes_on c dest key h idx r left b br (inl same) at_r held here other = let e : b ≡ br = cc in cc
goes_on c dest key h idx r left b br (inr (_, rest)) at_r held here other = rest

-- Where the walk comes to a bucket that holds the key, put_loop gives one in use.
pub put_loop-there :
    (fuel : ℕ) (c : Collection) (dest : List KeyValue) (key : Bytes) (h orig idx p r : ℕ)
    (dest' : List KeyValue) (br : KeyValue)
    → put_loop fuel c dest key h orig idx ≡ some (dest', at p)
    → AreUnremoved dest
    → Reaches dest fuel idx r
    → get_elem? dest r ≡ some br
    → is_free br ≡ false
    → holds_key c key h br ≡ some true
    → (b : KeyValue) × (get_elem? dest p ≡ some b) × (is_free b ≡ false)
unfolding put_loop
put_loop-there zero c dest key h orig idx p r dest' br e un reaches at_r used held = absurd reaches
put_loop-there (suc fuel) c dest key h orig idx p r dest' br e un reaches at_r used held =
    elim (Option-cases (get_elem? dest idx)) [
      | inl nowhere ↦ let bad = rw nowhere at e in cc
      | inr (b, here) ↦ elim (Bool-cases (is_free b)) [
        | inl free ↦ absurd (free_first dest idx r fuel b br un reaches at_r used here free)
        | inr used' ↦ elim (Option-cases (holds_key c key h b)) [
          | inl failed ↦ let bad = rw (here, used', failed) at e in cc
          | inr (same, held') ↦ elim (Bool-cases same) [
            | inl equal ↦
                let e' = rw (here, used', held', equal) at e in
                let ep : idx ≡ p = cc in (b, rw (← ep) here, used')
            | inr other ↦ elim (Bool-cases (next_index idx (length dest) == orig)) [
              | inl back ↦ let bad = rw (here, used', held', other, back) at e in cc
              | inr on ↦
                  put_loop-there fuel c dest key h orig (next_index idx (length dest)) p r dest' br
                    (rw (here, used', held', other, on) at e) un
                    (goes_on c dest key h idx r fuel b br reaches at_r held here
                      (held' ∙ ap some other))
                    at_r used held
            ]
          ]
        ]
      ]
    ]

pub PointBelow-mono : (n m : ℕ) (bs : List KeyValue) → n ≤ m → PointBelow n bs → PointBelow m bs
PointBelow-mono n m [] le h = tt
PointBelow-mono n m (b ∷ bs) le (inl free, h) = (inl free, PointBelow-mono n m bs le h)
PointBelow-mono n m (b ∷ bs) le (inr lt, h) = (inr (omega arith), PointBelow-mono n m bs le h)

pub PointBelow-set :
    (n i : ℕ) (bs : List KeyValue) (v : KeyValue)
    → v.value_index < n
    → PointBelow n bs
    → PointBelow n (set bs i v)
PointBelow-set n i [] v lt h = tt
PointBelow-set n zero (b ∷ bs) v lt h = (inr lt, h.1)
PointBelow-set n (suc i) (b ∷ bs) v lt h = (h.0, PointBelow-set n i bs v lt h.1)

pub AreUnremoved-set :
    (i : ℕ) (bs : List KeyValue) (v : KeyValue)
    → is_free v ≡ false
    → AreUnremoved bs
    → AreUnremoved (set bs i v)
AreUnremoved-set i [] v used h = tt
AreUnremoved-set zero (b ∷ bs) v used h = (inl used, h.1)
AreUnremoved-set (suc i) (b ∷ bs) v used h = (h.0, AreUnremoved-set i bs v used h.1)

pub IsTable-set : (bs : List KeyValue) (i : ℕ) (v : KeyValue) → IsTable bs → IsTable (set bs i v)
IsTable-set bs i v (inl e) = inl (rw e refl)
IsTable-set bs i v (inr (k, len)) = inr (k, length-set bs i v ∙ len)

-- a bucket with a hash that is not reserved is in use
pub used-bucket :
    (h i : ℕ)
    → h ≢ 0
    → h ≢ tombstone_key_hash
    → is_free (record { key_hash = h; value_index = i }) ≡ false
unfolding is_free
used-bucket h i nonzero unremoved = ground arith

get_elem?-set_eq :
    (bs : List KeyValue) (i : ℕ) (v b : KeyValue) → get_elem? (set bs i v) i ≡ some b → b ≡ v
get_elem?-set_eq [] i v b e = cc
get_elem?-set_eq (x ∷ bs) zero v b e = cc
get_elem?-set_eq (x ∷ bs) (suc i) v b e = get_elem?-set_eq bs i v b e

IsUnique-new :
    (n i : ℕ) (bs : List KeyValue) (v : KeyValue)
    → PointBelow n bs
    → n ≤ v.value_index
    → (p q : ℕ) (b b' : KeyValue) → get_elem? (set bs i v) p ≡ some b
    → get_elem? (set bs i v) q ≡ some b'
    → is_free b' ≡ false
    → b.value_index ≡ b'.value_index
    → i ≡ p
    → i ≢ q
    → ⊥
IsUnique-new n i bs v below new p q b b' at_p at_q used' same here ne =
    let is_v : b ≡ v = get_elem?-set_eq bs i v b (rw (← here) at at_p) in
    let lt = PointBelow-at n bs q b' below (sym (get_elem?-set_ne bs i q v ne) ∙ at_q) used' in
    omega (arith, lt, new, same, ap (λ x. x.value_index) is_v)

-- a bucket that points to a document which is new
pub IsUnique-set :
    (n i : ℕ) (bs : List KeyValue) (v : KeyValue)
    → PointBelow n bs
    → n ≤ v.value_index
    → IsUnique bs
    → IsUnique (set bs i v)
IsUnique-set n i bs v below new unique p q b b' at_p at_q used used' same =
    elim (Bool-cases (i == p)) [
      | inl p_new ↦ elim (Bool-cases (i == q)) [
        | inl q_new ↦ sym ((==_iff i p).0 p_new) ∙ (==_iff i q).0 q_new
        | inr q_old ↦ absurd (
            IsUnique-new n i bs v below new p q b b' at_p at_q used' same ((==_iff i p).0 p_new)
              (ground arith))
      ]
      | inr p_old ↦ elim (Bool-cases (i == q)) [
        | inl q_new ↦ absurd (
            IsUnique-new n i bs v below new q p b' b at_q at_p used (sym same)
              ((==_iff i q).0 q_new) (ground arith))
        | inr q_old ↦
            let ne : i ≢ p = ground arith in
            let ne' : i ≢ q = ground arith in
            unique p q b b' (sym (get_elem?-set_ne bs i p v ne) ∙ at_p)
              (sym (get_elem?-set_ne bs i q v ne') ∙ at_q) used used' same
      ]
    ]

-- an indexed document, when a bucket is filled and the document stays as it is
pub Indexed-set :
    (hash : KeyKind → Bytes → ℕ) (c c' : Collection) (bs : List KeyValue) (p j : ℕ) (b v : KeyValue)
    → c'.key_kind ≡ c.key_kind
    → get_elem? bs p ≡ some b
    → is_free b ≡ true
    → (v.key_hash == 0) ≡ false
    → doc_key c' j ≡ doc_key c j
    → Indexed hash c bs j
    → Indexed hash c' (set bs p v) j
Indexed-set hash c c' bs p j b v kind here free nonzero same doc =
    let apart : p ≢ doc.place = λ e.
      let eb : b ≡ record { key_hash = doc.key_hash; value_index = j } = cc in
      cc (doc.used, free, eb) in
    record {
      key = doc.key;
      has_key = same ∙ doc.has_key;
      key_hash = doc.key_hash;
      hashed = rw kind doc.hashed;
      nonzero = doc.nonzero;
      used = doc.used;
      place = doc.place;
      here = get_elem?-set_ne bs p doc.place v apart ∙ doc.here;
      reached = rw (length-set bs p v) (
          Reaches-set bs p v (length bs) (first_index doc.key_hash (length bs)) doc.place nonzero
            doc.reached);
    }
