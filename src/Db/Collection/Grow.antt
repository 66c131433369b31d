-- ===== src/Db/Collection/Grow.antt =====
-- The loop of put that moves the documents to more buckets keeps the index of a collection.
use boutique.Common.{
  ℕ, zero, suc, ◌+◌, ◌*◌, ◌^◌, ◌<◌, ◌≡◌, refl, ap, subst, ◌∙◌, true, false, inl, inr, none, some,
  List, [], ◌∷◌, arith, Bytes, length, get_elem?, ◌==◌, leb, ==_iff, Bool-cases, Option-cases, set,
  length-set, replicate, length-replicate, if◌then◌else◌,
}
use boutique.Db.Collection.{
  KeyKind, KeyValue, Collection, null, at, doc_key, first_index, is_free, hash_key, put_internal,
  set_index, rehash, grow, load_limit, empty_bucket,
}
use boutique.Db.Collection.Reserved.{IsTable}
use boutique.Db.Collection.Insert.{PointBelow, PointBelow-at, put_internal-Placed}
use boutique.Db.Collection.Lookup.{Placed, fresh, there, get_elem?-set_length}
use boutique.Db.Collection.Walk.{Reaches, Reaches-set, put_loop-Reaches}
use boutique.Db.Collection.Index.{Indexed, IsIndexed, IsUnique, AreUnremoved, holds_key-key}
use boutique.Db.Collection.Fill.{
  PointBelow-mono, PointBelow-set, AreUnremoved-set, IsUnique-set, IsTable-set, Indexed-set,
}

set-set : (bs : List KeyValue) (p : ℕ) (v w : KeyValue) → set (set bs p v) p w ≡ set bs p w
set-set [] p v w = refl
set-set (b ∷ bs) zero v w = refl
set-set (b ∷ bs) (suc p) v w = ap (b ∷◌) (set-set bs p v w)

-- The new buckets when the first i documents are moved.
pub record Moved (hash : KeyKind → Bytes → ℕ) (c : Collection) (bs : List KeyValue) (i : ℕ)
    : Type 0 where
  pub table : IsTable bs
  pub indexed : (j : ℕ) → j < i → Indexed hash c bs j
  pub below : PointBelow i bs
  pub unremoved : AreUnremoved bs
  pub unique : IsUnique bs

module _ (hash : KeyKind → Bytes → ℕ) (c : Collection) (inv : IsIndexed hash c) where
  Moved-fresh :
      (bs : List KeyValue) (i p h : ℕ) (key : Bytes) (b : KeyValue)
      → i < c.storage.count
      → doc_key c i ≡ some key
      → hash_key hash c.key_kind key ≡ some h
      → Moved hash c bs i
      → put_internal c bs key h
        ≡ some (set bs p (record { key_hash = h; value_index = c.storage.count }), at p)
      → get_elem? bs p ≡ some b
      → is_free b ≡ true
      → Moved hash c (set bs p (record { key_hash = h; value_index = i })) (i + 1)
  unfolding put_internal
  Moved-fresh bs i p h key b lt e hashed moved run here free =
      let doc = inv.indexed i lt in
      let same_hash : doc.key_hash ≡ h = let same : doc.key ≡ key = cc in cc in
      let used = doc.used in
      let nonzero : (h == 0) ≡ false = rw same_hash at doc.nonzero in
      let first : KeyValue = record { key_hash = h; value_index = c.storage.count } in
      let new : KeyValue = record { key_hash = h; value_index = i } in
      let n = length bs in
      let start = first_index h n in
      let reached = put_loop-Reaches n c bs key h start start p (set bs p first) run in
      record {
        table = IsTable-set bs p new moved.table;
        indexed = λ j below. elim (Bool-cases (j == i)) [
          | inl same ↦ rw ((==_iff j i).0 same) (record {
            key = key;
            has_key = e;
            key_hash = h;
            hashed = hashed;
            nonzero = nonzero;
            used = rw same_hash at used;
            place = p;
            here = get_elem?-set_length bs p new b here;
            reached = rw (length-set bs p new) (
                subst (λ x. Reaches x n start p) (set-set bs p first new)
                  (Reaches-set (set bs p first) p new n start p nonzero reached));
          })
          | inr other ↦
              Indexed-set hash c c bs p j b new refl here free nonzero refl
                (moved.indexed j (ground arith))
        ];
        below =
            PointBelow-set (i + 1) p bs new (omega arith)
              (PointBelow-mono i (i + 1) bs (omega arith) moved.below);
        unremoved = AreUnremoved-set p bs new (rw same_hash at used) moved.unremoved;
        unique = IsUnique-set i p bs new moved.below (omega arith) moved.unique;
      }

  pub set_index-fresh :
      (bs : List KeyValue) (i p h : ℕ) (b : KeyValue)
      → get_elem? bs p ≡ some b
      → set_index (set bs p (record { key_hash = h; value_index = c.storage.count })) p i
        ≡ set bs p (record { key_hash = h; value_index = i })
  unfolding set_index
  set_index-fresh bs i p h b here =
      let first : KeyValue = record { key_hash = h; value_index = c.storage.count } in
      let now = get_elem?-set_length bs p first b here in
      rw (now, set_index) (set-set bs p first (record { key_hash = h; value_index = i }))

  pub Moved-Placed :
      (bs : List KeyValue) (i h : ℕ) (key : Bytes) (p : ℕ) (bs' : List KeyValue)
      → i < c.storage.count
      → doc_key c i ≡ some key
      → hash_key hash c.key_kind key ≡ some h
      → Moved hash c bs i
      → put_internal c bs key h ≡ some (bs', at p)
      → Placed c bs key h p bs'
      → Moved hash c (set_index bs' p i) (i + 1)
  Moved-Placed bs i h key p bs' lt e hashed moved run (fresh b here free) =
      rw (set_index-fresh bs i p h b here)
        (Moved-fresh bs i p h key b lt e hashed moved run here free)
  Moved-Placed bs i h key p bs' lt e hashed moved run (there b here used held) =
      let lt_b = PointBelow-at i bs p b moved.below here used in
      let same =
        inv.distinct b.value_index i key (omega arith) lt (holds_key-key c key h b held) e in
      absurd (omega (arith, lt_b, same))

  rehash-Moved :
      (left i : ℕ) (bs bs' : List KeyValue)
      → left + i ≡ c.storage.count
      → Moved hash c bs i
      → rehash hash left i c bs ≡ some (some bs')
      → Moved hash c bs' c.storage.count
  unfolding rehash
  rehash-Moved zero i bs bs' e moved run =
      let same : bs ≡ bs' = cc in
      let all : i ≡ c.storage.count = omega arith in
      subst (Moved hash c bs') all (subst (λ x. Moved hash c x i) same moved)
  rehash-Moved (suc left) i bs bs' e moved run =
      let lt : i < c.storage.count = omega arith in
      let doc = inv.indexed i lt in
      elim (Option-cases (put_internal c bs doc.key doc.key_hash)) [
        | inl failed ↦ let bad = rw (doc.has_key, doc.hashed, failed) at run in cc
        | inr ((dest, null), placed) ↦ let bad = rw (doc.has_key, doc.hashed, placed) at run in cc
        | inr ((dest, at p), placed) ↦ elim (Option-cases (get_elem? dest p)) [
          | inl nowhere ↦ let bad = rw (doc.has_key, doc.hashed, placed, nowhere) at run in cc
          | inr (bucket, here) ↦ elim (Bool-cases (bucket.value_index == c.storage.count)) [
            | inl new ↦
                rehash-Moved left (i + 1) (set_index dest p i) bs' (omega arith)
                  (Moved-Placed bs i doc.key_hash doc.key p dest lt doc.has_key doc.hashed moved
                    placed (put_internal-Placed c bs doc.key doc.key_hash p dest placed))
                  (rw (doc.has_key, doc.hashed, placed, here, new) at run)
            | inr old ↦ let bad = rw (doc.has_key, doc.hashed, placed, here, old) at run in cc
          ]
        ]
      ]

  AreUnremoved-replicate : (n : ℕ) → AreUnremoved (replicate n empty_bucket)
  AreUnremoved-replicate zero = tt
  AreUnremoved-replicate (suc n) = (inr refl, AreUnremoved-replicate n)

  PointBelow-replicate : (n count : ℕ) → PointBelow count (replicate n empty_bucket)
  unfolding is_free
  PointBelow-replicate zero count = tt
  PointBelow-replicate (suc n) count = (inl refl, PointBelow-replicate n count)

  pub Moved-replicate : (k n : ℕ) → n ≡ 2 ^ k → Moved hash c (replicate n empty_bucket) 0
  Moved-replicate k n e = record {
    table = inr (k, length-replicate n empty_bucket ∙ e);
    indexed = λ j lt. absurd (omega (arith, lt));
    below = PointBelow-replicate n 0;
    unremoved = AreUnremoved-replicate n;
    unique = λ p q b b' at_p at_q used used' same. absurd (
        omega (
          arith,
          PointBelow-at 0 (replicate n empty_bucket) p b (PointBelow-replicate n 0) at_p used,
        ));
  }

  pub grown_length :
      (k : ℕ) × ((if length c.buckets * 2 == 0 then 32 else length c.buckets * 2) ≡ 2 ^ k)
  grown_length = elim inv.table [
    | inl empty ↦ (5, rw empty)
    | inr (k, len) ↦ elim (Bool-cases (length c.buckets * 2 == 0)) [
      | inl zero_there ↦ (5, rw zero_there)
      | inr stands ↦ (suc k, rw stands (omega (arith, len)))
    ]
  ]

  -- the collection with the new buckets
  IsIndexed-Moved :
      (bs : List KeyValue)
      → Moved hash c bs c.storage.count
      → IsIndexed hash (record c { buckets = bs })
  unfolding doc_key
  IsIndexed-Moved bs moved = record {
    valid = inv.valid;
    table = moved.table;
    indexed = λ i lt.
        let doc = moved.indexed i lt in
        record {
          key = doc.key;
          has_key = doc.has_key;
          key_hash = doc.key_hash;
          hashed = doc.hashed;
          nonzero = doc.nonzero;
          used = doc.used;
          place = doc.place;
          here = doc.here;
          reached = doc.reached;
        };
    distinct = inv.distinct;
    below = moved.below;
    unique = moved.unique;
  }

  abbrev Grown : Collection → Collection → Type 0
  Grown c c' =
      IsIndexed hash c'
      × (c' ≡ record c { buckets = c'.buckets })
      × (AreUnremoved c.buckets → AreUnremoved c'.buckets)

  -- growing keeps the documents, and their index
  pub grow-IsIndexed :
      (c' : Collection)
      → grow hash c ≡ some (some c')
      → IsIndexed hash c'
        × (c' ≡ record c { buckets = c'.buckets })
        × (AreUnremoved c.buckets → AreUnremoved c'.buckets)
  unfolding grow
  grow-IsIndexed c' run =
      let (k, e) = grown_length in
      let n = if length c.buckets * 2 == 0 then 32 else length c.buckets * 2 in
      elim (Bool-cases (leb (load_limit (length c.buckets)) (c.storage.count + 1))) [
        | inl full ↦
            elim (Option-cases (rehash hash c.storage.count 0 c (replicate n empty_bucket))) [
              | inl failed ↦ let bad = rw (full, failed) at run in cc
              | inr (none, moved) ↦ let bad = rw (full, moved) at run in cc
              | inr (some bs, moved) ↦
                  let same : record c { buckets = bs } ≡ c' =
                    let run' = rw (full, moved) at run in cc in
                  let moved' =
                    rehash-Moved c.storage.count 0 (replicate n empty_bucket) bs (omega arith)
                      (Moved-replicate k n e) moved in
                  subst (Grown c) same (IsIndexed-Moved bs moved', refl, λ un. moved'.unremoved)
            ]
        | inr room ↦
            let same : c ≡ c' = let run' = rw room at run in cc in
            subst (Grown c) same (inv, refl, λ un. un)
      ]
