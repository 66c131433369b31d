-- ===== src/Db/Collection/Walk.antt =====
-- Buckets that a walk comes to before any empty one.
use boutique.Common.{
  ℕ, zero, suc, ◌-◌, ◌^◌, ◌≤◌, ◌≡◌, ap, ◌∙◌, Bool, true, false, inl, inr, ◌⊎◌, some, List, arith,
  Bytes, length, get_elem?, get_elem?-set_ne, get_elem?-lt, length-set, set, ◌==◌, ==_iff,
  Bool-cases, Option-cases,
}
use boutique.Db.Collection.{
  KeyValue, Collection, Found, null, at, holds_key, next_index, is_free, put_loop, find_loop,
}
use boutique.Db.Collection.Probing.{Around, Around-next, next_index-cases}
use boutique.Db.Collection.Lookup.{
  put_loop-Placed, Placed-keeps, used-not_empty, Placed-length, get_elem?-set_length,
}

-- A bucket that is not empty stands at `idx`.
pub record Full (bs : List KeyValue) (idx : ℕ) : Type 0 where
  pub bucket : KeyValue
  pub here : get_elem? bs idx ≡ some bucket
  pub nonzero : (bucket.key_hash == 0) ≡ false

-- In `left` rounds from `idx` the walk comes to `p`, and finds no empty bucket before it.
abbrev pub Reaches : List KeyValue → ℕ → ℕ → ℕ → Type 0
Reaches bs zero idx p = ⊥
Reaches bs (suc left) idx p =
    (idx ≡ p) ⊎ (Full bs idx × Reaches bs left (next_index idx (length bs)) p)

-- the walk is back at its first bucket in its last round
pub Around-back :
    (k orig idx left : ℕ)
    → Around k orig idx left
    → left ≤ 2 ^ k
    → (next_index idx (2 ^ k) == orig) ≡ true
    → left ≡ 1
Around-back k orig idx left a bound back =
    let e : next_index idx (2 ^ k) ≡ orig = (==_iff (next_index idx (2 ^ k)) orig).0 back in
    elim (next_index-cases k idx a.in_range) [
      | inl (wraps, at_zero) ↦
          omega (arith, a.distance, a.some_left, a.orig_in_range, a.in_range, e, at_zero)
      | inr (goes, at_next) ↦
          omega (arith, a.distance, a.some_left, a.orig_in_range, a.in_range, e, at_next)
    ]

-- The bucket that find_internal gives.
pub record Holds (c : Collection) (key : Bytes) (h q : ℕ) : Type 0 where
  pub bucket : KeyValue
  pub here : get_elem? c.buckets q ≡ some bucket
  pub nonzero : (bucket.key_hash == 0) ≡ false
  pub held : holds_key c key h bucket ≡ some true

pub find_loop-Holds :
    (fuel : ℕ) (c : Collection) (key : Bytes) (h orig idx q : ℕ)
    → find_loop fuel c key h orig idx ≡ some (at q)
    → Holds c key h q
unfolding find_loop
find_loop-Holds zero c key h orig idx q e = cc
find_loop-Holds (suc fuel) c key h orig idx q e = elim (Option-cases (get_elem? c.buckets idx)) [
  | inl nowhere ↦ let bad = rw nowhere at e in cc
  | inr (b, here) ↦ elim (Bool-cases (b.key_hash == 0)) [
    | inl empty ↦ let bad = rw (here, empty) at e in cc
    | inr nonzero ↦ elim (Option-cases (holds_key c key h b)) [
      | inl failed ↦ let bad = rw (here, nonzero, failed) at e in cc
      | inr (same, held) ↦ elim (Bool-cases same) [
        | inl equal ↦
            let e' = rw (here, nonzero, held, equal) at e in
            let ep : idx ≡ q = cc in
            rw (← ep)
              (record { bucket = b; here = here; nonzero = nonzero; held = held ∙ ap some equal })
        | inr other ↦ elim (Bool-cases (next_index idx (length c.buckets) == orig)) [
          | inl back ↦ let bad = rw (here, nonzero, held, other, back) at e in cc
          | inr on ↦
              find_loop-Holds fuel c key h orig (next_index idx (length c.buckets)) q
                (rw (here, nonzero, held, other, on) at e)
        ]
      ]
    ]
  ]
]

-- Every comparison of the key with that of a document is defined.
abbrev pub Compares : Collection → List KeyValue → Bytes → ℕ → Type 0
Compares c bs key h =
    (i : ℕ) (b : KeyValue)
    → get_elem? bs i ≡ some b
    → (b.key_hash == 0) ≡ false
    → (same : Bool) × (holds_key c key h b ≡ some same)

-- a round that goes on
find_loop-on :
    (k fuel : ℕ) (c : Collection) (key : Bytes) (h orig idx : ℕ)
    → length c.buckets ≡ 2 ^ k
    → (full : Full c.buckets idx) → holds_key c key h full.bucket ≡ some false
    → (next_index idx (2 ^ k) == orig) ≡ false
    → find_loop (suc fuel) c key h orig idx ≡ find_loop fuel c key h orig (next_index idx (2 ^ k))
unfolding find_loop
find_loop-on k fuel c key h orig idx len full held on = rw (full.here, full.nonzero, held, len, on)

-- A bucket that is reached and holds the key is found, or one before it that does.
pub find_loop-Reaches :
    (k fuel left : ℕ) (c : Collection) (key : Bytes) (h orig idx p : ℕ)
    → length c.buckets ≡ 2 ^ k
    → Around k orig idx left
    → left ≤ fuel
    → left ≤ 2 ^ k
    → Compares c c.buckets key h
    → Reaches c.buckets left idx p
    → Holds c key h p
    → (q : ℕ) × (find_loop fuel c key h orig idx ≡ some (at q))
unfolding find_loop
find_loop-Reaches k fuel zero c key h orig idx p len a le bound compares reaches goal =
    absurd reaches
find_loop-Reaches k zero (suc left) c key h orig idx p len a le bound compares reaches goal =
    absurd (omega arith)
find_loop-Reaches k (suc fuel) (suc left) c key h orig idx p len a le bound compares (inl same)
      goal =
    (idx, rw (same, goal.here, goal.nonzero, goal.held))
find_loop-Reaches k (suc fuel) (suc left) c key h orig idx p len a le bound compares
      (inr (full, reaches)) goal =
    let (same, held) = compares idx full.bucket full.here full.nonzero in
    elim (Bool-cases same) [
      | inl equal ↦ (idx, rw (full.here, full.nonzero, held, equal))
      | inr other ↦ elim (Bool-cases (next_index idx (2 ^ k) == orig)) [
        | inl back ↦
            let last : suc left ≡ 1 = Around-back k orig idx (suc left) a bound back in
            let none_left : left ≡ 0 = omega (arith, last) in absurd (rw none_left at reaches)
        | inr on ↦
            let one_less : suc left - 1 ≡ left = omega arith in
            let a' : Around k orig (next_index idx (2 ^ k)) left =
              rw one_less at (Around-next k orig idx (suc left) a on) in
            let (q, found) =
              find_loop-Reaches k fuel left c key h orig (next_index idx (2 ^ k)) p len a'
                (omega arith) (omega arith) compares (rw len at reaches) goal in
            (q, find_loop-on k fuel c key h orig idx len full (held ∙ ap some other) on ∙ found)
      ]
    ]

Full-set :
    (bs : List KeyValue) (i : ℕ) (v : KeyValue) (idx : ℕ)
    → (v.key_hash == 0) ≡ false
    → Full bs idx
    → Full (set bs i v) idx
Full-set bs i v idx nonzero full = elim (Bool-cases (i == idx)) [
  | inl same ↦
      let e : i ≡ idx = (==_iff i idx).0 same in
      record {
        bucket = v;
        here = rw e (get_elem?-set_length bs idx v full.bucket full.here);
        nonzero = nonzero;
      }
  | inr other ↦ record {
    bucket = full.bucket;
    here = get_elem?-set_ne bs i idx v (ground arith) ∙ full.here;
    nonzero = full.nonzero;
  }
]

-- Filling or keeping a bucket keeps what is reached.
pub Reaches-set :
    (bs : List KeyValue) (i : ℕ) (v : KeyValue) (left idx p : ℕ)
    → (v.key_hash == 0) ≡ false
    → Reaches bs left idx p
    → Reaches (set bs i v) left idx p
Reaches-set bs i v zero idx p nonzero r = r
Reaches-set bs i v (suc left) idx p nonzero (inl e) = inl e
Reaches-set bs i v (suc left) idx p nonzero (inr (full, r)) = inr (
  Full-set bs i v idx nonzero full,
  rw (length-set bs i v) (Reaches-set bs i v left (next_index idx (length bs)) p nonzero r),
)

-- The bucket that put_loop gives is reached in the buckets as they are then.
pub put_loop-Reaches :
    (fuel : ℕ) (c : Collection) (dest : List KeyValue) (key : Bytes) (h orig idx p : ℕ)
    (dest' : List KeyValue)
    → put_loop fuel c dest key h orig idx ≡ some (dest', at p)
    → Reaches dest' fuel idx p
unfolding put_loop
put_loop-Reaches zero c dest key h orig idx p dest' e = cc
put_loop-Reaches (suc fuel) c dest key h orig idx p dest' e =
    let placed = put_loop-Placed (suc fuel) c dest key h orig idx p dest' e in
    let len = Placed-length c dest dest' key h p placed in
    elim (Option-cases (get_elem? dest idx)) [
      | inl nowhere ↦ let bad = rw nowhere at e in cc
      | inr (b, here) ↦ elim (Bool-cases (is_free b)) [
        | inl free ↦ let e' = rw (here, free) at e in inl cc
        | inr used ↦
            let still : Full dest' idx = record {
              bucket = b;
              here = Placed-keeps c dest dest' key h p idx b placed here used;
              nonzero = used-not_empty b used;
            } in
            elim (Option-cases (holds_key c key h b)) [
              | inl failed ↦ let bad = rw (here, used, failed) at e in cc
              | inr (same, held) ↦ elim (Bool-cases same) [
                | inl equal ↦ let e' = rw (here, used, held, equal) at e in inl cc
                | inr other ↦ elim (Bool-cases (next_index idx (length dest) == orig)) [
                  | inl back ↦ let bad = rw (here, used, held, other, back) at e in cc
                  | inr on ↦ inr (
                    still,
                    rw len (
                        put_loop-Reaches fuel c dest key h orig (next_index idx (length dest)) p
                          dest' (rw (here, used, held, other, on) at e)),
                  )
                ]
              ]
            ]
      ]
    ]

-- The walk of find_internal ends with an answer.
pub find_loop_total :
    (k fuel left : ℕ) (c : Collection) (key : Bytes) (h orig idx : ℕ)
    → length c.buckets ≡ 2 ^ k
    → Around k orig idx left
    → left ≤ fuel
    → Compares c c.buckets key h
    → (found : Found) × (find_loop fuel c key h orig idx ≡ some found)
unfolding find_loop
find_loop_total k zero left c key h orig idx len a le compares = absurd (omega (arith, a.some_left))
find_loop_total k (suc fuel) left c key h orig idx len a le compares =
    let (b, here) = get_elem?-lt c.buckets idx (omega (arith, len, a.in_range)) in
    elim (Bool-cases (b.key_hash == 0)) [
      | inl empty ↦ (null, rw (here, empty))
      | inr nonzero ↦
          let (same, held) = compares idx b here nonzero in
          elim (Bool-cases same) [
            | inl equal ↦ (at idx, rw (here, nonzero, held, equal))
            | inr other ↦ elim (Bool-cases (next_index idx (2 ^ k) == orig)) [
              | inl back ↦ (null, rw (here, nonzero, held, other, len, back))
              | inr on ↦
                  let (found, rest) =
                    find_loop_total k fuel (left - 1) c key h orig (next_index idx (2 ^ k)) len
                      (Around-next k orig idx left a on) (omega arith) compares in
                  let full : Full c.buckets idx = record {
                    bucket = b;
                    here = here;
                    nonzero = nonzero;
                  } in
                  (
                    found,
                    find_loop-on k fuel c key h orig idx len full (held ∙ ap some other) on ∙ rest,
                  )
            ]
          ]
    ]
