-- ===== src/Db/Collection/Room.antt =====
-- Buckets in which one is free: put_internal does not come back without one.
use boutique.Common.{
  ℕ, zero, suc, ◌+◌, ◌-◌, ◌^◌, ◌≤◌, ◌<◌, ◌≡◌, refl, ap, ◌∙◌, Bool, true, false, inl, inr, ◌⊎◌, some,
  List, [], ◌∷◌, arith, Bytes, length, get_elem?, get_elem?-lt, ◌==◌, if◌then◌else◌, Bool-cases,
  set, ltb, ltb→lt,
}
use boutique.Db.Collection.{
  KeyValue, Collection, at, holds_key, first_index, is_free, put_loop, put_internal, next_index,
}
use boutique.Db.Collection.Probing.{
  Around, Around-start, Around-next, next_index-cases, first_index-lt,
}
use boutique.Db.Collection.Walk.{Around-back}

-- how many buckets are in use
unfoldable pub used : List KeyValue → ℕ
used [] = 0
used (b ∷ bs) = if is_free b then used bs else suc (used bs)

pub used-set :
    (bs : List KeyValue) (p : ℕ) (b v : KeyValue)
    → get_elem? bs p ≡ some b
    → is_free b ≡ true
    → is_free v ≡ false
    → used (set bs p v) ≡ used bs + 1
unfolding used
used-set [] p b v here free in_use = cc
used-set (x ∷ bs) zero b v here free in_use =
    let same : x ≡ b = cc in rw (in_use, same, free) (omega arith)
used-set (x ∷ bs) (suc p) b v here free in_use =
    let later = used-set bs p b v here free in_use in
    elim (Bool-cases (is_free x)) [
      | inl spare ↦ rw spare later
      | inr taken ↦ rw taken (omega (arith, later))
    ]

pub used-set_taken :
    (bs : List KeyValue) (p : ℕ) (b v : KeyValue)
    → get_elem? bs p ≡ some b
    → is_free b ≡ false
    → is_free v ≡ false
    → used (set bs p v) ≡ used bs
unfolding used
used-set_taken [] p b v here taken taken' = cc
used-set_taken (x ∷ bs) zero b v here taken taken' =
    let same : x ≡ b = cc in rw (taken', same, taken)
used-set_taken (x ∷ bs) (suc p) b v here taken taken' =
    rw (used-set_taken bs p b v here taken taken')

pub used-set_free :
    (bs : List KeyValue) (p : ℕ) (b v : KeyValue)
    → get_elem? bs p ≡ some b
    → is_free b ≡ false
    → is_free v ≡ true
    → used (set bs p v) + 1 ≡ used bs
unfolding used
used-set_free [] p b v here taken free = cc
used-set_free (x ∷ bs) zero b v here taken free =
    let same : x ≡ b = cc in rw (free, same, taken) (omega arith)
used-set_free (x ∷ bs) (suc p) b v here taken free =
    let later = used-set_free bs p b v here taken free in
    elim (Bool-cases (is_free x)) [
      | inl spare ↦ rw spare later
      | inr full ↦ rw full (omega (arith, later))
    ]

-- a free bucket
record Spare (bs : List KeyValue) : Type 0 where
  place : ℕ
  bucket : KeyValue
  here : get_elem? bs place ≡ some bucket
  free : is_free bucket ≡ true
  in_range : place < length bs

Spare-used : (bs : List KeyValue) → used bs < length bs → Spare bs
unfolding used
Spare-used [] lt = absurd (omega (arith, lt))
Spare-used (b ∷ bs) lt = elim (Bool-cases (is_free b)) [
  | inl free ↦ record { place = 0; bucket = b; here = refl; free = free; in_range = omega arith }
  | inr taken ↦
      let fewer : used bs < length bs = omega (arith, rw taken at lt) in
      let s = Spare-used bs fewer in
      record {
        place = suc s.place;
        bucket = s.bucket;
        here = s.here;
        free = s.free;
        in_range = omega (arith, s.in_range);
      }
]

-- The bucket r is `steps` rounds ahead.
record Ahead (k idx left r : ℕ) : Type 0 where
  steps : ℕ
  in_time : steps < left
  distance : (r ≡ idx + steps) ⊎ (r + 2 ^ k ≡ idx + steps)

Ahead-start : (k start r : ℕ) → start < 2 ^ k → r < 2 ^ k → Ahead k start (2 ^ k) r
Ahead-start k start r in_range lt = elim (Bool-cases (ltb r start)) [
  | inl below ↦
      let gt = ltb→lt r start below in
      record {
        steps = r + 2 ^ k - start;
        in_time = omega (arith, gt, in_range);
        distance = inr (omega (arith, gt, in_range));
      }
  | inr above ↦
      let le : start ≤ r = ground (arith, above) in
      record {
        steps = r - start;
        in_time = omega (arith, le, lt);
        distance = inl (omega (arith, le));
      }
]

Ahead-next :
    (k idx left r : ℕ)
    → idx < 2 ^ k
    → r < 2 ^ k
    → Ahead k idx left r
    → (r ≡ idx) ⊎ Ahead k (next_index idx (2 ^ k)) (left - 1) r
Ahead-next k idx left r in_range lt a = elim (Bool-cases (a.steps == 0)) [
  | inl now ↦
      let none_left : a.steps ≡ 0 = ground arith in
      inl (omega (arith, a.distance, none_left, lt, in_range))
  | inr later ↦
      let more : 1 ≤ a.steps = ground arith in
      inr (elim (next_index-cases k idx in_range) [
        | inl (wraps, e) ↦ rw e (record {
          steps = a.steps - 1;
          in_time = omega (arith, a.in_time, more);
          distance = inl (omega (arith, a.distance, wraps, more, lt));
        })
        | inr (goes, e) ↦ rw e (record {
          steps = a.steps - 1;
          in_time = omega (arith, a.in_time, more);
          distance = elim a.distance [
            | inl d ↦ inl (omega (arith, d, more))
            | inr d ↦ inr (omega (arith, d, more))
          ];
        })
      ])
]

-- the last round is at r
Ahead-last : (k idx left r : ℕ) → left ≡ 1 → idx < 2 ^ k → r < 2 ^ k → Ahead k idx left r → r ≡ idx
Ahead-last k idx left r last in_range lt a =
    omega (arith, a.in_time, a.distance, last, in_range, lt)

-- The key of every bucket in use can be compared.
abbrev pub AreComparable : Collection → List KeyValue → Bytes → ℕ → Type 0
AreComparable c bs key h =
    (i : ℕ) (b : KeyValue)
    → get_elem? bs i ≡ some b
    → is_free b ≡ false
    → (same : Bool) × (holds_key c key h b ≡ some same)

-- a round that goes on
put_loop-on :
    (k fuel : ℕ) (c : Collection) (dest : List KeyValue) (key : Bytes) (h orig idx : ℕ)
    (b : KeyValue)
    → length dest ≡ 2 ^ k
    → get_elem? dest idx ≡ some b
    → is_free b ≡ false
    → holds_key c key h b ≡ some false
    → (next_index idx (2 ^ k) == orig) ≡ false
    → put_loop (suc fuel) c dest key h orig idx
      ≡ put_loop fuel c dest key h orig (next_index idx (2 ^ k))
unfolding put_loop
put_loop-on k fuel c dest key h orig idx b len here taken held on = rw (here, taken, held, len, on)

put_loop_finds :
    (k fuel left : ℕ) (c : Collection) (dest : List KeyValue) (key : Bytes) (h orig idx : ℕ)
    → length dest ≡ 2 ^ k
    → Around k orig idx left
    → left ≤ fuel
    → left ≤ 2 ^ k
    → AreComparable c dest key h
    → (s : Spare dest) → Ahead k idx left s.place
    → (dest' : List KeyValue) × (p : ℕ) × (put_loop fuel c dest key h orig idx ≡ some (dest', at p))
unfolding put_loop
put_loop_finds k zero left c dest key h orig idx len a le bound compares s ahead =
    absurd (omega (arith, a.some_left))
put_loop_finds k (suc fuel) left c dest key h orig idx len a le bound compares s ahead =
    let (b, here) = get_elem?-lt dest idx (omega (arith, len, a.in_range)) in
    let lt : s.place < 2 ^ k = omega (arith, len, s.in_range) in
    elim (Bool-cases (is_free b)) [
      | inl free ↦ (
        set dest idx (record { key_hash = h; value_index = c.storage.count }),
        idx,
        rw (here, free),
      )
      | inr taken ↦
          let elsewhere : s.place ≡ idx → ⊥ = λ e.
            let here' = rw e at s.here in
            let same : s.bucket ≡ b = cc in cc (s.free, taken, same) in
          let (same, held) = compares idx b here taken in
          elim (Bool-cases same) [
            | inl equal ↦ (dest, idx, rw (here, taken, held, equal))
            | inr other ↦ elim (Bool-cases (next_index idx (2 ^ k) == orig)) [
              | inl back ↦
                  let last = Around-back k orig idx left a bound back in
                  absurd (elsewhere (Ahead-last k idx left s.place last a.in_range lt ahead))
              | inr on ↦ elim (Ahead-next k idx left s.place a.in_range lt ahead) [
                | inl e ↦ absurd (elsewhere e)
                | inr ahead' ↦
                    let (dest', p, rest) =
                      put_loop_finds k fuel (left - 1) c dest key h orig (next_index idx (2 ^ k))
                        len (Around-next k orig idx left a on) (omega arith) (omega arith) compares
                        s ahead' in
                    (
                      dest',
                      p,
                      put_loop-on k fuel c dest key h orig idx b len here taken
                            (held ∙ ap some other) on
                          ∙ rest,
                    )
              ]
            ]
          ]
    ]

put_internal-table :
    (k : ℕ) (c : Collection) (bs : List KeyValue) (key : Bytes) (h : ℕ)
    → length bs ≡ 2 ^ k
    → put_internal c bs key h
      ≡ put_loop (2 ^ k) c bs key h (first_index h (2 ^ k)) (first_index h (2 ^ k))
unfolding put_internal
put_internal-table k c bs key h len = rw len

-- Where not all buckets are in use, put_internal gives a bucket.
pub put_internal-at :
    (k : ℕ) (c : Collection) (bs : List KeyValue) (key : Bytes) (h : ℕ)
    → length bs ≡ 2 ^ k
    → used bs < length bs
    → AreComparable c bs key h
    → (bs' : List KeyValue) × (p : ℕ) × (put_internal c bs key h ≡ some (bs', at p))
put_internal-at k c bs key h len room compares =
    let s = Spare-used bs room in
    let start = first_index h (2 ^ k) in
    let lt : s.place < 2 ^ k = omega (arith, len, s.in_range) in
    let (bs', p, run) =
      put_loop_finds k (2 ^ k) (2 ^ k) c bs key h start start len
        (Around-start k start (first_index-lt k h)) (omega arith) (omega arith) compares s
        (Ahead-start k start s.place (first_index-lt k h) lt) in
    (bs', p, put_internal-table k c bs key h len ∙ run)
