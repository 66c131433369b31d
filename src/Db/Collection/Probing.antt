-- ===== src/Db/Collection/Probing.antt =====
-- The walk over the buckets, where their number is a power of two: it stays in range, and comes back
-- to its first bucket after one round for each bucket.
use native.Mathlib.Nat.{mod-lt, mod-eq_of_lt, mod_self}
use boutique.Common.{
  ℕ, zero, suc, ◌+◌, ◌-◌, ◌%◌, ◌^◌, ◌≤◌, ◌<◌, ◌≡◌, ◌≢◌, refl, ◌⊎◌, inl, inr, false, arith, Bytes,
  List, length, Bool-cases, ◌==◌, ==_iff,
}
use boutique.Core.Bits.{bit_and-mask}
use boutique.Db.Collection.{KeyValue, Collection, first_index, next_index, put_loop, find_loop}

pow_pos : (k : ℕ) → 1 ≤ 2 ^ k
pow_pos zero = omega arith
pow_pos (suc k) = omega (arith, pow_pos k, native.Mathlib.Nat.pow-suc 2 k)

pub first_index-lt : (k h : ℕ) → first_index h (2 ^ k) < 2 ^ k
unfolding first_index
first_index-lt k h = rw (bit_and-mask k h) (mod-lt h (pow_pos k))

next_index-mod : (k idx : ℕ) → next_index idx (2 ^ k) ≡ (idx + 1) % 2 ^ k
unfolding next_index
next_index-mod k idx = bit_and-mask k (idx + 1)

-- the next index, where it wraps and where it does not
pub next_index-cases :
    (k idx : ℕ)
    → idx < 2 ^ k
    → ((idx + 1 ≡ 2 ^ k) × (next_index idx (2 ^ k) ≡ 0))
      ⊎ ((idx + 1 < 2 ^ k) × (next_index idx (2 ^ k) ≡ idx + 1))
next_index-cases k idx h = elim (Bool-cases (idx + 1 == 2 ^ k)) [
  | inl wraps ↦
      let e : idx + 1 ≡ 2 ^ k = (==_iff (idx + 1) (2 ^ k)).0 wraps in
      inl (e, rw (next_index-mod k idx, e) (mod_self (2 ^ k)))
  | inr goes ↦
      let small : idx + 1 < 2 ^ k = ground arith in
      inr (small, rw (next_index-mod k idx) (mod-eq_of_lt small))
]

-- `left` rounds remain until the walk is back at `orig`.
pub record Around (k orig idx left : ℕ) : Type 0 where
  pub in_range : idx < 2 ^ k
  pub orig_in_range : orig < 2 ^ k
  pub some_left : 1 ≤ left
  pub distance : (idx + left ≡ orig) ⊎ (idx + left ≡ orig + 2 ^ k)

pub Around-start : (k orig : ℕ) → orig < 2 ^ k → Around k orig orig (2 ^ k)
Around-start k orig h = record {
  in_range = h;
  orig_in_range = h;
  some_left = pow_pos k;
  distance = inr refl;
}

pub Around-next :
    (k orig idx left : ℕ)
    → Around k orig idx left
    → (next_index idx (2 ^ k) == orig) ≡ false
    → Around k orig (next_index idx (2 ^ k)) (left - 1)
Around-next k orig idx left a h = elim (next_index-cases k idx a.in_range) [
  | inl (wraps, e) ↦
      let ne : 0 ≢ orig = ground (arith, rw e at h) in
      rw e (record {
        in_range = pow_pos k;
        orig_in_range = a.orig_in_range;
        some_left = omega arith;
        distance = omega arith;
      })
  | inr (goes, e) ↦
      let ne : idx + 1 ≢ orig = ground (arith, rw e at h) in
      rw e (record {
        in_range = goes;
        orig_in_range = a.orig_in_range;
        some_left = omega arith;
        distance = omega arith;
      })
]

-- The walk of find_internal needs no more fuel than rounds that are left.
find_loop_fuel :
    (k : ℕ) (c : Collection) (key : Bytes) (h orig idx left f g : ℕ)
    → length c.buckets ≡ 2 ^ k
    → Around k orig idx left
    → left ≤ f
    → left ≤ g
    → find_loop f c key h orig idx ≡ find_loop g c key h orig idx
unfolding find_loop
find_loop_fuel k c key h orig idx left zero g e a hf hg = absurd (omega (arith, a.some_left))
find_loop_fuel k c key h orig idx left (suc f) zero e a hf hg = absurd (omega (arith, a.some_left))
find_loop_fuel k c key h orig idx left (suc f) (suc g) e a hf hg =
    elim (Bool-cases (next_index idx (2 ^ k) == orig)) [
      | inl back ↦ rw (e, back)
      | inr on ↦
          let rest =
            find_loop_fuel k c key h orig (next_index idx (2 ^ k)) (left - 1) f g e
              (Around-next k orig idx left a on) (omega arith) (omega arith) in
          rw (e, on, rest)
    ]

put_loop_fuel :
    (k : ℕ) (c : Collection) (dest : List KeyValue) (key : Bytes) (h orig idx left f g : ℕ)
    → length dest ≡ 2 ^ k
    → Around k orig idx left
    → left ≤ f
    → left ≤ g
    → put_loop f c dest key h orig idx ≡ put_loop g c dest key h orig idx
unfolding put_loop
put_loop_fuel k c dest key h orig idx left zero g e a hf hg = absurd (omega (arith, a.some_left))
put_loop_fuel k c dest key h orig idx left (suc f) zero e a hf hg =
    absurd (omega (arith, a.some_left))
put_loop_fuel k c dest key h orig idx left (suc f) (suc g) e a hf hg =
    elim (Bool-cases (next_index idx (2 ^ k) == orig)) [
      | inl back ↦ rw (e, back)
      | inr on ↦
          let rest =
            put_loop_fuel k c dest key h orig (next_index idx (2 ^ k)) (left - 1) f g e
              (Around-next k orig idx left a on) (omega arith) (omega arith) in
          rw (e, on, rest)
    ]

-- Where the number of buckets is a power of two and a loop starts at one of them, both loops end by
-- their own tests within one round for each bucket: any more fuel gives the same outcome.
pub probing_fuel :
    (k : ℕ) (c : Collection) (dest : List KeyValue) (key : Bytes) (h start extra : ℕ)
    → start < 2 ^ k
    → length dest ≡ 2 ^ k
    → length c.buckets ≡ 2 ^ k
    → (put_loop (2 ^ k + extra) c dest key h start start
        ≡ put_loop (2 ^ k) c dest key h start start)
      × (find_loop (2 ^ k + extra) c key h start start ≡ find_loop (2 ^ k) c key h start start)
probing_fuel k c dest key h start extra in_range ed ec =
    let a = Around-start k start in_range in
    (
      put_loop_fuel k c dest key h start start (2 ^ k) (2 ^ k + extra) (2 ^ k) ed a (omega arith)
          (omega arith),
      find_loop_fuel k c key h start start (2 ^ k) (2 ^ k + extra) (2 ^ k) ec a (omega arith)
          (omega arith),
    )
