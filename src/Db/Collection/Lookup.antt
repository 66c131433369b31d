-- ===== src/Db/Collection/Lookup.antt =====
-- What put has stored, find finds.
use boutique.Common.{
  ℕ, zero, suc, ◌≡◌, ◌≢◌, refl, ap, ◌∙◌, true, false, inl, inr, Option, some, List, [], ◌∷◌, arith,
  Bytes, length, get_elem?, get_elem?-set_ne, length-set, set, ◌==◌, Bool-cases, Option-cases,
}
use boutique.Db.Collection.{
  KeyValue, Collection, Found, at, holds_key, next_index, is_free, put_loop, find_loop,
}

pub get_elem?-set_length :
    {A : Type 0} (xs : List A) (i : ℕ) (v w : A)
    → get_elem? xs i ≡ some w
    → get_elem? (set xs i v) i ≡ some v
get_elem?-set_length [] i v w e = cc
get_elem?-set_length (x ∷ xs) zero v w e = refl
get_elem?-set_length (x ∷ xs) (suc i) v w e = get_elem?-set_length xs i v w e

-- The bucket that put_loop gives was free and is now the key's, or holds the key already.
pub data Placed (c : Collection) (dest : List KeyValue) (key : Bytes) (h p : ℕ)
    : List KeyValue → Type 0 where
  fresh :
      (b : KeyValue)
      → get_elem? dest p ≡ some b
      → is_free b ≡ true
      → Placed c dest key h p (set dest p (record { key_hash = h; value_index = c.storage.count }))
  there :
      (b : KeyValue)
      → get_elem? dest p ≡ some b
      → is_free b ≡ false
      → holds_key c key h b ≡ some true
      → Placed c dest key h p dest

Placed-same :
    (c : Collection) (dest : List KeyValue) (key : Bytes) (h q p : ℕ) (x y : List KeyValue)
    → ◌≡◌ {A = Option (List KeyValue × Found)} (some (x, at q)) (some (y, at p))
    → Placed c dest key h q x
    → Placed c dest key h p y
Placed-same c dest key h q p x y e pl =
    let ex : x ≡ y = cc in let ep : q ≡ p = cc in rw (← ex, ← ep) pl

pub put_loop-Placed :
    (fuel : ℕ) (c : Collection) (dest : List KeyValue) (key : Bytes) (h orig idx p : ℕ)
    (dest' : List KeyValue)
    → put_loop fuel c dest key h orig idx ≡ some (dest', at p)
    → Placed c dest key h p dest'
unfolding put_loop
put_loop-Placed zero c dest key h orig idx p dest' e = cc
put_loop-Placed (suc fuel) c dest key h orig idx p dest' e =
    elim (Option-cases (get_elem? dest idx)) [
      | inl nowhere ↦ let bad = rw nowhere at e in cc
      | inr (b, here) ↦ elim (Bool-cases (is_free b)) [
        | inl free ↦
            let e' = rw (here, free) at e in
            Placed-same c dest key h idx p _ dest' e' (fresh b here free)
        | inr used ↦ elim (Option-cases (holds_key c key h b)) [
          | inl failed ↦ let bad = rw (here, used, failed) at e in cc
          | inr (same, held) ↦ elim (Bool-cases same) [
            | inl equal ↦
                let e' = rw (here, used, held, equal) at e in
                Placed-same c dest key h idx p dest dest' e'
                  (there b here used (held ∙ ap some equal))
            | inr other ↦ elim (Bool-cases (next_index idx (length dest) == orig)) [
              | inl back ↦ let bad = rw (here, used, held, other, back) at e in cc
              | inr on ↦
                  put_loop-Placed fuel c dest key h orig (next_index idx (length dest)) p dest'
                    (rw (here, used, held, other, on) at e)
            ]
          ]
        ]
      ]
    ]

-- A bucket in use that does not hold the key keeps its place.
pub Placed-keeps :
    (c : Collection) (dest dest' : List KeyValue) (key : Bytes) (h p idx : ℕ) (b : KeyValue)
    → Placed c dest key h p dest'
    → get_elem? dest idx ≡ some b
    → is_free b ≡ false
    → get_elem? dest' idx ≡ some b
Placed-keeps c dest dest' key h p idx b (fresh b' there' free) here used =
    let ne : p ≢ idx = λ e. let eb : b' ≡ b = cc in cc in get_elem?-set_ne dest p idx _ ne ∙ here
Placed-keeps c dest dest' key h p idx b (there b' there' used' held) here used = here

pub Placed-length :
    (c : Collection) (dest dest' : List KeyValue) (key : Bytes) (h p : ℕ)
    → Placed c dest key h p dest'
    → length dest' ≡ length dest
Placed-length c dest dest' key h p (fresh b here free) = length-set dest p _
Placed-length c dest dest' key h p (there b here used held) = refl

pub used-not_empty : (b : KeyValue) → is_free b ≡ false → (b.key_hash == 0) ≡ false
unfolding is_free
used-not_empty b used = ground arith

-- find_loop comes to the bucket that put_loop gave, in a collection `c'` with those buckets in
-- which the key is there and the buckets before it hold no other key than before.
pub find_loop-put_loop :
    (fuel : ℕ) (c c' : Collection) (dest : List KeyValue) (key : Bytes) (h orig idx p : ℕ)
    (b' : KeyValue)
    → put_loop fuel c dest key h orig idx ≡ some (c'.buckets, at p)
    → get_elem? c'.buckets p ≡ some b'
    → (b'.key_hash == 0) ≡ false
    → holds_key c' key h b' ≡ some true
    → ((i : ℕ) (b : KeyValue)
        → get_elem? dest i ≡ some b
        → is_free b ≡ false
        → holds_key c key h b ≡ some false
        → holds_key c' key h b ≡ some false)
    → find_loop fuel c' key h orig idx ≡ some (at p)
unfolding put_loop find_loop
find_loop-put_loop zero c c' dest key h orig idx p b' e now nonzero held' keeps = cc
find_loop-put_loop (suc fuel) c c' dest key h orig idx p b' e now nonzero held' keeps =
    let placed = put_loop-Placed (suc fuel) c dest key h orig idx p c'.buckets e in
    let len = Placed-length c dest c'.buckets key h p placed in
    elim (Option-cases (get_elem? dest idx)) [
      | inl nowhere ↦ let bad = rw nowhere at e in cc
      | inr (b, here) ↦ elim (Bool-cases (is_free b)) [
        | inl free ↦
            let e' = rw (here, free) at e in let ep : idx ≡ p = cc in rw (ep, now, nonzero, held')
        | inr used ↦
            let still = Placed-keeps c dest c'.buckets key h p idx b placed here used in
            let not_empty = used-not_empty b used in
            elim (Option-cases (holds_key c key h b)) [
              | inl failed ↦ let bad = rw (here, used, failed) at e in cc
              | inr (same, held) ↦ elim (Bool-cases same) [
                | inl equal ↦
                    let e' = rw (here, used, held, equal) at e in
                    let ep : idx ≡ p = cc in rw (ep, now, nonzero, held')
                | inr other ↦
                    let held_no = keeps idx b here used (held ∙ ap some other) in
                    elim (Bool-cases (next_index idx (length dest) == orig)) [
                      | inl back ↦ let bad = rw (here, used, held, other, back) at e in cc
                      | inr on ↦
                          let rest =
                            find_loop-put_loop fuel c c' dest key h orig
                              (next_index idx (length dest)) p b'
                              (rw (here, used, held, other, on) at e) now nonzero held' keeps in
                          rw (still, not_empty, held_no, len, on, rest)
                    ]
              ]
            ]
      ]
    ]
