-- ===== src/Core/Serialize/Laws.antt =====
-- What is written is read back, what is read was written, and bytes that follow change nothing.
use native.Mathlib.Nat.{pow-suc}
use boutique.Common.{
  ℕ, zero, suc, ◌+◌, ◌*◌, ◌/◌, ◌%◌, ◌^◌, ◌<◌, ◌≡◌, refl, sym, ap, some, [], ◌∷◌, ◌++◌, append_assoc,
  arith, Bytes, IsBytes, length, take, drop, ltb, le→ltb_false, Bool-cases, inl, inr, length-append,
  length-take, take-append-drop, take-length_append, drop-length_append, IsBytes-append,
  Option-cases,
}
use boutique.Core.Serialize.{
  bind_option, little_endian, read_uint, read_prefixed, read_string, write_uint, write_string,
  prefix_size,
}

pub length-write_uint : (width v : ℕ) → length (write_uint width v) ≡ width
unfolding write_uint
length-write_uint zero v = refl
length-write_uint (suc width) v = ap suc (length-write_uint width (v / 256))

pub little_endian-write_uint :
    (width v : ℕ) → v < 256 ^ width → little_endian (write_uint width v) ≡ v
unfolding write_uint little_endian
little_endian-write_uint zero v h = omega arith
little_endian-write_uint (suc width) v h =
    omega (arith, little_endian-write_uint width (v / 256) (omega (arith, pow-suc 256 width)))

pub write_uint-little_endian :
    (bs : Bytes) → IsBytes bs → write_uint (length bs) (little_endian bs) ≡ bs
unfolding write_uint little_endian
write_uint-little_endian [] h = refl
write_uint-little_endian (b ∷ bs) h =
    let low : (b + 256 * little_endian bs) % 256 ≡ b = omega (arith, h.0) in
    let high : (b + 256 * little_endian bs) / 256 ≡ little_endian bs = omega (arith, h.0) in
    rw (low, high, write_uint-little_endian bs h.1)

pub little_endian-lt : (bs : Bytes) → IsBytes bs → little_endian bs < 256 ^ length bs
unfolding little_endian
little_endian-lt [] h = omega arith
little_endian-lt (b ∷ bs) h = omega (arith, h.0, little_endian-lt bs h.1, pow-suc 256 (length bs))

pub read_uint-append :
    (width : ℕ) (p rest : Bytes)
    → length p ≡ width
    → read_uint width (p ++ rest) ≡ some (little_endian p, rest)
unfolding read_uint
read_uint-append width p rest e = rw (
  ← e,
  le→ltb_false (length (p ++ rest)) (length p) (omega (arith, length-append p rest)),
  take-length_append,
  drop-length_append,
)

-- A successful read of an integer, in terms of the bytes read.
pub read_uint-eq-some :
    (width : ℕ) (c : Bytes) {v : ℕ} {r : Bytes}
    → read_uint width c ≡ some (v, r)
    → (p : Bytes) × (length p ≡ width) × (c ≡ p ++ r) × (v ≡ little_endian p) × (p ≡ take width c)
unfolding read_uint
read_uint-eq-some width c {r} e = elim (Bool-cases (ltb (length c) width)) [
  | inl short ↦ cc (rw short at e)
  | inr enough ↦
      let found : some (little_endian (take width c), drop width c) ≡ some (_, r) =
        rw enough at e in
      let rest : drop width c ≡ r = cc in
      (
        take width c,
        ground (arith, length-take width c),
        sym (rw rest at (take-append-drop width c)),
        (cc),
        refl,
      )
]

-- A read of what was written gives the value and what follows.
pub read_uint-write_uint :
    (width v : ℕ) (rest : Bytes)
    → v < 256 ^ width
    → read_uint width (write_uint width v ++ rest) ≡ some (v, rest)
read_uint-write_uint width v rest h = rw (
  read_uint-append width (write_uint width v) rest (length-write_uint width v),
  little_endian-write_uint width v h,
)

pub read_uint-stable :
    (width : ℕ) (c more : Bytes) {v : ℕ} {r : Bytes}
    → read_uint width c ≡ some (v, r)
    → read_uint width (c ++ more) ≡ some (v, r ++ more)
read_uint-stable width c more {r} e =
    let (p, len, split, value, _) = read_uint-eq-some width c e in
    rw (split, append_assoc, read_uint-append width p (r ++ more) len, value)

pub read_uint_sound :
    (width : ℕ) (c : Bytes) {v : ℕ} {r : Bytes}
    → IsBytes c
    → read_uint width c ≡ some (v, r)
    → (c ≡ write_uint width v ++ r) × (v < 256 ^ width) × IsBytes r
read_uint_sound width c {r} bytes e =
    let (p, len, split, value, _) = read_uint-eq-some width c e in
    let (in_p, in_r) = IsBytes-append p r (rw split at bytes) in
    let whole : write_uint width (little_endian p) ≡ p =
      rw (← len) (write_uint-little_endian p in_p) in
    (rw (value, whole) split, rw (value, ← len) (little_endian-lt p in_p), in_r)

-- the same three for strings, from the form of a read
pub read_string-append :
    (p s rest : Bytes)
    → length p ≡ prefix_size
    → little_endian p ≡ length s
    → read_string (p ++ (s ++ rest)) ≡ some (s, rest)
unfolding read_string read_prefixed
read_string-append p s rest len value = rw (
  le→ltb_false (length (p ++ (s ++ rest))) prefix_size (omega (arith, length-append p (s ++ rest))),
  read_uint-append prefix_size p (s ++ rest) len,
  value,
  le→ltb_false (length (s ++ rest)) (length s) (omega (arith, length-append s rest)),
  take-length_append,
  drop-length_append,
)

read_prefixed-eq-some :
    (len : ℕ) (c : Bytes) {s r : Bytes}
    → read_prefixed (len, c) ≡ some (s, r)
    → (length s ≡ len) × (c ≡ s ++ r)
unfolding read_prefixed
read_prefixed-eq-some len c {s} {r} e = elim (Bool-cases (ltb (length c) len)) [
  | inl short ↦ cc (rw short at e)
  | inr enough ↦
      let found : some (take len c, drop len c) ≡ some (s, r) = rw enough at e in
      let head : take len c ≡ s = cc in
      let rest : drop len c ≡ r = cc in
      (
        rw (← head) (ground (arith, length-take len c)),
        sym (rw (head, rest) at (take-append-drop len c)),
      )
]

pub read_string-eq-some :
    (c : Bytes) {s r : Bytes}
    → read_string c ≡ some (s, r)
    → (p : Bytes) × (length p ≡ prefix_size) × (c ≡ p ++ (s ++ r)) × (little_endian p ≡ length s)
unfolding read_string
read_string-eq-some c {s} {r} e = elim (Bool-cases (ltb (length c) prefix_size)) [
  | inl short ↦ cc (rw short at e)
  | inr enough ↦
      let found : bind_option (read_uint prefix_size c) read_prefixed ≡ some (s, r) =
        rw enough at e in
      elim (Option-cases (read_uint prefix_size c)) [
        | inl failed ↦ cc (rw failed at found)
        | inr ((len, c'), prefix) ↦
            let (p, wide, split, value, _) = read_uint-eq-some prefix_size c prefix in
            let (counted, rest) = read_prefixed-eq-some len c' (rw prefix at found) in
            (p, wide, rw (← rest) split, cc)
      ]
]

-- A read of a written string gives the string and what follows.
pub read_string-write_string :
    (s rest : Bytes) → length s < 2 ^ 32 → read_string (write_string s ++ rest) ≡ some (s, rest)
unfolding write_string
read_string-write_string s rest h = rw append_assoc (
    read_string-append (write_uint prefix_size (length s)) s rest
      (length-write_uint prefix_size (length s))
      (little_endian-write_uint prefix_size (length s) (omega arith)))

pub read_string-stable :
    (c more : Bytes) {s r : Bytes}
    → read_string c ≡ some (s, r)
    → read_string (c ++ more) ≡ some (s, r ++ more)
read_string-stable c more {s} {r} e =
    let (p, len, split, value) = read_string-eq-some c e in
    rw (split, append_assoc, append_assoc) (read_string-append p s (r ++ more) len value)

pub read_string_sound :
    (c : Bytes) {s r : Bytes}
    → IsBytes c
    → read_string c ≡ some (s, r)
    → (c ≡ write_string s ++ r) × (length s < 2 ^ 32) × IsBytes r
unfolding write_string
read_string_sound c {s} {r} bytes e =
    let (p, len, split, value) = read_string-eq-some c e in
    let (in_p, in_sr) = IsBytes-append p (s ++ r) (rw split at bytes) in
    let whole : write_uint prefix_size (length s) ≡ p =
      rw (← value, ← len) (write_uint-little_endian p in_p) in
    let bound : little_endian p < 256 ^ length p = little_endian-lt p in_p in
    (rw (whole, append_assoc) split, rw (← value) (rw len at bound), (IsBytes-append s r in_sr).1)
