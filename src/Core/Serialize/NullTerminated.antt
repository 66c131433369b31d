-- ===== src/Core/Serialize/NullTerminated.antt =====
-- Strings that end with a zero byte, of core/serialize.cpp. Here the cursor keeps its length apart
-- from the bytes that are there, since the reader moves the two by different amounts.
use boutique.Common.{
  ℕ, ◌+◌, ◌-◌, ◌%◌, ◌^◌, ◌<◌, ◌≡◌, refl, ap, false, Option, none, some, [], ◌∷◌, ◌++◌, append_assoc,
  arith, Bytes, length, length-append, ◌==◌, if◌then◌else◌,
}
use boutique.Core.Serialize.{bind_option}

-- ConstBuffer: the bytes from `data` on, to the end of the memory behind it, and `len`
pub record Cursor : Type 0 where
  pub bytes : Bytes
  pub len : ℕ

-- The `while`: the bytes before the first zero, and those behind it; `none` reads out of bounds.
unfoldable pub until_zero : Bytes → Option (Bytes × Bytes)
until_zero [] = none
until_zero (b ∷ bs) =
    let rest = until_zero bs in
    if b == 0 then some ([], bs) else bind_option rest λ r. some (b ∷ r.0, r.1)

-- read<NullTerminatedString>
unfoldable pub read_null_terminated : Cursor → Option (Bytes × Cursor)
unfolding until_zero
read_null_terminated c =
    bind_option (until_zero c.bytes)
      λ r. some (r.0, record { bytes = r.1; len = (c.len + 2 ^ 64 - length r.0) % 2 ^ 64 })

-- write(NullTerminatedString)
unfoldable pub write_null_terminated : Bytes → Bytes
write_null_terminated s = s ++ 0 ∷ []

-- No byte is zero.
abbrev pub AreNonZero : Bytes → Type 0
AreNonZero [] = Unit
AreNonZero (b ∷ bs) = ((b == 0) ≡ false) × AreNonZero bs

until_zero-append : (s rest : Bytes) → AreNonZero s → until_zero (s ++ 0 ∷ rest) ≡ some (s, rest)
unfolding until_zero
until_zero-append [] rest h = refl
until_zero-append (b ∷ s) rest h = rw (h.0, until_zero-append s rest h.1)

-- A written string without zero bytes is read back from a buffer, but the cursor's length is then one
-- more than the bytes that are left of the buffer.
pub read_null_terminated-write_null_terminated :
    (s rest : Bytes)
    → AreNonZero s
    → length (write_null_terminated s ++ rest) < 2 ^ 64
    → read_null_terminated (record {
      bytes = write_null_terminated s ++ rest;
      len = length (write_null_terminated s ++ rest);
    })
      ≡ some (s, record { bytes = rest; len = length rest + 1 })
unfolding read_null_terminated write_null_terminated
read_null_terminated-write_null_terminated s rest h small =
    let whole : (s ++ 0 ∷ []) ++ rest ≡ s ++ 0 ∷ rest = append_assoc s (0 ∷ []) rest in
    let len : length (s ++ 0 ∷ rest) ≡ length s + (length rest + 1) =
      omega (arith, length-append s (0 ∷ rest)) in
    let small' : length s + (length rest + 1) < 2 ^ 64 =
      omega (arith, small, ap length whole, len) in
    let left : (length s + (length rest + 1) + 2 ^ 64 - length s) % 2 ^ 64 ≡ length rest + 1 =
      omega (arith, small') in
    rw (whole, until_zero-append s rest h, len, left) refl
