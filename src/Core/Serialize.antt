-- ===== src/Core/Serialize.antt =====
-- core/serialize.hpp and core/serialize.cpp. A `ConstBuffer` (core/span.hpp) that a reader moves
-- forward is the list of the bytes that are left; a `WriteFn` appends, so what is written is a list.
-- `memcpy` of an integer is little-endian, as on the machines that the program targets.
pub mod Laws
pub mod NullTerminated
use boutique.Common.{
  ◌≡◌, refl, ℕ, zero, suc, ◌+◌, ◌*◌, ◌/◌, ◌%◌, Option, none, some, [], ◌∷◌, ◌++◌, Bytes, length,
  take, drop, ltb, if◌then◌else◌,
}

abbrev pub bind_option {ℓ κ} : {A : Type ℓ} {B : Type κ} → Option A → (A → Option B) → Option B
bind_option none f = none
bind_option (some a) f = f a

pub bind_option-eq-some {ℓ κ} :
    {A : Type ℓ} {B : Type κ} (o : Option A) (f : A → Option B) {b : B}
    → bind_option o f ≡ some b
    → (a : A) × (o ≡ some a) × (f a ≡ some b)
bind_option-eq-some none f e = cc
bind_option-eq-some (some a) f e = (a, refl, e)

-- the value of the bytes of an unsigned integer
unfoldable pub little_endian : Bytes → ℕ
little_endian [] = 0
little_endian (b ∷ bs) = b + 256 * little_endian bs

-- read<T> for an unsigned T of `width` bytes
unfoldable pub read_uint : ℕ → Bytes → Option (ℕ × Bytes)
unfolding little_endian
read_uint width c =
    if ltb (length c) width then none else some (little_endian (take width c), drop width c)

-- sizeof(LengthPrefixType)
abbrev pub prefix_size : ℕ
prefix_size = 4

-- the string of `len` bytes, once its prefix is read
unfoldable pub read_prefixed : ℕ × Bytes → Option (Bytes × Bytes)
read_prefixed (len, c) = if ltb (length c) len then none else some (take len c, drop len c)

-- read<LengthPrefixedString>. Where it fails the cursor may have moved over the prefix; the callers
-- then drop their copy of it.
unfoldable pub read_string : Bytes → Option (Bytes × Bytes)
unfolding read_prefixed
read_string c =
    if ltb (length c) prefix_size then none else bind_option (read_uint prefix_size c) read_prefixed

-- write(T), for an unsigned T of `width` bytes; the value is reduced to the type's range
unfoldable pub write_uint : ℕ → ℕ → Bytes
write_uint zero v = []
write_uint (suc width) v = (v % 256) ∷ write_uint width (v / 256)

-- write(LengthPrefixedString): the length is cast to 32 bits, the bytes are copied whole
unfoldable pub write_string : Bytes → Bytes
write_string s = write_uint prefix_size (length s) ++ s
