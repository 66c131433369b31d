-- ===== src/Core/Bits.antt =====
-- Masks of machine words: `x & (n - 1)` for a power of two `n`, and `x & ~(a - 1)`.
use Prim.Native.Nat.{digits, bit_and-bitwise}
use native.Mathlib.Nat.{pow-suc, div-add-mod, mod-lt, mod-eq_of_lt, add-mul-mod_self_right}
use mathlib.Core.Path.{ap, ◌≡⟨◌⟩◌, ◌∎}
use boutique.Common.{
  ℕ, zero, suc, ◌+◌, ◌-◌, ◌*◌, ◌/◌, ◌%◌, ◌^◌, ◌≤◌, ◌<◌, ◌≡◌, refl, min, bit_and, arith,
}

-- the digits of a conjunction, on fuel
abbrev conj : ℕ → ℕ → ℕ → ℕ
conj fuel x y = digits (λ d. zero) min fuel x y

conj_fuel : (f g x y : ℕ) → x ≤ f → x ≤ g → conj f x y ≡ conj g x y
conj_fuel zero zero x y hf hg = refl
conj_fuel zero (suc g) zero y hf hg = refl
conj_fuel zero (suc g) (suc x) y hf hg = absurd (omega arith)
conj_fuel (suc f) zero zero y hf hg = refl
conj_fuel (suc f) zero (suc x) y hf hg = absurd (omega arith)
conj_fuel (suc f) (suc g) zero y hf hg = refl
conj_fuel (suc f) (suc g) (suc x) y hf hg =
    let half = conj_fuel f g (suc x / 2) (y / 2) (omega arith) (omega arith) in omega (arith, half)

bit_and-zero_left : (y : ℕ) → bit_and 0 y ≡ 0
bit_and-zero_left y = bit_and-bitwise 0 y

-- the lowest digit apart
bit_and_digit : (x y : ℕ) → bit_and x y ≡ bit_and (x / 2) (y / 2) * 2 + min (x % 2) (y % 2)
bit_and_digit zero y = omega (arith, bit_and-zero_left y, bit_and-zero_left (y / 2))
bit_and_digit (suc x) y =
    let whole = bit_and-bitwise (suc x) y in
    let half = bit_and-bitwise (suc x / 2) (y / 2) in
    let fuels = conj_fuel x (suc x / 2) (suc x / 2) (y / 2) (omega arith) (omega arith) in
    omega (arith, whole, half, fuels)

bit_and-zero_right_fuel : (n x : ℕ) → x ≤ n → bit_and x 0 ≡ 0
bit_and-zero_right_fuel n zero h = bit_and-zero_left 0
bit_and-zero_right_fuel zero (suc x) h = absurd (omega arith)
bit_and-zero_right_fuel (suc n) (suc x) h =
    omega (arith, bit_and_digit (suc x) 0, bit_and-zero_right_fuel n (suc x / 2) (omega arith))

bit_and-zero_right : (x : ℕ) → bit_and x 0 ≡ 0
bit_and-zero_right x = bit_and-zero_right_fuel x x (omega arith)

pow_pos : (k : ℕ) → 1 ≤ 2 ^ k
pow_pos zero = omega arith
pow_pos (suc k) = omega (arith, pow_pos k, pow-suc 2 k)

half_mask : (k : ℕ) → ((2 ^ suc k - 1) / 2 ≡ 2 ^ k - 1) × ((2 ^ suc k - 1) % 2 ≡ 1)
half_mask k = (omega (arith, pow_pos k, pow-suc 2 k), omega (arith, pow_pos k, pow-suc 2 k))

-- x % 2m, from the parity and the half
mod_double : (x m : ℕ) → 1 ≤ m → x % (m * 2) ≡ (x / 2) % m * 2 + x % 2
mod_double x m h =
    let q = x / 2 / m in
    let low = (x / 2) % m * 2 + x % 2 in
    let split : x ≡ low + q * (m * 2) = omega (arith, div-add-mod (x / 2) m) in
    let small : low < m * 2 = omega (arith, mod-lt (x / 2) h) in
    x % (m * 2)
    ≡⟨ ap (λ y. y % (m * 2)) split ⟩ (low + q * (m * 2)) % (m * 2)
    ≡⟨ add-mul-mod_self_right low q (m * 2) ⟩ low % (m * 2)
    ≡⟨ mod-eq_of_lt small ⟩ low ∎

mod_pow : (k x : ℕ) → x % 2 ^ suc k ≡ (x / 2) % 2 ^ k * 2 + x % 2
mod_pow k x = rw (pow-suc 2 k) (mod_double x (2 ^ k) (pow_pos k))

-- A mask of the k low bits is the remainder by 2 ^ k.
pub bit_and-mask : (k x : ℕ) → bit_and x (2 ^ k - 1) ≡ x % 2 ^ k
bit_and-mask zero x = omega (arith, bit_and-zero_right x)
bit_and-mask (suc k) x =
    let (half, odd) = half_mask k in
    let ih = bit_and-mask k (x / 2) in
    let step = bit_and_digit x (2 ^ suc k - 1) in
    omega (arith, mod_pow k x, rw (half, odd, ih) at step)

high_half :
    (k n : ℕ)
    → k ≤ n
    → ((2 ^ suc n - 2 ^ suc k) / 2 ≡ 2 ^ n - 2 ^ k) × ((2 ^ suc n - 2 ^ suc k) % 2 ≡ 0)
high_half k n h = (omega (arith, pow-suc 2 n, pow-suc 2 k), omega (arith, pow-suc 2 n, pow-suc 2 k))

-- A mask of all but the k low bits of an n-bit word takes the remainder by 2 ^ k away.
pub bit_and-high_mask : (k n x : ℕ) → k ≤ n → x < 2 ^ n → bit_and x (2 ^ n - 2 ^ k) ≡ x - x % 2 ^ k
bit_and-high_mask zero n x h small = omega (arith, bit_and-mask n x, mod-eq_of_lt small)
bit_and-high_mask (suc k) zero x h small = absurd (omega arith)
bit_and-high_mask (suc k) (suc n) x h small =
    let (half, even) = high_half k n (omega arith) in
    let ih = bit_and-high_mask k n (x / 2) (omega arith) (omega (arith, pow-suc 2 n)) in
    let step = bit_and_digit x (2 ^ suc n - 2 ^ suc k) in
    omega (arith, mod_pow k x, rw (half, even, ih) at step)
