-- ===== src/Db/Layout/Align.antt =====
-- One step of the padding.
use boutique.Common.{
  ℕ, refl, ◌+◌, ◌-◌, ◌*◌, ◌%◌, ◌^◌, ◌≤◌, ◌≡◌, ◌⊎◌, ◌↔◌, inl, inr, some, arith, max,
}
use boutique.Core.Bits.{bit_and-high_mask}
use boutique.Core.Serialize.{bind_option-eq-some}
use boutique.Db.Schema.{FieldType, AggregateType, aggregate_type, bool_type, no_fields, field}
use boutique.Db.Layout.{word, alignment, max_alignment, align_offset}

-- the alignments that occur
abbrev pub IsAlignment : ℕ → Type 0
IsAlignment a = (a ≡ 1) ⊎ (a ≡ 2) ⊎ (a ≡ 4) ⊎ (a ≡ 8)

max-IsAlignment : (m a : ℕ) → (m ≡ 0) ⊎ IsAlignment m → IsAlignment a → IsAlignment (max m a)
max-IsAlignment m a hm ha = grind arith

mutual
  unfolding alignment

  alignment-IsAlignment_type : (t : FieldType) (a : ℕ) → alignment t ≡ some a → IsAlignment a
  alignment-IsAlignment_type bool_type a e = ground arith
  alignment-IsAlignment_type (aggregate_type no_fields) a e = cc
  alignment-IsAlignment_type (aggregate_type (field name type rest)) a e =
      let (b, e', more) =
        bind_option-eq-some (alignment type) (λ b. max_alignment rest (max 0 b)) e in
      max_alignment-IsAlignment rest (max 0 b) a
        (max-IsAlignment 0 b (inl refl) (alignment-IsAlignment_type type b e')) more
  alignment-IsAlignment_type _ a e = ground arith

  max_alignment-IsAlignment :
      (agg : AggregateType) (m a : ℕ) → IsAlignment m → max_alignment agg m ≡ some a → IsAlignment a
  max_alignment-IsAlignment no_fields m a hm e = ground arith
  max_alignment-IsAlignment (field name type rest) m a hm e =
      let (b, e', more) =
        bind_option-eq-some (alignment type) (λ b. max_alignment rest (max m b)) e in
      max_alignment-IsAlignment rest (max m b) a
        (max-IsAlignment m b (inr hm) (alignment-IsAlignment_type type b e')) more

-- Every alignment is 1, 2, 4 or 8.
pub alignment-IsAlignment : (t : FieldType) (a : ℕ) → alignment t ≡ some a → IsAlignment a
alignment-IsAlignment = alignment-IsAlignment_type

-- what holds of the four alignments holds of every one
by_alignment {ℓ} : (P : ℕ → Type ℓ) → P 1 → P 2 → P 4 → P 8 → (a : ℕ) → IsAlignment a → P a
by_alignment P h₁ h₂ h₄ h₈ a (inl e) = rw e h₁
by_alignment P h₁ h₂ h₄ h₈ a (inr (inl e)) = rw e h₂
by_alignment P h₁ h₂ h₄ h₈ a (inr (inr (inl e))) = rw e h₄
by_alignment P h₁ h₂ h₄ h₈ a (inr (inr (inr e))) = rw e h₈

-- the padding at 2 ^ k, sums that wrap included
align_at_power :
    (k offset : ℕ)
    → k ≤ 64
    → 1 ≤ 2 ^ k
    → 2 ^ k ≤ 2 ^ 64
    → align_offset offset (2 ^ k)
      ≡ (offset + offset % 2 ^ k) % word - (offset + offset % 2 ^ k) % word % 2 ^ k
unfolding align_offset
align_at_power k offset h pos fits =
    let total = (offset + offset % 2 ^ k) % word in
    let mask : 2 ^ 64 - 1 - (2 ^ k - 1) ≡ 2 ^ 64 - 2 ^ k = omega arith in
    rw mask (bit_and-high_mask k 64 total h (omega arith))

align_offset_lem :
    (offset a : ℕ)
    → IsAlignment a
    → align_offset offset a ≡ (offset + offset % a) % word - (offset + offset % a) % word % a
align_offset_lem offset a h =
    by_alignment
      (λ a. align_offset offset a ≡ (offset + offset % a) % word - (offset + offset % a) % word % a)
      (align_at_power 0 offset (omega arith) (omega arith) (omega arith))
      (align_at_power 1 offset (omega arith) (omega arith) (omega arith))
      (align_at_power 2 offset (omega arith) (omega arith) (omega arith))
      (align_at_power 3 offset (omega arith) (omega arith) (omega arith)) a h

-- A padded offset is a multiple of the alignment.
pub align_offset-aligned : (offset a : ℕ) → IsAlignment a → align_offset offset a % a ≡ 0
align_offset-aligned offset a h = rw (align_offset_lem offset a h) (
    by_alignment (λ a. ((offset + offset % a) % word - (offset + offset % a) % word % a) % a ≡ 0)
      (omega arith) (omega arith) (omega arith) (omega arith) a h)

-- The padding moves an offset up exactly when the offset is a multiple of the alignment or at least
-- half an alignment past one.
pub align_offset-le_iff :
    (offset a : ℕ)
    → IsAlignment a
    → offset + 8 ≤ word
    → (offset ≤ align_offset offset a) ↔ ((offset % a ≡ 0) ⊎ (a ≤ 2 * (offset % a)))
align_offset-le_iff offset a h small = rw (align_offset_lem offset a h) (
    by_alignment
      (λ a.
        (offset ≤ (offset + offset % a) % word - (offset + offset % a) % word % a)
        ↔ ((offset % a ≡ 0) ⊎ (a ≤ 2 * (offset % a))))
      (grind arith) (grind arith) (grind arith) (grind arith) a h)

-- A padded offset is no more than eight bytes up, and less than an alignment down.
pub align_offset-near :
    (offset a : ℕ)
    → IsAlignment a
    → offset + 8 ≤ word
    → (offset ≤ align_offset offset a + a) × (align_offset offset a ≤ offset + 7)
align_offset-near offset a h small = rw (align_offset_lem offset a h) (
    by_alignment
      (λ a.
        (offset ≤ (offset + offset % a) % word - (offset + offset % a) % word % a + a)
        × ((offset + offset % a) % word - (offset + offset % a) % word % a ≤ offset + 7))
      (omega arith, omega arith) (omega arith, omega arith) (omega arith, omega arith)
      (omega arith, omega arith) a h)
