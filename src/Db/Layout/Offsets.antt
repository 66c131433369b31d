-- ===== src/Db/Layout/Offsets.antt =====
-- The offsets of the fields of an aggregate.
use boutique.Common.{
  ℕ, ap, ◌≢◌, zero, suc, ◌+◌, ◌*◌, ◌%◌, ◌≤◌, ◌<◌, ◌≡◌, refl, ◌⊎◌, ◌↔◌, Option, some, arith, max,
}
use native.Mathlib.Nat.{mod-eq_of_lt}
use boutique.Core.Serialize.{bind_option, bind_option-eq-some}
use boutique.Db.Schema.{
  FieldType, AggregateType, aggregate_type, bool_type, no_fields, field, field_type?, field_count,
}
use boutique.Db.Layout.{
  word, alignment, max_alignment, align_offset, size, end_offset, offset_from, offset,
  aggregate_size,
}
use boutique.Db.Layout.Align.{alignment-IsAlignment, align_offset-aligned, align_offset-le_iff}

-- the offset of the field after one at `o`
abbrev next_offset : ℕ → FieldType → FieldType → Option ℕ
next_offset o t u =
    bind_option (size t) λ s. bind_option (alignment u) λ a. some (align_offset ((o + s) % word) a)

-- Two rounds of the loop around field i.
offset_from-suc :
    (agg : AggregateType) (i start : ℕ) (t u : FieldType) (o : ℕ)
    → field_type? agg i ≡ some t
    → field_type? agg (suc i) ≡ some u
    → offset_from agg i start ≡ some o
    → offset_from agg (suc i) start ≡ next_offset o t u
unfolding offset_from field_type?
offset_from-suc no_fields i start t u o ht hu e = cc
offset_from-suc (field name type no_fields) zero start t u o ht hu e = cc
offset_from-suc (field name type (field name' type' rest)) zero start t u o ht hu e =
    let (a, ea, eo) = bind_option-eq-some (alignment type) (λ a. some (align_offset start a)) e in
    let same : align_offset start a ≡ o = cc in
    let here : type ≡ t = cc in let there : type' ≡ u = cc in rw (ea, same, here, there)
offset_from-suc (field name type rest) (suc i) start t u o ht hu e =
    let later = λ (a s : ℕ). offset_from rest i ((align_offset start a + s) % word) in
    let (a, ea, ea') =
      bind_option-eq-some (alignment type) (λ a. bind_option (size type) (later a)) e in
    let (s, es, es') = bind_option-eq-some (size type) (later a) ea' in
    rw (ea, es) (offset_from-suc rest i ((align_offset start a + s) % word) t u o ht hu es')

-- An offset is padded for its field.
offset_from-aligned :
    (agg : AggregateType) (i start : ℕ) (t : FieldType) (o : ℕ)
    → field_type? agg i ≡ some t
    → offset_from agg i start ≡ some o
    → (a : ℕ) × (alignment t ≡ some a) × (o % a ≡ 0)
unfolding offset_from field_type?
offset_from-aligned no_fields i start t o ht e = cc
offset_from-aligned (field name type rest) zero start t o ht e =
    let (a, ea, eo) = bind_option-eq-some (alignment type) (λ a. some (align_offset start a)) e in
    let same : align_offset start a ≡ o = cc in
    (a, (cc), rw (← same) (align_offset-aligned start a (alignment-IsAlignment type a ea)))
offset_from-aligned (field name type rest) (suc i) start t o ht e =
    let later = λ (a s : ℕ). offset_from rest i ((align_offset start a + s) % word) in
    let (a, ea, ea') =
      bind_option-eq-some (alignment type) (λ a. bind_option (size type) (later a)) e in
    let (s, es, es') = bind_option-eq-some (size type) (later a) ea' in
    offset_from-aligned rest i ((align_offset start a + s) % word) t o ht es'

-- Every field of an aggregate that has an offset lies at a multiple of its type's alignment, whatever
-- the field types, also where the sums wrap.
pub offset-aligned :
    (agg : AggregateType) (i : ℕ) (t : FieldType) (o : ℕ)
    → field_type? agg i ≡ some t
    → offset agg i ≡ some o
    → (a : ℕ) × (alignment t ≡ some a) × (o % a ≡ 0)
unfolding offset
offset-aligned agg i t o ht e = offset_from-aligned agg i 0 t o ht e

-- Take a field at `o` of `s` bytes and the field after it, with alignment `a`, where the sums do
-- not wrap. The second begins at or after the end of the first exactly when that end is a multiple
-- of `a` or at least half an alignment past one.
pub offset-disjoint_iff :
    (agg : AggregateType) (i : ℕ) (t u : FieldType) (o o' s a : ℕ)
    → field_type? agg i ≡ some t
    → field_type? agg (suc i) ≡ some u
    → offset agg i ≡ some o
    → size t ≡ some s
    → alignment u ≡ some a
    → offset agg (suc i) ≡ some o'
    → o + s + 8 ≤ word
    → (o + s ≤ o') ↔ (((o + s) % a ≡ 0) ⊎ (a ≤ 2 * ((o + s) % a)))
unfolding offset
offset-disjoint_iff agg i t u o o' s a ht hu e es ea e' small =
    let next : next_offset o t u ≡ some (align_offset (o + s) a) =
      rw (es, ea) (ap (λ n. some (align_offset n a)) (mod-eq_of_lt (omega arith))) in
    let same : align_offset (o + s) a ≡ o' = cc (next, e', offset_from-suc agg i 0 t u o ht hu e) in
    rw (← same) (align_offset-le_iff (o + s) a (alignment-IsAlignment u a ea) small)

unfoldable mutual
  -- Every nested aggregate has a field, as the assertions demand.
  pub IsInhabited : FieldType → Type 0
  IsInhabited (aggregate_type no_fields) = ⊥
  IsInhabited (aggregate_type (field name type rest)) = IsInhabited type × AreInhabited rest
  IsInhabited _ = Unit

  pub AreInhabited : AggregateType → Type 0
  AreInhabited no_fields = Unit
  AreInhabited (field name type rest) = IsInhabited type × AreInhabited rest

mutual
  unfolding IsInhabited alignment

  alignment-some : (t : FieldType) → IsInhabited t → (a : ℕ) × (alignment t ≡ some a)
  alignment-some bool_type h = (_, refl)
  alignment-some (aggregate_type no_fields) h = absurd h
  alignment-some (aggregate_type (field name type rest)) h =
      let (a, ea) = alignment-some type h.0 in
      let (b, eb) = max_alignment-some rest (max 0 a) h.1 in (b, rw ea eb)
  alignment-some _ h = (_, refl)

  max_alignment-some :
      (agg : AggregateType) (m : ℕ) → AreInhabited agg → (a : ℕ) × (max_alignment agg m ≡ some a)
  max_alignment-some no_fields m h = (m, refl)
  max_alignment-some (field name type rest) m h =
      let (a, ea) = alignment-some type h.0 in
      let (b, eb) = max_alignment-some rest (max m a) h.1 in (b, rw ea eb)

mutual
  unfolding IsInhabited size

  size-some : (t : FieldType) → IsInhabited t → (s : ℕ) × (size t ≡ some s)
  size-some bool_type h = (_, refl)
  size-some (aggregate_type no_fields) h = absurd h
  size-some (aggregate_type (field name type rest)) h =
      end_offset-some (field name type rest) 0 (λ e. cc) h
  size-some _ h = (_, refl)

  end_offset-some :
      (agg : AggregateType) (start : ℕ)
      → agg ≢ no_fields
      → AreInhabited agg
      → (e : ℕ) × (end_offset agg start ≡ some e)
  end_offset-some no_fields start ne h = absurd (ne refl)
  end_offset-some (field name type no_fields) start ne h =
      let (a, ea) = alignment-some type h.0 in
      let (s, es) = size-some type h.0 in ((align_offset start a + s) % word, rw (ea, es))
  end_offset-some (field name type (field name' type' rest)) start ne h =
      let (a, ea) = alignment-some type h.0 in
      let (s, es) = size-some type h.0 in
      let (e, ee) =
        end_offset-some (field name' type' rest) ((align_offset start a + s) % word) (λ e. cc)
          h.1 in
      (e, rw (ea, es) ee)

offset_from-some :
    (agg : AggregateType) (i start : ℕ)
    → AreInhabited agg
    → i < field_count agg
    → (o : ℕ) × (offset_from agg i start ≡ some o)
unfolding IsInhabited offset_from field_count
offset_from-some no_fields i start h lt = absurd (omega arith)
offset_from-some (field name type rest) zero start h lt =
    let (a, ea) = alignment-some type h.0 in (align_offset start a, rw ea)
offset_from-some (field name type rest) (suc i) start h lt =
    let (a, ea) = alignment-some type h.0 in
    let (s, es) = size-some type h.0 in
    let (o, eo) = offset_from-some rest i ((align_offset start a + s) % word) h.1 (omega arith) in
    (o, rw (ea, es) eo)

-- No assertion of the layout fails on an aggregate with a field, in which every nested aggregate
-- has a field: it has a size, and an index in range has an offset.
pub layout_total :
    (agg : AggregateType) (i : ℕ)
    → agg ≢ no_fields
    → AreInhabited agg
    → i < field_count agg
    → ((s : ℕ) × (aggregate_size agg ≡ some s)) × ((o : ℕ) × (offset agg i ≡ some o))
unfolding aggregate_size offset
layout_total agg i ne h lt = (end_offset-some agg 0 ne h, offset_from-some agg i 0 h lt)
