-- ===== src/Db/Layout/Within.antt =====
-- Every field lies within its aggregate, although the padding may move an offset back.
use boutique.Common.{ℕ, zero, suc, ◌+◌, ◌%◌, ◌≤◌, ◌≡◌, sym, ap, ◌∙◌, some, arith, max}
use native.Mathlib.Nat.{mod-eq_of_lt}
use boutique.Core.Serialize.{bind_option-eq-some}
use boutique.Db.Schema.{
  FieldType, AggregateType, string_type, aggregate_type, no_fields, field, field_type?,
}
use boutique.Db.Layout.{
  word, alignment, max_alignment, align_offset, size, end_offset, offset_from, offset,
  aggregate_size,
}
use boutique.Db.Layout.Align.{alignment-IsAlignment, align_offset-near}

unfoldable mutual
  -- no less than the size of a type, with room for the padding
  pub span : FieldType → ℕ
  span (string_type capacity) = 4 + capacity
  span (aggregate_type agg) = spans agg
  span _ = 8

  pub spans : AggregateType → ℕ
  spans no_fields = 0
  spans (field name type rest) = span type + 8 + spans rest

-- a field of `s` bytes behind `start`
record Ends (start a s m w : ℕ) : Type 0 where
  no_wrap : (align_offset start a + s) % word ≡ align_offset start a + s
  grows : start ≤ align_offset start a + s
  above : max m a ≤ align_offset start a + s
  below : align_offset start a + s ≤ start + w + 7

field-Ends :
    (t : FieldType) (start a s m w : ℕ)
    → alignment t ≡ some a
    → a ≤ s
    → s ≤ w
    → m ≤ start
    → start + w + 8 ≤ word
    → Ends start a s m w
field-Ends t start a s m w ea le le' m_le small =
    let (low, high) =
      align_offset-near start a (alignment-IsAlignment t a ea) (omega (arith, small)) in
    record {
      no_wrap = mod-eq_of_lt (omega (arith, high, le', small));
      grows = omega (arith, low, le);
      above = omega (arith, low, le, m_le);
      below = omega (arith, high, le');
    }

mutual
  unfolding alignment size span

  size_bounds :
      (t : FieldType) (a s : ℕ)
      → alignment t ≡ some a
      → size t ≡ some s
      → span t + 8 ≤ word
      → (a ≤ s) × (s ≤ span t)
  size_bounds (string_type capacity) a s ea es small =
      let whole : (4 + capacity) % word ≡ 4 + capacity = mod-eq_of_lt (omega (arith, small)) in
      ground (arith, whole)
  size_bounds (aggregate_type no_fields) a s ea es small = cc
  size_bounds (aggregate_type (field name type rest)) a s ea es small =
      let (x, y, z) =
        end_bounds (field name type rest) 0 0 a s ea es (omega arith) (omega (arith, small)) in
      (x, omega (arith, z))
  size_bounds _ a s ea es small = ground arith

  end_bounds :
      (agg : AggregateType) (m start a e : ℕ)
      → max_alignment agg m ≡ some a
      → end_offset agg start ≡ some e
      → m ≤ start
      → start + spans agg + 8 ≤ word
      → (a ≤ e) × (start ≤ e) × (e ≤ start + spans agg)
  end_bounds no_fields m start a e ea ee m_le small = cc
  end_bounds (field name type no_fields) m start a e ea ee m_le small =
      let (b, eb, max_is) =
        bind_option-eq-some (alignment type) (λ b. max_alignment no_fields (max m b)) ea in
      let (s, es, last) =
        bind_option-eq-some (size type) (λ s. some ((align_offset start b + s) % word))
          (rw eb at ee) in
      let (le, le') = size_bounds type b s eb es (omega (arith, small)) in
      let f = field-Ends type start b s m (span type) eb le le' m_le (omega (arith, small)) in
      let is_a : max m b ≡ a = cc in
      let wrapped : (align_offset start b + s) % word ≡ e = cc in
      let is_e : align_offset start b + s ≡ e = sym f.no_wrap ∙ wrapped in
      (
        omega (arith, is_a, is_e, f.above),
        omega (arith, is_e, f.grows),
        omega (arith, is_e, f.below),
      )
  end_bounds (field name type (field name' type' rest)) m start a e ea ee m_le small =
      let more = field name' type' rest in
      let (b, eb, later) =
        bind_option-eq-some (alignment type) (λ b. max_alignment more (max m b)) ea in
      let (s, es, ends) =
        bind_option-eq-some (size type) (λ s. end_offset more ((align_offset start b + s) % word))
          (rw eb at ee) in
      let (le, le') = size_bounds type b s eb es (omega (arith, small)) in
      let f = field-Ends type start b s m (span type) eb le le' m_le (omega (arith, small)) in
      let (x, y, z) =
        end_bounds (field name' type' rest) (max m b) (align_offset start b + s) a e later
          (rw f.no_wrap at ends) f.above (omega (arith, small, f.below)) in
      (x, omega (arith, y, f.grows), omega (arith, z, f.below))

-- the end of a field, and the end of all
offset_from-within :
    (agg : AggregateType) (i m start a : ℕ) (t : FieldType) (o s e : ℕ)
    → max_alignment agg m ≡ some a
    → field_type? agg i ≡ some t
    → offset_from agg i start ≡ some o
    → size t ≡ some s
    → end_offset agg start ≡ some e
    → m ≤ start
    → start + spans agg + 8 ≤ word
    → o + s ≤ e
unfolding offset_from field_type? end_offset spans max_alignment
offset_from-within no_fields i m start a t o s e ea et eo es ee m_le small = cc
offset_from-within (field name type no_fields) zero m start a t o s e ea et eo es ee m_le small =
    let here : type ≡ t = cc in
    let es' : size type ≡ some s = ap size here ∙ es in
    let (b, eb, max_is) =
      bind_option-eq-some (alignment type) (λ b. max_alignment no_fields (max m b)) ea in
    let (le, le') = size_bounds type b s eb es' (omega (arith, small)) in
    let f = field-Ends type start b s m (span type) eb le le' m_le (omega (arith, small)) in
    let is_o : align_offset start b ≡ o = let eo' = rw eb at eo in cc in
    let wrapped : (align_offset start b + s) % word ≡ e = let ee' = rw (eb, es') at ee in cc in
    omega (arith, is_o, sym f.no_wrap ∙ wrapped)
offset_from-within (field name type (field name' type' rest)) zero m start a t o s e ea et eo es ee
      m_le small =
    let more = field name' type' rest in
    let here : type ≡ t = cc in
    let es' : size type ≡ some s = ap size here ∙ es in
    let (b, eb, later) =
      bind_option-eq-some (alignment type) (λ b. max_alignment more (max m b)) ea in
    let (le, le') = size_bounds type b s eb es' (omega (arith, small)) in
    let f = field-Ends type start b s m (span type) eb le le' m_le (omega (arith, small)) in
    let is_o : align_offset start b ≡ o = let eo' = rw eb at eo in cc in
    let (x, y, z) =
      end_bounds more (max m b) (align_offset start b + s) a e later (rw (eb, es', f.no_wrap) at ee)
        f.above (omega (arith, small, f.below)) in
    omega (arith, is_o, y)
offset_from-within (field name type no_fields) (suc i) m start a t o s e ea et eo es ee m_le small =
    cc
offset_from-within (field name type (field name' type' rest)) (suc i) m start a t o s e ea et eo es
      ee m_le small =
    let more = field name' type' rest in
    let (b, eb, later) =
      bind_option-eq-some (alignment type) (λ b. max_alignment more (max m b)) ea in
    let (w, ew, eo') =
      bind_option-eq-some (size type) (λ w. offset_from more i ((align_offset start b + w) % word))
        (rw eb at eo) in
    let (le, le') = size_bounds type b w eb ew (omega (arith, small)) in
    let f = field-Ends type start b w m (span type) eb le le' m_le (omega (arith, small)) in
    offset_from-within (field name' type' rest) i (max m b) (align_offset start b + w) a t o s e
      later et (rw f.no_wrap at eo') es (rw (eb, ew, f.no_wrap) at ee) f.above
      (omega (arith, small, f.below))

-- a size has alignments
end_offset-max_alignment :
    (agg : AggregateType) (start m e : ℕ)
    → end_offset agg start ≡ some e
    → (a : ℕ) × (max_alignment agg m ≡ some a)
unfolding size alignment
end_offset-max_alignment no_fields start m e ee = cc
end_offset-max_alignment (field name type no_fields) start m e ee =
    let (b, eb, _) = bind_option-eq-some (alignment type) _ ee in (max m b, rw eb)
end_offset-max_alignment (field name type (field name' type' rest)) start m e ee =
    let (b, eb, ee') = bind_option-eq-some (alignment type) _ ee in
    let (s, es, ee'') = bind_option-eq-some (size type) _ ee' in
    let (a, ea) = end_offset-max_alignment (field name' type' rest) _ (max m b) e ee'' in
    (a, rw eb ea)

-- Every field of an aggregate that has a size ends within it, although the padding may move an offset
-- back, where the sizes of the fields, with eight bytes each for the padding, do not reach 2 ^ 64.
pub offset-aggregate_size :
    (agg : AggregateType) (i : ℕ) (t : FieldType) (o s e : ℕ)
    → field_type? agg i ≡ some t
    → offset agg i ≡ some o
    → size t ≡ some s
    → aggregate_size agg ≡ some e
    → spans agg + 8 ≤ word
    → o + s ≤ e
unfolding offset aggregate_size
offset-aggregate_size agg i t o s e et eo es ee small =
    let (a, ea) = end_offset-max_alignment agg 0 0 e ee in
    offset_from-within agg i 0 0 a t o s e ea et eo es ee (omega arith) (omega (arith, small))
