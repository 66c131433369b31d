-- ===== src/Db/Layout.antt =====
-- db/schema.cpp: alignment, size and offset of fields. `none` is a failed assertion (an aggregate
-- without fields, an index out of range). `sizeof` and `alignof` are those of the x86-64 ABI, and
-- `size_t` has 64 bits.
pub mod Align
pub mod Offsets
pub mod Within
use boutique.Common.{ℕ, zero, suc, ◌+◌, ◌-◌, ◌%◌, ◌^◌, max, bit_and, Option, none, some}
use boutique.Core.Serialize.{bind_option}
use boutique.Db.Schema.{
  FieldType, AggregateType, Schema, bool_type, uint8_type, uint16_type, uint32_type, uint64_type,
  int8_type, int16_type, int32_type, int64_type, float32_type, float64_type, string_type,
  aggregate_type, no_fields, field,
}

abbrev pub word : ℕ
word = 2 ^ 64

-- assert(!agg.empty())
abbrev pub assert_fields : AggregateType → Option ℕ → Option ℕ
assert_fields no_fields result = none
assert_fields (field name type rest) result = result

unfoldable mutual
  -- alignment(const FieldType&)
  pub alignment : FieldType → Option ℕ
  alignment bool_type = some 1
  alignment uint8_type = some 1
  alignment uint16_type = some 2
  alignment uint32_type = some 4
  alignment uint64_type = some 8
  alignment int8_type = some 1
  alignment int16_type = some 2
  alignment int32_type = some 4
  alignment int64_type = some 8
  alignment float32_type = some 4
  alignment float64_type = some 8
  alignment (string_type capacity) = some 4
  alignment (aggregate_type agg) = assert_fields agg (max_alignment agg 0)

  -- the loop of alignment(const AggregateType&), from `max_align`
  pub max_alignment : AggregateType → ℕ → Option ℕ
  max_alignment no_fields max_align = some max_align
  max_alignment (field name type rest) max_align =
      bind_option (alignment type) λ a. max_alignment rest (max max_align a)

-- alignment(const AggregateType&)
unfoldable pub aggregate_alignment : AggregateType → Option ℕ
aggregate_alignment agg = assert_fields agg (max_alignment agg 0)

-- `offset += (offset % a); offset &= ~(a - 1);`
unfoldable pub align_offset : ℕ → ℕ → ℕ
align_offset offset a = bit_and ((offset + offset % a) % word) (word - 1 - (a - 1))

unfoldable mutual
  -- size(const FieldType&)
  pub size : FieldType → Option ℕ
  size bool_type = some 1
  size uint8_type = some 1
  size uint16_type = some 2
  size uint32_type = some 4
  size uint64_type = some 8
  size int8_type = some 1
  size int16_type = some 2
  size int32_type = some 4
  size int64_type = some 8
  size float32_type = some 4
  size float64_type = some 8
  size (string_type capacity) = some ((4 + capacity) % word)
  size (aggregate_type agg) = end_offset agg 0

  -- The loop of `offset` run up to the last field, and the size of that field: this is
  -- size(const AggregateType&), offset(agg, agg.size() - 1) + size(agg.back().type).
  pub end_offset : AggregateType → ℕ → Option ℕ
  end_offset no_fields offset = none
  end_offset (field name type no_fields) offset =
      bind_option (alignment type)
        λ a. bind_option (size type) λ s. some ((align_offset offset a + s) % word)
  end_offset (field name type (field name' type' rest)) offset = bind_option (alignment type) λ a.
      bind_option (size type)
        λ s. end_offset (field name' type' rest) ((align_offset offset a + s) % word)

-- the loop of offset(const AggregateType&, field_index), from `offset`
unfoldable pub offset_from : AggregateType → ℕ → ℕ → Option ℕ
offset_from no_fields field_index offset = none
offset_from (field name type rest) zero offset =
    bind_option (alignment type) λ a. some (align_offset offset a)
offset_from (field name type rest) (suc field_index) offset = bind_option (alignment type) λ a.
    bind_option (size type) λ s. offset_from rest field_index ((align_offset offset a + s) % word)

-- offset(const AggregateType&, std::uint32_t)
unfoldable pub offset : AggregateType → ℕ → Option ℕ
unfolding offset_from
offset agg field_index = offset_from agg field_index 0

-- size(const AggregateType&)
unfoldable pub aggregate_size : AggregateType → Option ℕ
aggregate_size agg = end_offset agg 0

-- size(const Schema&), alignment(const Schema&), offset(const Schema&, std::uint32_t)
unfoldable pub schema_size : Schema → Option ℕ
unfolding aggregate_size
schema_size s = aggregate_size s.fields

unfoldable pub schema_alignment : Schema → Option ℕ
unfolding aggregate_alignment
schema_alignment s = aggregate_alignment s.fields

unfoldable pub schema_offset : Schema → ℕ → Option ℕ
unfolding offset
schema_offset s field_index = offset s.fields field_index
