-- ===== src/Tests/Layouts.antt =====
-- The layout of schemas, on the user of db/test_main.cpp and on a schema whose fields overlap.
use boutique.Common.{◌≡◌, ◌≢◌, ◌⊎◌, ◌↔◌, ◌≤◌, ◌%◌, ◌+◌, ◌*◌, ℕ, refl, arith, some, []}
use boutique.Db.Schema.{
  AggregateType, no_fields, field, field_type?, uint8_type, uint64_type, int64_type, string_type,
}
use boutique.Db.Layout.{align_offset, end_offset, size, alignment, offset, aggregate_size}
use boutique.Db.Layout.Within.{spans, offset-aggregate_size}
use boutique.Db.Layout.Offsets.{
  offset-aligned, offset-disjoint_iff, layout_total, AreInhabited, IsInhabited,
}

abbrev user : AggregateType
user = field [] uint64_type (field [] (string_type 3) (field [] int64_type no_fields))

abbrev overlapping : AggregateType
overlapping = field [] uint8_type (field [] uint64_type no_fields)

-- three times 8 bytes, where the string takes 4 for its length and 3
aggregate_size-user : aggregate_size user ≡ some 24
unfolding aggregate_size end_offset alignment align_offset
aggregate_size-user = refl

-- both fields at the start
offset-overlapping : offset overlapping 1 ≡ some 0
unfolding offset alignment size align_offset
offset-overlapping = refl

offset-aligned_example : (a : ℕ) × (alignment int64_type ≡ some a) × (16 % a ≡ 0)
unfolding field_type? offset alignment size align_offset
offset-aligned_example = offset-aligned user 2 int64_type 16 refl refl

offset-disjoint_iff_example : (0 + 1 ≤ 0) ↔ (((0 + 1) % 8 ≡ 0) ⊎ (8 ≤ 2 * ((0 + 1) % 8)))
unfolding field_type? offset size alignment align_offset
offset-disjoint_iff_example =
    offset-disjoint_iff overlapping 0 uint8_type uint64_type 0 0 1 8 refl refl refl refl refl refl
      (omega arith)

user_ne : user ≢ no_fields
user_ne e = cc

layout_total_example :
    ((s : ℕ) × (aggregate_size user ≡ some s)) × ((o : ℕ) × (offset user 2 ≡ some o))
unfolding boutique.Db.Layout.Offsets.AreInhabited boutique.Db.Layout.Offsets.IsInhabited
    boutique.Db.Schema.field_count
layout_total_example = layout_total user 2 user_ne (tt, (tt, (tt, tt))) (omega arith)

-- the first field, over which the second one lies
offset-aggregate_size_example : 0 + 1 ≤ 8
unfolding field_type? offset size alignment align_offset aggregate_size end_offset spans
offset-aggregate_size_example =
    offset-aggregate_size overlapping 0 uint8_type 0 1 8 refl refl refl refl (omega arith)
