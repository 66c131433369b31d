-- ===== src/Protocol/Binary/Schemas.antt =====
-- The schema part of protocol/binary_protocol.cpp.
pub mod Stream
pub mod RoundTrip
pub mod Sound
use boutique.Common.{
  ℕ, zero, suc, ◌++◌, [], Bytes, Option, none, some, length, leb, ◌==◌, if◌then◌else◌,
}
use boutique.Core.Serialize.{read_uint, read_string, write_uint, write_string}
use boutique.Db.Schema.{
  FieldType, AggregateType, Schema, bool_type, uint8_type, uint16_type, uint32_type, uint64_type,
  int8_type, int16_type, int32_type, int64_type, float32_type, float64_type, string_type,
  aggregate_type, no_fields, field, field_count,
}
use boutique.Protocol.Read.{Reader, incomplete, ◌>>=◌, bind, pure, reject, require}

-- field.type.index(); core/type_index.hpp computes the same numbers for the reader
unfoldable pub type_index : FieldType → ℕ
type_index bool_type = 0
type_index uint8_type = 1
type_index uint16_type = 2
type_index uint32_type = 3
type_index uint64_type = 4
type_index int8_type = 5
type_index int16_type = 6
type_index int32_type = 7
type_index int64_type = 8
type_index float32_type = 9
type_index float64_type = 10
type_index (string_type capacity) = 11
type_index (aggregate_type agg) = 12

-- the cases of the `switch` that read nothing more
unfoldable pub primitive_type : ℕ → Option FieldType
primitive_type index =
    if index == 0
    then some bool_type
    else if index == 1
    then some uint8_type
    else if index == 2
    then some uint16_type
    else if index == 3
    then some uint32_type
    else if index == 4
    then some uint64_type
    else if index == 5
    then some int8_type
    else if index == 6
    then some int16_type
    else if index == 7
    then some int32_type
    else if index == 8
    then some int64_type
    else if index == 9
    then some float32_type
    else if index == 10
    then some float64_type
    else none

-- the `switch` on the type's index, over the reader of a nested aggregate
unfoldable pub read_case : Reader AggregateType → ℕ → Option FieldType → Reader FieldType
read_case nested index (some type) = pure type
read_case nested index none =
    if index == 11
    then (do capacity ← require (read_uint 4); pure (string_type capacity))
    else if index == 12
    then (do agg ← nested; pure (aggregate_type agg))
    else reject

unfoldable pub read_type : Reader AggregateType → ℕ → Reader FieldType
unfolding primitive_type read_case
read_type nested index = read_case nested index (primitive_type index)

-- The loop over `field_count` fields. A field takes bytes of the buffer, so fuel for each byte that
-- is left is enough; without bytes the next field's name is incomplete, as it is without fuel.
unfoldable pub read_fields : ℕ → ℕ → Reader AggregateType
read_fields fuel zero = pure no_fields
read_fields zero (suc n) = λ c. incomplete
read_fields (suc fuel) (suc n) = do
  name ← require read_string
  index ← require (read_uint 1)
  type ← read_type (require (read_uint 4) >>= read_fields fuel) index
  rest ← read_fields fuel n
  pure (field name type rest)

-- read(ConstBuffer&, AggregateType&)
unfoldable pub read_aggregate : Reader AggregateType
unfolding read_fields
read_aggregate c = bind (require (read_uint 4) c) (read_fields (length c))

-- the test on the key's index
unfoldable pub check_key : AggregateType → ℕ → Reader Schema
check_key agg key_field_index =
    if leb (field_count agg) key_field_index
    then reject
    else pure (record { fields = agg; key_field_index = key_field_index })

-- read(ConstBuffer&, Schema&)
unfoldable pub read_schema : Reader Schema
read_schema = do
  agg ← read_aggregate
  key_field_index ← require (read_uint 4)
  check_key agg key_field_index

unfoldable mutual
  -- the `std::visit` on a field's type
  pub write_type : FieldType → Bytes
  write_type (string_type capacity) = write_uint 4 capacity
  write_type (aggregate_type agg) = write_uint 4 (field_count agg) ++ write_fields agg
  write_type _ = []

  -- the loop over the fields
  pub write_fields : AggregateType → Bytes
  write_fields no_fields = []
  write_fields (field name type rest) =
      write_string name
      ++ (write_uint 1 (type_index type) ++ (write_type type ++ write_fields rest))

-- write(WriteFn, const AggregateType&)
unfoldable pub write_aggregate : AggregateType → Bytes
unfolding write_fields
write_aggregate agg = write_uint 4 (field_count agg) ++ write_fields agg

-- write(WriteFn, const Schema&)
unfoldable pub write_schema : Schema → Bytes
write_schema s = write_aggregate s.fields ++ write_uint 4 s.key_field_index
