-- ===== src/Protocol/Binary/Schemas/RoundTrip.antt =====
-- A written schema is read back.
use boutique.Common.{
  ℕ, zero, suc, ◌+◌, ◌≤◌, ◌<◌, ◌≡◌, refl, ◌++◌, append_assoc, arith, Bytes, length, length-append,
}
use boutique.Core.Serialize.{write_uint, write_string}
use boutique.Core.Serialize.Laws.{length-write_uint, read_uint-write_uint, read_string-write_string}
use boutique.Db.Schema.{
  FieldType, AggregateType, Schema, string_type, aggregate_type, no_fields, field, field_count,
  bool_type, FitsType, FitsFields, FitsAggregate, FitsSchema,
}
use boutique.Protocol.Read.{success}
use boutique.Protocol.Binary.Schemas.{
  type_index, primitive_type, read_type, read_fields, read_aggregate, check_key, read_schema,
  write_type, write_fields, write_aggregate, write_schema,
}
use boutique.Protocol.Binary.Schemas.Stream.{nested_reader}

length-append_bytes : (xs ys : Bytes) → length (xs ++ ys) ≡ length xs + length ys
length-append_bytes = length-append

ruleset lengths = (arith, length-append_bytes, length-write_uint)

length-write_string : (s : Bytes) → length (write_string s) ≡ 4 + length s
unfolding write_string
length-write_string s = omega (lengths, length-append_bytes (write_uint 4 (length s)) s)

type_index-lt : (t : FieldType) → type_index t < 256
unfolding type_index
type_index-lt bool_type = omega arith
type_index-lt _ = omega arith

mutual
  unfolding type_index primitive_type read_type read_fields write_type FitsType field_count

  read_type-write_type :
      (t : FieldType) (f : ℕ) (rest : Bytes)
      → FitsType t
      → length (write_type t) ≤ f
      → read_type (nested_reader f) (type_index t) (write_type t ++ rest) ≡ success t rest
  read_type-write_type (string_type capacity) f rest fits enough =
      rw (read_uint-write_uint 4 capacity rest (omega (arith, fits)))
  read_type-write_type (aggregate_type agg) f rest fits enough = simp (
    append_assoc,
    read_uint-write_uint 4 (field_count agg) (write_fields agg ++ rest) (omega (arith, fits.0)),
    read_fields-write_fields agg f rest fits.1 (omega lengths),
  )
  read_type-write_type bool_type f rest fits enough = refl
  read_type-write_type _ f rest fits enough = refl

  read_fields-write_fields :
      (agg : AggregateType) (f : ℕ) (rest : Bytes)
      → FitsFields agg
      → length (write_fields agg) ≤ f
      → read_fields f (field_count agg) (write_fields agg ++ rest) ≡ success agg rest
  read_fields-write_fields no_fields f rest fits enough = refl
  read_fields-write_fields (field name type more) zero rest fits enough =
      absurd (omega (lengths, length-write_string name))
  read_fields-write_fields (field name type more) (suc f) rest fits enough = simp (
    append_assoc,
    read_string-write_string name
        (write_uint 1 (type_index type) ++ (write_type type ++ (write_fields more ++ rest))) fits.0,
    read_uint-write_uint 1 (type_index type) (write_type type ++ (write_fields more ++ rest))
        (omega (arith, type_index-lt type)),
    read_type-write_type type f (write_fields more ++ rest) fits.1
        (omega (lengths, length-write_string name)),
    read_fields-write_fields more f rest fits.2 (omega (lengths, length-write_string name)),
  )

read_aggregate-write_aggregate :
    (agg : AggregateType) (rest : Bytes)
    → FitsAggregate agg
    → read_aggregate (write_aggregate agg ++ rest) ≡ success agg rest
unfolding read_aggregate write_aggregate
read_aggregate-write_aggregate agg rest fits =
    let body = write_fields agg ++ rest in
    let count = write_uint 4 (field_count agg) in
    simp (append_assoc, read_uint-write_uint 4 (field_count agg) body (omega (arith, fits.0)))
      (read_fields-write_fields agg (length (count ++ body)) rest fits.1 (omega lengths))

check_key-FitsSchema :
    (s : Schema) (rest : Bytes)
    → FitsSchema s
    → check_key s.fields s.key_field_index rest ≡ success s rest
unfolding check_key
check_key-FitsSchema s rest fits = ground arith

-- A schema whose counts fit 32 bits, with its key field in range, is read back from what is
-- written of it, and the cursor stands at what follows.
pub read_schema-write_schema :
    (s : Schema) (rest : Bytes)
    → FitsSchema s
    → read_schema (write_schema s ++ rest) ≡ success s rest
unfolding read_schema write_schema
read_schema-write_schema s rest fits =
    let key = write_uint 4 s.key_field_index in
    simp
      (
        append_assoc,
        read_aggregate-write_aggregate s.fields (key ++ rest) fits.0,
        read_uint-write_uint 4 s.key_field_index rest (omega (arith, fits.0.0, fits.1)),
      )
      (check_key-FitsSchema s rest fits)
