-- ===== src/Cli/Document.antt =====
-- read_field and read_aggregate of cli/main.cpp, and the commands get, delete and put of `main`: a
-- document or a key is made of the lines that are typed. The conversions of std are the parameter
-- `Numbers`; prompts are not modelled.
pub mod Values
pub mod Keys
pub mod Lengths
pub mod Writes
pub mod Whole
use boutique.Common.{
  ℕ, zero, suc, ◌+◌, Bool, Option, none, some, List, [], ◌∷◌, Bytes, bytes_eq, length, take, drop,
  replicate, ltb, if◌then◌else◌,
}
use boutique.Core.Serialize.{bind_option, little_endian, write_uint, write_string}
use boutique.Db.Schema.{
  FieldType, AggregateType, Schema, bool_type, uint8_type, uint16_type, uint32_type, uint64_type,
  int8_type, int16_type, int32_type, int64_type, float32_type, float64_type, string_type,
  aggregate_type, no_fields, field,
}
use boutique.Db.Layout.{size, offset, schema_size}
use boutique.Db.Storage
use boutique.Db.Collection.{slice}

-- std::stoull, std::stoll and std::stod, the last as a float and as a double: the bits of the number,
-- or `none` for an exception
pub record Numbers : Type 0 where
  pub stoull : Bytes → Option ℕ
  pub stoll : Bytes → Option ℕ
  pub float32 : Bytes → Option ℕ
  pub float64 : Bytes → Option ℕ

-- The outer `none` is that a line is waited for, and the inner one an exception or a failed assertion.
abbrev pub Typed : Type 0 → Type 0
Typed A = Option (Option A)

unfoldable pub and_then : {A B : Type 0} → Typed A → (A → Typed B) → Typed B
and_then none f = none
and_then (some none) f = some none
and_then (some (some a)) f = f a

-- "true"
abbrev pub true_line : Bytes
true_line = 116 ∷ 114 ∷ 117 ∷ 101 ∷ []

-- what is written for a line that is the value of a field, which is no aggregate
unfoldable pub value_bytes : Numbers → FieldType → Bytes → Option Bytes
value_bytes n bool_type value = some (write_uint 1 (if bytes_eq value true_line then 1 else 0))
value_bytes n uint8_type value = bind_option (n.stoull value) λ v. some (write_uint 1 v)
value_bytes n uint16_type value = bind_option (n.stoull value) λ v. some (write_uint 2 v)
value_bytes n uint32_type value = bind_option (n.stoull value) λ v. some (write_uint 4 v)
value_bytes n uint64_type value = bind_option (n.stoull value) λ v. some (write_uint 8 v)
value_bytes n int8_type value = bind_option (n.stoll value) λ v. some (write_uint 1 v)
value_bytes n int16_type value = bind_option (n.stoll value) λ v. some (write_uint 2 v)
value_bytes n int32_type value = bind_option (n.stoll value) λ v. some (write_uint 4 v)
value_bytes n int64_type value = bind_option (n.stoll value) λ v. some (write_uint 8 v)
value_bytes n float32_type value = bind_option (n.float32 value) λ v. some (write_uint 4 v)
value_bytes n float64_type value = bind_option (n.float64 value) λ v. some (write_uint 8 v)
value_bytes n (string_type cap) value =
    some (write_string (if ltb cap (length value) then take cap value else value))
value_bytes n (aggregate_type agg) value = none

-- the write at `dest`
unfoldable pub write_at : ℕ → Bytes → List Bytes → Option Bytes → Typed (Bytes × List Bytes)
write_at dest buf lines none = some none
write_at dest buf lines (some bytes) = some (some (Storage.overwrite dest bytes buf, lines))

-- std::getline, and the write
unfoldable pub read_value :
    Numbers → FieldType → ℕ → Bytes → List Bytes → Typed (Bytes × List Bytes)
unfolding write_at value_bytes
read_value n type dest buf [] = none
read_value n type dest buf (value ∷ lines) = write_at dest buf lines (value_bytes n type value)

unfoldable mutual
  unfolding read_value and_then

  pub read_field : Numbers → FieldType → ℕ → Bytes → List Bytes → Typed (Bytes × List Bytes)
  read_field n (aggregate_type agg) dest buf lines = read_fields n agg 0 agg dest buf lines
  read_field n type dest buf lines = read_value n type dest buf lines

  -- the loop of read_aggregate over the fields from field_index on
  pub read_fields :
      Numbers
      → AggregateType
      → ℕ
      → AggregateType
      → ℕ
      → Bytes
      → List Bytes
      → Typed (Bytes × List Bytes)
  read_fields n agg field_index no_fields dest buf lines = some (some (buf, lines))
  read_fields n agg field_index (field name type rest) dest buf lines =
      and_then (some (offset agg field_index)) λ o.
        and_then (read_field n type (dest + o) buf lines)
          λ r. read_fields n agg (field_index + 1) rest dest r.0 r.1

-- put: the bytes of the document
unfoldable pub read_document : Numbers → Schema → List Bytes → Typed (Bytes × List Bytes)
read_document n s lines =
    and_then (some (schema_size s))
      λ len. read_fields n s.fields 0 s.fields 0 (replicate len 0) lines

-- the key in the buffer: of a string, what follows its length
unfoldable pub key_in : FieldType → Bytes → Option Bytes
key_in (string_type cap) buf = slice buf 4 (little_endian (take 4 buf))
key_in type buf = some buf

-- get and delete: the bytes of the key, for the type of the key field
unfoldable pub read_key : Numbers → FieldType → List Bytes → Typed (Bytes × List Bytes)
read_key n type lines = and_then (some (size type)) λ len.
    and_then (read_field n type 0 (replicate len 0) lines)
      λ r. and_then (some (key_in type r.0)) λ key. some (some (key, r.1))
