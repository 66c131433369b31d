-- ===== src/Db/Schema.antt =====
-- The types of db/schema.hpp. `AggregateType` is `std::vector<Field>`; a `Field` is a name and a
-- type, which the constructor `field` holds beside the fields that follow.
use boutique.Common.{ℕ, zero, suc, ◌<◌, ◌^◌, Option, none, some, Bytes, length}

mutual
  pub data FieldType : Type 0 where
    bool_type : FieldType
    uint8_type : FieldType
    uint16_type : FieldType
    uint32_type : FieldType
    uint64_type : FieldType
    int8_type : FieldType
    int16_type : FieldType
    int32_type : FieldType
    int64_type : FieldType
    float32_type : FieldType
    float64_type : FieldType
    string_type : ℕ → FieldType
    aggregate_type : AggregateType → FieldType

  pub data AggregateType : Type 0 where
    no_fields : AggregateType
    field : Bytes → FieldType → AggregateType → AggregateType

pub record Schema : Type 0 where
  pub fields : AggregateType
  pub key_field_index : ℕ

-- agg.size()
unfoldable pub field_count : AggregateType → ℕ
field_count no_fields = 0
field_count (field name type rest) = suc (field_count rest)

-- agg[i].type, where i is in range
unfoldable pub field_type? : AggregateType → ℕ → Option FieldType
field_type? no_fields i = none
field_type? (field name type rest) zero = some type
field_type? (field name type rest) (suc i) = field_type? rest i

-- The sizes that the protocol's 32-bit counts can carry.
unfoldable mutual
  pub FitsType : FieldType → Type 0
  FitsType (string_type capacity) = capacity < 2 ^ 32
  FitsType (aggregate_type agg) = (field_count agg < 2 ^ 32) × FitsFields agg
  FitsType _ = Unit

  pub FitsFields : AggregateType → Type 0
  FitsFields no_fields = Unit
  FitsFields (field name type rest) = (length name < 2 ^ 32) × FitsType type × FitsFields rest

abbrev pub FitsAggregate : AggregateType → Type 0
FitsAggregate agg = (field_count agg < 2 ^ 32) × FitsFields agg

-- A schema that the protocol carries whole: every count fits, and the key field is there.
abbrev pub FitsSchema : Schema → Type 0
FitsSchema s = FitsAggregate s.fields × (s.key_field_index < field_count s.fields)
