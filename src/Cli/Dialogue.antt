-- ===== src/Cli/Dialogue.antt =====
-- The part of `main` in cli/main.cpp that defines a schema from the lines that are typed. `std::stoul`
-- is a parameter, with `none` for an exception.
pub mod Defines
use boutique.Common.{
  ℕ, zero, suc, Bool, Option, none, some, List, [], ◌∷◌, Bytes, bytes_eq, if◌then◌else◌,
}
use boutique.Db.Schema.{
  FieldType, AggregateType, Schema, bool_type, uint8_type, uint16_type, uint32_type, uint64_type,
  int8_type, int16_type, int32_type, int64_type, float32_type, float64_type, string_type,
  aggregate_type, no_fields, field, field_type?,
}
use boutique.Db.Database.{lookup}

-- "end" and "aggregate"
abbrev pub end_line : Bytes
end_line = 101 ∷ 110 ∷ 100 ∷ []

abbrev pub aggregate_line : Bytes
aggregate_line = 97 ∷ 103 ∷ 103 ∷ 114 ∷ 101 ∷ 103 ∷ 97 ∷ 116 ∷ 101 ∷ []

-- for_each_primitive_type_name: "bool", "uint8" to "uint64", "int8" to "int64", "float32", "float64"
-- and "string", whose capacity is asked for
abbrev pub primitive_type_names : List (Bytes × FieldType)
primitive_type_names =
    (98 ∷ 111 ∷ 111 ∷ 108 ∷ [], bool_type)
    ∷ (117 ∷ 105 ∷ 110 ∷ 116 ∷ 56 ∷ [], uint8_type)
    ∷ (117 ∷ 105 ∷ 110 ∷ 116 ∷ 49 ∷ 54 ∷ [], uint16_type)
    ∷ (117 ∷ 105 ∷ 110 ∷ 116 ∷ 51 ∷ 50 ∷ [], uint32_type)
    ∷ (117 ∷ 105 ∷ 110 ∷ 116 ∷ 54 ∷ 52 ∷ [], uint64_type)
    ∷ (105 ∷ 110 ∷ 116 ∷ 56 ∷ [], int8_type)
    ∷ (105 ∷ 110 ∷ 116 ∷ 49 ∷ 54 ∷ [], int16_type)
    ∷ (105 ∷ 110 ∷ 116 ∷ 51 ∷ 50 ∷ [], int32_type)
    ∷ (105 ∷ 110 ∷ 116 ∷ 54 ∷ 52 ∷ [], int64_type)
    ∷ (102 ∷ 108 ∷ 111 ∷ 97 ∷ 116 ∷ 51 ∷ 50 ∷ [], float32_type)
    ∷ (102 ∷ 108 ∷ 111 ∷ 97 ∷ 116 ∷ 54 ∷ 52 ∷ [], float64_type)
    ∷ (115 ∷ 116 ∷ 114 ∷ 105 ∷ 110 ∷ 103 ∷ [], string_type 0)
    ∷ []

-- schema.fields.emplace_back
unfoldable pub add_field : AggregateType → Bytes → FieldType → AggregateType
add_field no_fields name type = field name type no_fields
add_field (field name' type' rest) name type = field name' type' (add_field rest name type)

-- the index of the first field with the name, or the number of fields
unfoldable pub index_of : AggregateType → Bytes → ℕ
index_of no_fields name = 0
index_of (field name' type rest) name = if bytes_eq name' name then 0 else suc (index_of rest name)

-- what the next line answers: a field's name, its type, the name of its schema or its capacity, where
-- the field has the name, or the name of the key field
pub data Prompt : Type 0 where
  field_name : Prompt
  type_name : (name : Bytes) → Prompt
  subschema_name : (name : Bytes) → Prompt
  capacity : (name : Bytes) → Prompt
  key_name : Prompt

-- what a line leads to: the next prompt with the fields there are, an exception, or the schema
pub data Answered : Type 0 where
  asks : AggregateType → Prompt → Answered
  threw : Answered
  defined : Schema → Answered

-- a name in the list of primitive types
unfoldable pub on_primitive : AggregateType → Bytes → Option FieldType → Answered
unfolding add_field
on_primitive agg name none = asks agg field_name
on_primitive agg name (some (string_type c)) = asks agg (capacity name)
on_primitive agg name (some type) = asks (add_field agg name type) field_name

-- a name in the cached schemas
unfoldable pub on_subschema : AggregateType → Bytes → Option Schema → Answered
unfolding add_field
on_subschema agg name none = asks agg field_name
on_subschema agg name (some s) = asks (add_field agg name (aggregate_type s.fields)) field_name

-- a string's capacity, or an exception
unfoldable pub on_capacity : AggregateType → Bytes → Option ℕ → Answered
unfolding add_field
on_capacity agg name none = threw
on_capacity agg name (some n) = asks (add_field agg name (string_type n)) field_name

-- the name of the key field: whether there is such a field, and its type
unfoldable pub on_key : AggregateType → ℕ → Option FieldType → Answered
on_key agg index none = asks agg key_name
on_key agg index (some (aggregate_type sub)) = asks agg key_name
on_key agg index (some type) = defined (record { fields = agg; key_field_index = index })

-- "end"
unfoldable pub on_end : AggregateType → Answered
on_end no_fields = asks no_fields field_name
on_end (field name type rest) = asks (field name type rest) key_name

-- what is done with an answer, where `lines` are left
unfoldable pub after_line :
    (AggregateType → Prompt → Option (Option (Schema × List Bytes)))
    → List Bytes
    → Answered
    → Option (Option (Schema × List Bytes))
after_line again lines (asks agg prompt) = again agg prompt
after_line again lines threw = some none
after_line again lines (defined s) = some (some (s, lines))

module _ (stoul : Bytes → Option ℕ) (schemas : List (Bytes × Schema)) where
  unfoldable pub on_line : AggregateType → Prompt → Bytes → Answered
  unfolding on_primitive on_key on_end on_subschema on_capacity
  on_line agg field_name str =
      if bytes_eq str end_line then on_end agg else asks agg (type_name str)
  on_line agg (type_name name) str =
      if bytes_eq str aggregate_line
      then asks agg (subschema_name name)
      else on_primitive agg name (lookup str primitive_type_names)
  on_line agg (subschema_name name) str = on_subschema agg name (lookup str schemas)
  on_line agg (capacity name) str = on_capacity agg name (stoul str)
  on_line agg key_name str =
      let index = index_of agg str in on_key agg index (field_type? agg index)

  -- The two loops over the lines that are typed: the schema and the lines behind it. The outer `none`
  -- is that they wait for more, and the inner one an exception.
  unfoldable pub define_schema :
      AggregateType → Prompt → List Bytes → Option (Option (Schema × List Bytes))
  define_schema agg prompt [] = none
  define_schema agg prompt (line ∷ lines) =
      after_line (λ agg' prompt'. define_schema agg' prompt' lines) lines (on_line agg prompt line)
