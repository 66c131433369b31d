-- ===== src/Tests/Dialogues.antt =====
-- A schema with one field, and one with an aggregate, as they are typed.
use boutique.Common.{ℕ, ◌≡◌, ◌<◌, ◌^◌, refl, arith, Option, none, some, List, [], ◌∷◌, Bytes}
use boutique.Db.Schema.{
  Schema, no_fields, field, uint8_type, string_type, aggregate_type, field_count,
}
use boutique.Db.Layout.Offsets.{IsInhabited}
use boutique.Db.Collection
use boutique.Db.Collection.{Collection}
use boutique.Cli.Dialogue.{end_line, aggregate_line, field_name, define_schema}
use boutique.Cli.Dialogue.Defines.{define_schema-new}
use boutique.Cli.Document.{Numbers}
use boutique.Db.Collection.{string_key}

-- no line of these dialogues is a number
abbrev no_number : Bytes → Option ℕ
no_number str = none

abbrev letters : Schema
letters = record { fields = field (97 ∷ []) uint8_type no_fields; key_field_index = 0 }

abbrev cached : List (Bytes × Schema)
cached = (108 ∷ [], letters) ∷ []

-- a field "b" of the schema "l", a field "a" of type "uint8", and the key "b", which is refused, and "a"
abbrev typed : List Bytes
typed =
    (98 ∷ [])
    ∷ aggregate_line
    ∷ (108 ∷ [])
    ∷ (97 ∷ [])
    ∷ (117 ∷ 105 ∷ 110 ∷ 116 ∷ 56 ∷ [])
    ∷ end_line
    ∷ (98 ∷ [])
    ∷ (97 ∷ [])
    ∷ []

abbrev nested : Schema
nested = record {
  fields = field (98 ∷ []) (aggregate_type letters.fields) (field (97 ∷ []) uint8_type no_fields);
  key_field_index = 1;
}

define_nested : define_schema no_number cached no_fields field_name typed ≡ some (some (nested, []))
unfolding define_schema boutique.Cli.Dialogue.after_line boutique.Cli.Dialogue.on_line
    boutique.Common.bytes_eq boutique.Db.Database.lookup boutique.Db.Schema.field_type?
    boutique.Cli.Dialogue.index_of
define_nested = refl

define_schema-new_example :
    (nested.key_field_index < field_count nested.fields)
    × ((c : Collection) × (Collection.new nested ≡ some c))
unfolding IsInhabited
define_schema-new_example =
    define_schema-new no_number cached ((tt, tt), tt) typed [] nested define_nested

abbrev no_numbers : Numbers
no_numbers = record {
  stoull = no_number;
  stoll = no_number;
  float32 = no_number;
  float64 = no_number;
}
