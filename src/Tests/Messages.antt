-- ===== src/Tests/Messages.antt =====
-- The binary protocol, on small commands and responses.
use boutique.Common.{◌≡◌, ◌↔◌, ◌++◌, refl, arith, [], ◌∷◌}
use boutique.Db.Schema.{
  AggregateType, Schema, no_fields, field, uint8_type, string_type, FitsSchema,
}
use boutique.Protocol.Messages.{Command, Response}
use boutique.Protocol.Read.{success}
use boutique.Protocol.Binary.{read_command, read_response, write_command, write_response}
use boutique.Protocol.Binary.RoundTrip.{FitsCommand, FitsResponse}
use boutique.Protocol.Binary.Schemas.{read_schema, write_schema}
use boutique.Protocol.Binary.Schemas.RoundTrip.{read_schema-write_schema}
use boutique.Protocol.Binary.Stream.{read_command_stable}
use boutique.Protocol.Binary.Sound.{read_command-eq-success_iff, read_response-eq-success_iff}
use boutique.Protocol.Read.Laws.{Extends}

-- a name of one byte and a string of at most 3 bytes; the string is the key
abbrev small_schema : Schema
small_schema = record {
  fields = field (97 ∷ []) uint8_type (field [] (string_type 3) no_fields);
  key_field_index = 1;
}

small_schema_fits : FitsSchema small_schema
unfolding boutique.Db.Schema.FitsFields boutique.Db.Schema.field_count
small_schema_fits = ((omega arith, (omega arith, tt, (omega arith, omega arith, tt))), omega arith)

-- get the key 7 8 of the collection 99
abbrev get_cmd : Command
get_cmd = Command.get (99 ∷ []) (7 ∷ 8 ∷ [])

get_cmd_bytes : write_command get_cmd ≡ 5 ∷ 1 ∷ 0 ∷ 0 ∷ 0 ∷ 99 ∷ 2 ∷ 0 ∷ 0 ∷ 0 ∷ 7 ∷ 8 ∷ []
unfolding write_command boutique.Core.Serialize.write_uint boutique.Core.Serialize.write_string
get_cmd_bytes = refl

read_schema-write_schema_example :
    read_schema (write_schema small_schema ++ []) ≡ success small_schema []
read_schema-write_schema_example = read_schema-write_schema small_schema [] small_schema_fits

read_command_stable_example :
    Extends (3 ∷ []) (read_command (9 ∷ [])) (read_command ((9 ∷ []) ++ 3 ∷ []))
read_command_stable_example = read_command_stable (9 ∷ []) (3 ∷ [])

read_command-eq-success_iff_example :
    (read_command (3 ∷ 1 ∷ 0 ∷ 0 ∷ 0 ∷ 9 ∷ 4 ∷ []) ≡ success (Command.get_schema (9 ∷ [])) (4 ∷ []))
    ↔ ((3 ∷ 1 ∷ 0 ∷ 0 ∷ 0 ∷ 9 ∷ 4 ∷ [] ≡ write_command (Command.get_schema (9 ∷ [])) ++ 4 ∷ [])
        × FitsCommand (Command.get_schema (9 ∷ [])))
read_command-eq-success_iff_example =
    read_command-eq-success_iff (3 ∷ 1 ∷ 0 ∷ 0 ∷ 0 ∷ 9 ∷ 4 ∷ []) (4 ∷ [])
      (Command.get_schema (9 ∷ []))
      (
        omega arith,
        (
          omega arith,
          (omega arith, (omega arith, (omega arith, (omega arith, (omega arith, tt))))),
        ),
      )

read_response-eq-success_iff_example :
    (read_response (1 ∷ 4 ∷ []) ≡ success Response.success (4 ∷ []))
    ↔ ((1 ∷ 4 ∷ [] ≡ write_response Response.success ++ 4 ∷ []) × FitsResponse Response.success)
read_response-eq-success_iff_example =
    read_response-eq-success_iff (1 ∷ 4 ∷ []) (4 ∷ []) Response.success
      (omega arith, (omega arith, tt))
