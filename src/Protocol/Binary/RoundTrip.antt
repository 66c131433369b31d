-- ===== src/Protocol/Binary/RoundTrip.antt =====
-- A written command or response is read back.
use boutique.Common.{◌<◌, ◌^◌, ◌≡◌, refl, ◌++◌, append_assoc, arith, Bytes, length}
use boutique.Core.Serialize.{read_string, write_string}
use boutique.Core.Serialize.Laws.{read_uint-write_uint, read_string-write_string}
use boutique.Db.Schema.{FitsSchema}
use boutique.Protocol.Messages.{Command, Response}
use boutique.Protocol.Read.{success, ◌>>=◌, pure, require}
use boutique.Protocol.Binary.Schemas.{write_schema}
use boutique.Protocol.Binary.Schemas.RoundTrip.{read_schema-write_schema}
use boutique.Protocol.Binary.{
  read_command_body, read_command, read_response_body, read_response, command_index,
  write_command_body, write_command, response_index, write_response_body, write_response,
}

-- a string that the 32-bit length prefix can carry
abbrev pub FitsString : Bytes → Type 0
FitsString s = length s < 2 ^ 32

-- A command that the protocol carries: not `std::monostate`, and every part fits.
abbrev pub FitsCommand : Command → Type 0
FitsCommand Command.no_command = ⊥
FitsCommand (Command.register_schema name s) = FitsString name × FitsSchema s
FitsCommand (Command.create_collection name schema_name) = FitsString name × FitsString schema_name
FitsCommand (Command.get_schema name) = FitsString name
FitsCommand (Command.get_collection_schema name) = FitsString name
FitsCommand (Command.get coll_name key) = FitsString coll_name × FitsString key
FitsCommand (Command.put coll_name value) = FitsString coll_name × FitsString value
FitsCommand (Command.delete coll_name key) = FitsString coll_name × FitsString key

abbrev pub FitsResponse : Response → Type 0
FitsResponse Response.no_response = ⊥
FitsResponse (Response.found value) = FitsString value
FitsResponse (Response.string value) = FitsString value
FitsResponse (Response.schema s) = FitsSchema s
FitsResponse _ = Unit

command_index-lt : (cmd : Command) → command_index cmd < 256
unfolding command_index
command_index-lt Command.no_command = omega arith
command_index-lt _ = omega arith

response_index-lt : (res : Response) → response_index res < 256
unfolding response_index
response_index-lt Response.no_response = omega arith
response_index-lt _ = omega arith

-- two strings one after the other
two_strings {ℓ} :
    {A : Type ℓ} (f : Bytes → Bytes → A) (s t rest : Bytes)
    → FitsString s × FitsString t
    → (require read_string >>= λ a. require read_string >>= λ b. pure (f a b))
        ((write_string s ++ write_string t) ++ rest)
      ≡ success (f s t) rest
two_strings f s t rest fits = rw (
  append_assoc,
  read_string-write_string s (write_string t ++ rest) fits.0,
  read_string-write_string t rest fits.1,
)

one_string {ℓ} :
    {A : Type ℓ} (f : Bytes → A) (s rest : Bytes)
    → FitsString s
    → (require read_string >>= λ a. pure (f a)) (write_string s ++ rest) ≡ success (f s) rest
one_string f s rest fits = rw (read_string-write_string s rest fits)

read_command_body-write_command_body :
    (cmd : Command) (rest : Bytes)
    → FitsCommand cmd
    → read_command_body (command_index cmd) (write_command_body cmd ++ rest) ≡ success cmd rest
unfolding read_command_body command_index write_command_body
read_command_body-write_command_body Command.no_command rest fits = absurd fits
read_command_body-write_command_body (Command.register_schema name s) rest fits = rw (
  append_assoc,
  read_string-write_string name (write_schema s ++ rest) fits.0,
  read_schema-write_schema s rest fits.1,
)
read_command_body-write_command_body (Command.create_collection name schema_name) rest fits =
    two_strings Command.create_collection name schema_name rest fits
read_command_body-write_command_body (Command.get_schema name) rest fits =
    one_string Command.get_schema name rest fits
read_command_body-write_command_body (Command.get_collection_schema name) rest fits =
    one_string Command.get_collection_schema name rest fits
read_command_body-write_command_body (Command.get coll_name key) rest fits =
    two_strings Command.get coll_name key rest fits
read_command_body-write_command_body (Command.put coll_name value) rest fits =
    two_strings Command.put coll_name value rest fits
read_command_body-write_command_body (Command.delete coll_name key) rest fits =
    two_strings Command.delete coll_name key rest fits

-- A command whose names, values and counts fit 32 bits is read back from its written form, whatever
-- bytes follow, and the cursor stands at those.
pub read_command-write_command :
    (cmd : Command) (rest : Bytes)
    → FitsCommand cmd
    → read_command (write_command cmd ++ rest) ≡ success cmd rest
unfolding read_command write_command
read_command-write_command cmd rest fits =
    rw
      (
        append_assoc,
        read_uint-write_uint 1 (command_index cmd) (write_command_body cmd ++ rest)
            (omega (arith, command_index-lt cmd)),
      )
      (read_command_body-write_command_body cmd rest fits)

read_response_body-write_response_body :
    (res : Response) (rest : Bytes)
    → FitsResponse res
    → read_response_body (response_index res) (write_response_body res ++ rest) ≡ success res rest
unfolding read_response_body response_index write_response_body
read_response_body-write_response_body Response.no_response rest fits = absurd fits
read_response_body-write_response_body Response.success rest fits = refl
read_response_body-write_response_body Response.failed rest fits = refl
read_response_body-write_response_body Response.invalid_command rest fits = refl
read_response_body-write_response_body Response.not_found rest fits = refl
read_response_body-write_response_body (Response.found value) rest fits =
    one_string Response.found value rest fits
read_response_body-write_response_body (Response.string value) rest fits =
    one_string Response.string value rest fits
read_response_body-write_response_body (Response.schema s) rest fits =
    rw (read_schema-write_schema s rest fits)

-- A response whose parts fit 32 bits is read back from its written form, whatever bytes follow, and
-- the cursor stands at those.
pub read_response-write_response :
    (res : Response) (rest : Bytes)
    → FitsResponse res
    → read_response (write_response res ++ rest) ≡ success res rest
unfolding read_response write_response
read_response-write_response res rest fits =
    rw
      (
        append_assoc,
        read_uint-write_uint 1 (response_index res) (write_response_body res ++ rest)
            (omega (arith, response_index-lt res)),
      )
      (read_response_body-write_response_body res rest fits)
