-- ===== src/Protocol/Binary.antt =====
-- protocol/binary_protocol.cpp: the readers and the writers of schemas, commands and responses.
pub mod Schemas
pub mod RoundTrip
pub mod Sound
pub mod Stream
use boutique.Common.{ℕ, ◌++◌, [], Bytes, ◌==◌, if◌then◌else◌}
use boutique.Core.Serialize.{read_uint, read_string, write_uint, write_string}
use boutique.Db.Schema.{Schema}
use boutique.Protocol.Messages.{Command, Response}
use boutique.Protocol.Read.{Read, Reader, ◌>>=◌, pure, reject, require}
use Schemas.{read_schema, write_schema}

-- the bodies of the `switch` on the command's index
unfoldable pub read_command_body : ℕ → Reader Command
read_command_body cmd_type =
    if cmd_type == 1
    then (do name ← require read_string; s ← read_schema; pure (Command.register_schema name s))
    else if cmd_type == 2
    then (do
      name ← require read_string
      schema_name ← require read_string
      pure (Command.create_collection name schema_name))
    else if cmd_type == 3
    then (do name ← require read_string; pure (Command.get_schema name))
    else if cmd_type == 4
    then (do coll_name ← require read_string; pure (Command.get_collection_schema coll_name))
    else if cmd_type == 5
    then (do
      coll_name ← require read_string
      key ← require read_string
      pure (Command.get coll_name key))
    else if cmd_type == 6
    then (do
      coll_name ← require read_string
      value ← require read_string
      pure (Command.put coll_name value))
    else if cmd_type == 7
    then (do
      coll_name ← require read_string
      key ← require read_string
      pure (Command.delete coll_name key))
    else reject

-- read(ConstBuffer&, Command&)
unfoldable pub read_command : Reader Command
unfolding read_command_body
read_command = require (read_uint 1) >>= read_command_body

unfoldable pub read_response_body : ℕ → Reader Response
read_response_body res_type =
    if res_type == 1
    then pure Response.success
    else if res_type == 2
    then pure Response.failed
    else if res_type == 3
    then pure Response.invalid_command
    else if res_type == 4
    then pure Response.not_found
    else if res_type == 5
    then (do value ← require read_string; pure (Response.found value))
    else if res_type == 6
    then (do value ← require read_string; pure (Response.string value))
    else if res_type == 7
    then (do s ← read_schema; pure (Response.schema s))
    else reject

-- read(ConstBuffer&, Response&)
unfoldable pub read_response : Reader Response
unfolding read_response_body
read_response = require (read_uint 1) >>= read_response_body

-- cmd.index()
unfoldable pub command_index : Command → ℕ
command_index Command.no_command = 0
command_index (Command.register_schema name s) = 1
command_index (Command.create_collection name schema_name) = 2
command_index (Command.get_schema name) = 3
command_index (Command.get_collection_schema name) = 4
command_index (Command.get coll_name key) = 5
command_index (Command.put coll_name value) = 6
command_index (Command.delete coll_name key) = 7

unfoldable pub write_command_body : Command → Bytes
write_command_body Command.no_command = []
write_command_body (Command.register_schema name s) = write_string name ++ write_schema s
write_command_body (Command.create_collection name schema_name) =
    write_string name ++ write_string schema_name
write_command_body (Command.get_schema name) = write_string name
write_command_body (Command.get_collection_schema name) = write_string name
write_command_body (Command.get coll_name key) = write_string coll_name ++ write_string key
write_command_body (Command.put coll_name value) = write_string coll_name ++ write_string value
write_command_body (Command.delete coll_name key) = write_string coll_name ++ write_string key

-- write(WriteFn, const Command&)
unfoldable pub write_command : Command → Bytes
unfolding command_index write_command_body
write_command cmd = write_uint 1 (command_index cmd) ++ write_command_body cmd

-- res.index()
unfoldable pub response_index : Response → ℕ
response_index Response.no_response = 0
response_index Response.success = 1
response_index Response.failed = 2
response_index Response.invalid_command = 3
response_index Response.not_found = 4
response_index (Response.found value) = 5
response_index (Response.string value) = 6
response_index (Response.schema s) = 7

unfoldable pub write_response_body : Response → Bytes
write_response_body (Response.found value) = write_string value
write_response_body (Response.string value) = write_string value
write_response_body (Response.schema s) = write_schema s
write_response_body _ = []

-- write(WriteFn, const Response&)
unfoldable pub write_response : Response → Bytes
unfolding response_index write_response_body
write_response res = write_uint 1 (response_index res) ++ write_response_body res
