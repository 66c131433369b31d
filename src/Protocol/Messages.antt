-- ===== src/Protocol/Messages.antt =====
-- protocol/messages.hpp. A `string_view` or a `ConstBuffer` into the receive buffer is its bytes.
use boutique.Common.{Bytes}
use boutique.Db.Schema.{Schema}

pub data Command : Type 0 where
  no_command : Command
  register_schema : (name : Bytes) (schema : Schema) → Command
  create_collection : (name schema_name : Bytes) → Command
  get_schema : (name : Bytes) → Command
  get_collection_schema : (name : Bytes) → Command
  get : (coll_name key : Bytes) → Command
  put : (coll_name value : Bytes) → Command
  delete : (coll_name key : Bytes) → Command

pub data Response : Type 0 where
  no_response : Response
  success : Response
  failed : Response
  invalid_command : Response
  not_found : Response
  found : (value : Bytes) → Response
  string : (value : Bytes) → Response
  schema : (schema : Schema) → Response
