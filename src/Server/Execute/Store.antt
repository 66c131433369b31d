-- ===== src/Server/Execute/Store.antt =====
-- What the server is for, said without indexes and bytes of storage: collections by name, each a
-- finite map from keys to documents, and what each command does to them.
pub mod Tables
pub mod Acts
use boutique.Common.{
  Bool, true, false, Option, none, some, List, [], ◌∷◌, Bytes, bytes_eq, if◌then◌else◌,
}
use boutique.Core.Serialize.{bind_option}
use boutique.Db.Schema.{Schema}
use boutique.Db.Collection
use boutique.Db.Collection.{key_buffer}
use boutique.Db.Collection.Contents.{with_doc, without_doc}
use boutique.Db.Collection.Reached.{Contents}
use boutique.Protocol.Messages.{Command, Response}

-- a collection: its schema, whether a delete was among its commands, and its documents
pub record Table : Type 0 where
  pub schema : Schema
  pub removed : Bool
  pub docs : Contents

pub record Store : Type 0 where
  pub schemas : Bytes → Option Schema
  pub tables : Bytes → Option Table

abbrev pub no_store : Store
no_store = record { schemas = λ q. none; tables = λ q. none }

abbrev pub with_entry {ℓ} : {V : Type ℓ} → (Bytes → Option V) → Bytes → V → Bytes → Option V
with_entry m name v q = if bytes_eq name q then some v else m q

-- the key of a document, where the schema puts it
unfoldable pub key_of : Schema → Bytes → Option Bytes
key_of s value = bind_option (Collection.new s) λ c. key_buffer c.key_kind c.key_offset value

-- the store after a command, and the responses
abbrev pub Act : Type 0
Act = Store × List Response

abbrev pub with_table : Store → Bytes → Table → Store
with_table w name t = record w { tables = with_entry w.tables name t }

abbrev pub act_create : Store → Bytes → Option Schema → Act
act_create w name none = (w, Response.not_found ∷ [])
act_create w name (some s) = (
  with_table w name (record { schema = s; removed = false; docs = λ q. none }),
  Response.success ∷ [],
)

abbrev pub act_get_schema : Store → Option Schema → Act
act_get_schema w none = (w, Response.not_found ∷ [])
act_get_schema w (some s) = (w, Response.schema s ∷ [])

abbrev pub act_get_collection_schema : Store → Option Table → Act
act_get_collection_schema w none = (w, Response.not_found ∷ [])
act_get_collection_schema w (some t) = (w, Response.schema t.schema ∷ [])

abbrev pub found_or_not : Option Bytes → List Response
found_or_not none = Response.not_found ∷ []
found_or_not (some doc) = Response.found doc ∷ []

abbrev pub act_get : Store → Bytes → Option Table → Act
act_get w key none = (w, Response.not_found ∷ [])
act_get w key (some t) = (w, found_or_not (t.docs key))

-- a value without a key is not stored and not answered
abbrev pub act_store : Store → Bytes → Table → Bytes → Option Bytes → Act
act_store w name t value none = (w, [])
act_store w name t value (some key) =
    (with_table w name (record t { docs = with_doc t.docs key value }), Response.success ∷ [])

abbrev pub act_put : Store → Bytes → Bytes → Option Table → Act
act_put w name value none = (w, Response.not_found ∷ [])
act_put w name value (some t) = act_store w name t value (key_of t.schema value)

abbrev pub act_delete : Store → Bytes → Bytes → Option Table → Act
act_delete w name key none = (w, Response.not_found ∷ [])
act_delete w name key (some t) = (
  with_table w name (record t { removed = true; docs = without_doc t.docs key }),
  Response.success ∷ [],
)

-- What a command does.
unfoldable pub act : Store → Command → Act
act w Command.no_command = (w, [])
act w (Command.register_schema name s) =
    (record w { schemas = with_entry w.schemas name s }, Response.success ∷ [])
act w (Command.create_collection name schema_name) = act_create w name (w.schemas schema_name)
act w (Command.get_schema name) = act_get_schema w (w.schemas name)
act w (Command.get_collection_schema name) = act_get_collection_schema w (w.tables name)
act w (Command.get name key) = act_get w key (w.tables name)
act w (Command.put name value) = act_put w name value (w.tables name)
act w (Command.delete name key) = act_delete w name key (w.tables name)
