-- ===== src/Cli/Loop.antt =====
-- The `for (;;)` of `main` in cli/main.cpp: the commands that are typed, the caches of schemas, and what
-- an answer changes in them. The conversions of std are parameters, and what the system's calls
-- give is taken from a list; prompts are not modelled.
pub mod Caching
use boutique.Common.{
  ℕ, Bool, Option, none, some, List, [], ◌∷◌, ◌++◌, Bytes, bytes_eq, ◌==◌, length, if◌then◌else◌,
}
use boutique.Core.Serialize.{bind_option}
use boutique.Core.StreamBuf
use boutique.Core.StreamBuf.{StreamBuf}
use boutique.Db.Schema.{FieldType, Schema, no_fields, field_type?}
use boutique.Db.Database.{lookup, insert_or_assign}
use boutique.Protocol.Messages.{Command, Response}
use boutique.Protocol.Binary.{write_command}
use boutique.Cli.Exchange.{Shown, response, invalid_response, send_loop, receive_loop}
use boutique.Cli.Dialogue.{field_name, define_schema}
use boutique.Cli.Document.{Numbers, Typed, read_document, read_key}

-- "quit", "schema", "collection", "getschema", "colschema", "get", "delete" and "put"
abbrev pub quit_line : Bytes
quit_line = 113 ∷ 117 ∷ 105 ∷ 116 ∷ []

abbrev pub schema_line : Bytes
schema_line = 115 ∷ 99 ∷ 104 ∷ 101 ∷ 109 ∷ 97 ∷ []

abbrev pub collection_line : Bytes
collection_line = 99 ∷ 111 ∷ 108 ∷ 108 ∷ 101 ∷ 99 ∷ 116 ∷ 105 ∷ 111 ∷ 110 ∷ []

abbrev pub getschema_line : Bytes
getschema_line = 103 ∷ 101 ∷ 116 ∷ schema_line

abbrev pub colschema_line : Bytes
colschema_line = 99 ∷ 111 ∷ 108 ∷ schema_line

abbrev pub get_line : Bytes
get_line = 103 ∷ 101 ∷ 116 ∷ []

abbrev pub delete_line : Bytes
delete_line = 100 ∷ 101 ∷ 108 ∷ 101 ∷ 116 ∷ 101 ∷ []

abbrev pub put_line : Bytes
put_line = 112 ∷ 117 ∷ 116 ∷ []

-- `schemas` and `colschemas`
pub record Caches : Type 0 where
  pub schemas : List (Bytes × Schema)
  pub colschemas : List (Bytes × Schema)

-- What the lines of a command lead to, with the lines that are left: the end of the loop, its next
-- round, a command to send, an exception or a failed access, or that a line is waited for.
pub data NextCommand : Type 0 where
  quits : NextCommand
  again : List Bytes → NextCommand
  sends : Command → List Bytes → NextCommand
  threw : NextCommand
  waits : NextCommand

-- std::getline inside of a command
unfoldable pub with_line : List Bytes → (Bytes → List Bytes → NextCommand) → NextCommand
with_line [] f = waits
with_line (line ∷ lines) f = f line lines

unfoldable pub with_typed :
    {A : Type 0} → Typed (A × List Bytes) → (A → List Bytes → NextCommand) → NextCommand
with_typed none f = waits
with_typed (some none) f = threw
with_typed (some (some r)) f = f r.0 r.1

-- `found == colschemas.end()`
unfoldable pub with_cached : Option Schema → List Bytes → (Schema → NextCommand) → NextCommand
with_cached none lines f = again lines
with_cached (some s) lines f = f s

-- the type of the key field, where the index is in range
unfoldable pub with_key_type : Option FieldType → (FieldType → NextCommand) → NextCommand
with_key_type none f = threw
with_key_type (some type) f = f type

module _ (numbers : Numbers) (stoul : Bytes → Option ℕ) (c : Caches) where
  -- "get" and "delete"
  unfoldable pub key_command : (Bytes → Bytes → Command) → Bytes → List Bytes → NextCommand
  unfolding with_typed with_cached with_key_type
  key_command command coll_name lines = with_cached (lookup coll_name c.colschemas) lines λ s.
      with_key_type (field_type? s.fields s.key_field_index) λ type.
        with_typed (read_key numbers type lines) λ key lines'. sends (command coll_name key) lines'

  -- "put"
  unfoldable pub put_command : Bytes → List Bytes → NextCommand
  unfolding with_typed with_cached
  put_command coll_name lines = with_cached (lookup coll_name c.colschemas) lines λ s.
      with_typed (read_document numbers s lines)
        λ value lines'. sends (Command.put coll_name value) lines'

  -- the `if`s over the name of a command
  unfoldable pub on_command : Bytes → List Bytes → NextCommand
  unfolding with_line with_typed key_command put_command
  on_command str lines =
      if bytes_eq str schema_line
      then (with_line lines λ name lines'.
          with_typed (define_schema stoul c.schemas no_fields field_name lines')
            λ s lines''. sends (Command.register_schema name s) lines'')
      else if bytes_eq str collection_line
      then (with_line lines λ name lines'.
          with_line lines'
            λ schema_name lines''. sends (Command.create_collection name schema_name) lines'')
      else if bytes_eq str getschema_line
      then (with_line lines λ name lines'. sends (Command.get_schema name) lines')
      else if bytes_eq str colschema_line
      then (with_line lines λ name lines'. sends (Command.get_collection_schema name) lines')
      else if bytes_eq str get_line
      then with_line lines (key_command Command.get)
      else if bytes_eq str delete_line
      then with_line lines (key_command Command.delete)
      else if bytes_eq str put_line
      then with_line lines put_command
      else again lines

  -- a round, up to the command; the input ends where no line is left
  unfoldable pub next_command : List Bytes → NextCommand
  unfolding on_command
  next_command [] = quits
  next_command (str ∷ lines) =
      if length str == 0
      then again lines
      else if bytes_eq str quit_line
      then quits
      else on_command str lines

-- what a shown response to the command changes in the caches
unfoldable pub cache : Command → Shown → Caches → Caches
cache (Command.get_schema name) (response (Response.schema s)) c = record c {
  schemas = insert_or_assign name s c.schemas;
}
cache (Command.get_collection_schema name) (response (Response.schema s)) c = record c {
  colschemas = insert_or_assign name s c.colschemas;
}
cache cmd shown c = c

unfoldable pub cache_all : Command → List Shown → Caches → Caches
unfolding cache
cache_all cmd [] c = c
cache_all cmd (s ∷ shown) c = cache_all cmd shown (cache cmd s c)

-- What the calls of send and recv give in a round.
pub record Calls : Type 0 where
  pub sends : List ℕ
  pub recvs : List Bytes

-- The client between two rounds, with what it has sent and shown.
pub record ClientState : Type 0 where
  pub caches : Caches
  pub stream : StreamBuf
  pub lines : List Bytes
  pub sent : Bytes
  pub shown : List Shown

-- A command is sent and its response read, whether all of it was sent or not.
unfoldable pub exchange : ClientState → Calls → Command → List Bytes → Option ClientState
unfolding cache_all
exchange c calls cmd lines = bind_option (send_loop (write_command cmd) 0 calls.sends) λ went.
    bind_option (receive_loop (record { stream = c.stream; shown = [] }) calls.recvs) λ r.
      some (record {
        caches = cache_all cmd r.0.shown c.caches;
        stream = r.0.stream;
        lines = lines;
        sent = c.sent ++ went.0;
        shown = c.shown ++ r.0.shown;
      })

-- A round of the loop. The outer `none` is a failed assertion, an exception, or that it waits; the
-- inner one that the loop ends.
unfoldable pub after_next : ClientState → Calls → NextCommand → Option (Option ClientState)
unfolding exchange
after_next c calls quits = some none
after_next c calls (again lines) = some (some (record c { lines = lines }))
after_next c calls (sends cmd lines) = bind_option (exchange c calls cmd lines) λ c'. some (some c')
after_next c calls threw = none
after_next c calls waits = none

module _ (numbers : Numbers) (stoul : Bytes → Option ℕ) where
  unfoldable pub round : ClientState → Calls → Option (Option ClientState)
  unfolding after_next
  round c calls =
      if StreamBuf.empty c.stream
      then after_next c calls (next_command numbers stoul c.caches c.lines)
      else none

  -- the loop, over the calls of its rounds; it fails where they run out
  unfoldable pub main_loop : ClientState → List Calls → Option ClientState
  unfolding round
  main_loop c [] = none
  main_loop c (calls ∷ more) =
      bind_option (round c calls) λ r. elim r [ none ↦ some c | some c' ↦ main_loop c' more ]
