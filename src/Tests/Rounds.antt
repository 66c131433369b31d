-- ===== src/Tests/Rounds.antt =====
-- A client that asks for the schema of a collection.
use boutique.Common.{
  ◌+◌, ◌<◌, ◌≤◌, zero, suc, bytes_eq, get_elem?, if◌then◌else◌, ℕ, ◌≡◌, ◌≢◌, refl, arith, true,
  false, Option, none, some, List, [], ◌∷◌, ◌++◌, Bytes, length,
}
use boutique.Core.StreamBuf
use boutique.Core.StreamBuf.Laws as StreamLaws
use boutique.Db.Schema.{Schema, field, no_fields, uint8_type}
use boutique.Db.Layout.{offset}
use boutique.Db.Storage
use boutique.Db.Collection
use boutique.Db.Collection.{Collection, plain_key}
use boutique.Db.Database.{Database}
use boutique.Protocol.Binary.{write_response, write_command}
use boutique.Server.Handler
use boutique.Server.Handler.Pieces.{sent_back}
use boutique.Cli.Exchange.{send_loop}
use boutique.Db.Layout.Within.{spans}
use boutique.Cli.Document.{Numbers, read_document}
use boutique.Cli.Document.Keys.{IsAgreed}
use boutique.Cli.Document.Whole.{read_document-IsAgreed}
use boutique.Cli.Document.Lengths.{read_document-new}
use boutique.Cli.Loop.{Caches, Calls, ClientState, colschema_line, quit_line, round}
use boutique.Cli.Loop.Caching.{Learns, round-empty, round-colschema}
use boutique.Tests.Tables.{hash, letters, no_letters, new-letters}

abbrev no_number : Bytes → Option ℕ
no_number str = none

abbrev no_numbers : Numbers
no_numbers = record {
  stoull = no_number;
  stoll = no_number;
  float32 = no_number;
  float64 = no_number;
}

abbrev server : Handler.Client
server = record {
  db = record { schemas = []; colls = (5 ∷ [], no_letters) ∷ [] };
  stream = StreamBuf.new;
  closed = false;
  sent = [];
  receiving = true;
}

abbrev client : ClientState
client = record {
  caches = record { schemas = []; colschemas = [] };
  stream = StreamBuf.new;
  lines = colschema_line ∷ (5 ∷ []) ∷ quit_line ∷ [];
  sent = [];
  shown = [];
}

abbrev idle : ClientState
idle = record client { lines = [] ∷ [] }

-- an empty line
round-empty_example : StreamBuf.empty StreamBuf.new ≡ true
unfolding round boutique.Cli.Loop.after_next boutique.Cli.Loop.next_command StreamBuf.empty
    StreamBuf.new
round-empty_example =
    round-empty no_numbers no_number idle (record idle { lines = [] })
      (record { sends = []; recvs = [] }) refl refl

-- the command goes out in two pieces, and the response comes in two
abbrev sizes : List ℕ
sizes = 2 ∷ 4 ∷ []

abbrev asked : Bytes
asked = 4 ∷ 1 ∷ 0 ∷ 0 ∷ 0 ∷ 5 ∷ []

abbrev piece : Bytes
piece = 7 ∷ 1 ∷ 0 ∷ 0 ∷ []

abbrev last_piece : Bytes
last_piece = 0 ∷ 0 ∷ 0 ∷ 0 ∷ 0 ∷ 1 ∷ 0 ∷ 0 ∷ 0 ∷ 0 ∷ []

-- the server gets the command in two other pieces
abbrev request : Bytes
request = 4 ∷ 1 ∷ 0 ∷ []

abbrev last_request : Bytes
last_request = 0 ∷ 0 ∷ 5 ∷ []

schema_sent : piece ++ (last_piece ++ []) ≡ sent_back hash server (request ∷ last_request ∷ [])
unfolding sent_back Handler.recv_handler Handler.handle_loop Handler.handle_read
    boutique.Protocol.Binary.read_command boutique.Core.Serialize.read_uint StreamBuf.contents
    StreamBuf.append StreamBuf.new boutique.Core.Serialize.read_string
    boutique.Server.Execute.execute boutique.Db.Database.collection boutique.Common.bytes_eq
    StreamBuf.consume Handler.write_and_send write_response boutique.Core.Serialize.write_uint
    boutique.Protocol.Binary.Schemas.write_schema boutique.Protocol.Binary.Schemas.write_aggregate
    boutique.Db.Schema.field_count boutique.Protocol.Binary.Schemas.type_index
    boutique.Core.Serialize.write_string
schema_sent = refl

round-colschema_example :
    Learns hash no_numbers no_number server
      (request ∷ last_request ∷ [])
      client
      (record { sends = sizes; recvs = piece ∷ last_piece ∷ [] })
      (5 ∷ [])
      letters
      (quit_line ∷ [])
unfolding StreamBuf.contents StreamBuf.new boutique.Db.Database.collection boutique.Common.bytes_eq
    send_loop write_command boutique.Core.Serialize.write_uint boutique.Core.Serialize.write_string
    boutique.Db.Schema.FitsFields boutique.Db.Schema.field_count
round-colschema_example =
    round-colschema hash no_numbers no_number server client no_letters (5 ∷ []) sizes asked request
      (last_request ∷ []) piece (last_piece ∷ []) [] (quit_line ∷ []) StreamLaws.new-IsValid refl
      refl (omega arith)
      (omega arith, (omega arith, (omega arith, (omega arith, (omega arith, (omega arith, tt))))))
      ((omega arith, (omega arith, tt, tt)), omega arith) StreamLaws.new-IsValid refl refl refl
      (omega arith, (omega arith, tt)) refl (omega arith, (omega arith, tt)) schema_sent

-- every line is a seven
abbrev sevens : Numbers
sevens = record no_numbers { stoull = λ str. some 7 }

read_seven : read_document sevens letters ((55 ∷ []) ∷ []) ≡ some (some (7 ∷ [], []))
unfolding read_document boutique.Cli.Document.and_then boutique.Db.Layout.schema_size
    boutique.Db.Layout.end_offset boutique.Db.Layout.alignment boutique.Cli.Document.read_fields
    boutique.Db.Layout.offset boutique.Db.Storage.overwrite boutique.Db.Layout.align_offset
    boutique.Core.Serialize.write_uint
read_seven = refl

read_document-new_example : length {A = ℕ} (7 ∷ []) ≡ 1
unfolding spans
read_document-new_example =
    read_document-new sevens letters no_letters ((55 ∷ []) ∷ []) (7 ∷ [], []) read_seven new-letters
      (omega arith)

-- the key is the field in the middle
abbrev triple : Schema
triple = record {
  fields = field [] uint8_type (field [] uint8_type (field [] uint8_type no_fields));
  key_field_index = 1;
}

abbrev no_triples : Collection
no_triples = record {
  schema = triple;
  key_offset = 1;
  key_kind = plain_key uint8_type 1;
  storage = Storage.new 3;
  buckets = [];
}

abbrev digit : Bytes → Option ℕ
digit str = if bytes_eq str (53 ∷ []) then some 5 else some 7

abbrev digits : Numbers
digits = record no_numbers { stoull = digit }

new-triple : Collection.new triple ≡ some no_triples
unfolding Collection.new boutique.Db.Layout.schema_size boutique.Db.Layout.end_offset
    boutique.Db.Layout.alignment boutique.Db.Layout.schema_offset boutique.Db.Schema.field_type?
    boutique.Db.Layout.align_offset
new-triple = refl

read_triple :
    read_document digits triple ((53 ∷ []) ∷ (55 ∷ []) ∷ (53 ∷ []) ∷ [])
    ≡ some (some (5 ∷ 7 ∷ 5 ∷ [], []))
unfolding read_document boutique.Cli.Document.and_then boutique.Db.Layout.schema_size
    boutique.Db.Layout.end_offset boutique.Db.Layout.alignment boutique.Cli.Document.read_fields
    offset bytes_eq Storage.overwrite boutique.Db.Layout.align_offset
    boutique.Core.Serialize.write_uint
read_triple = refl

behind_key : (j o : ℕ) → 1 < j → offset triple.fields j ≡ some o → 1 + 1 ≤ o
unfolding offset boutique.Db.Layout.alignment boutique.Db.Layout.size
    boutique.Db.Layout.align_offset
behind_key zero o lt e = absurd (omega (arith, lt))
behind_key (suc zero) o lt e = absurd (omega (arith, lt))
behind_key (suc (suc zero)) o lt e =
    let e' : ◌≡◌ {A = Option ℕ} (some 2) (some o) = e in
    let same : 2 ≡ o = cc in omega (arith, same)
behind_key (suc (suc (suc j))) o lt e = cc

read_document-IsAgreed_example :
    (value : Bytes) × (get_elem? {A = Bytes} ((53 ∷ []) ∷ (55 ∷ []) ∷ (53 ∷ []) ∷ []) 1
      ≡ some value)
    × IsAgreed digits uint8_type (plain_key uint8_type 1) 1 (5 ∷ 7 ∷ 5 ∷ []) value []
unfolding spans boutique.Db.Schema.field_type? boutique.Db.Schema.FitsType boutique.Db.Layout.size
read_document-IsAgreed_example =
    read_document-IsAgreed digits triple no_triples uint8_type 1
      ((53 ∷ []) ∷ (55 ∷ []) ∷ (53 ∷ []) ∷ []) [] (5 ∷ 7 ∷ 5 ∷ [], []) read_triple new-triple refl
      tt refl behind_key (omega arith)
