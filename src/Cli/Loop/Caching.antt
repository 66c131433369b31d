-- ===== src/Cli/Loop/Caching.antt =====
-- What a round of the client's loop leaves: no byte in the stream, and the schemas that the server has.
use boutique.Common.{
  joined, AreNonEmpty, ℕ, ◌+◌, ◌-◌, ◌≤◌, ◌≡◌, refl, sym, ap, subst, ◌∙◌, Bool, true, false, not,
  inl, inr, Option, none, some, List, [], ◌∷◌, ◌++◌, arith, Bytes, IsBytes, bytes_eq, length,
  length-drop, take, drop, take-append-drop, take-whole, drop-add, ltb, ◌==◌, if◌then◌else◌,
  Bool-cases, Option-cases,
}
use boutique.Core.Serialize.{bind_option-eq-some}
use boutique.Core.StreamBuf
use boutique.Core.StreamBuf.{StreamBuf}
use boutique.Core.StreamBuf.Laws
use boutique.Db.Schema.{Schema}
use boutique.Db.Collection.{KeyKind, Collection}
use boutique.Db.Database
use boutique.Db.Database.{lookup, insert_or_assign, lookup-insert_or_assign}
use boutique.Protocol.Messages.{Command, Response}
use boutique.Protocol.Read.{Read, success, incomplete, invalid}
use boutique.Protocol.Binary.{read_response, write_command}
use boutique.Protocol.Binary.RoundTrip.{FitsCommand, FitsResponse}
use boutique.Server.Execute.{execute}
use boutique.Server.Handler
use boutique.Server.Handler.Calls.{IsReady, pending}
use boutique.Server.Handler.Pieces.{recv_pieces, sent_back}
use boutique.Cli.Exchange.{
  Session, response, invalid_response, on_read, receive, receive_loop, send_loop,
}
use boutique.Cli.Exchange.Whole.{exchange-response}
use boutique.Cli.Document.{Numbers}
use boutique.Cli.Loop.{
  Caches, Calls, ClientState, NextCommand, quits, again, sends, threw, waits, colschema_line,
  next_command, on_command, with_line, cache_all, cache, exchange, after_next, round,
}

-- the loop that sends, where it ends by its test
send_loop_whole :
    (cmd_buf : Bytes) (n : ℕ) (results : List ℕ) (bytes : Bytes)
    → send_loop cmd_buf n results ≡ some (bytes, true)
    → bytes ≡ drop n cmd_buf
unfolding send_loop
send_loop_whole cmd_buf n [] bytes e = cc
send_loop_whole cmd_buf n (r ∷ results) bytes e = elim (Bool-cases (r == 0)) [
  | inl failed ↦ let bad = rw failed at e in cc
  | inr some_sent ↦ elim (Bool-cases (ltb (n + r) (length cmd_buf))) [
    | inl more ↦
        let (l, later, e') =
          bind_option-eq-some (send_loop cmd_buf (n + r) results)
            (λ l. some (take r (drop n cmd_buf) ++ l.0, l.1)) (rw (some_sent, more) at e) in
        let same : take r (drop n cmd_buf) ++ l.0 ≡ bytes = cc in
        let ends : l.1 ≡ true = cc in
        let rest =
          send_loop_whole cmd_buf (n + r) results l.0 (later ∙ ap (λ b. some (l.0, b)) ends) in
        sym same
        ∙ (ap (λ x. take r (drop n cmd_buf) ++ x) (rest ∙ drop-add n r cmd_buf)
            ∙ take-append-drop r (drop n cmd_buf))
    | inr all ↦
        let e' = rw (some_sent, all) at e in
        let same : take r (drop n cmd_buf) ≡ bytes = cc in
        let short : length cmd_buf ≤ n + r = ground (arith, all) in
        sym same ∙ take-whole r (drop n cmd_buf) (omega (arith, short, length-drop n cmd_buf))
  ]
]

consume-empty :
    (s s' : StreamBuf)
    → StreamBuf.consume s (StreamBuf.size s) ≡ some s'
    → StreamBuf.empty s' ≡ true
unfolding StreamBuf.consume StreamBuf.size StreamBuf.empty
consume-empty s s' e = elim (Bool-cases (ltb s.m_size (s.m_used + (s.m_size - s.m_used)))) [
  | inl failed ↦ let bad = rw failed at e in cc
  | inr within ↦
      let all : (s.m_used + (s.m_size - s.m_used) == s.m_size) ≡ true = ground arith in
      let same : record { m_size = 0; m_used = 0; m_buf = [] } ≡ s' =
        let e' = rw (within, all) at e in cc in
      subst (λ x. (x.m_size == 0) ≡ true) same refl
]

not_lem : (b : Bool) → not b ≡ false → b ≡ true
not_lem true e = refl
not_lem false e = cc

-- a read after which the loop ends
on_read-empty :
    (s s' : Session) (r : Read Response)
    → on_read s r ≡ some (s', false)
    → StreamBuf.empty s'.stream ≡ true
unfolding on_read
on_read-empty s s' incomplete e =
    let same : s ≡ s' = cc in
    let done : not (StreamBuf.empty s.stream) ≡ false = cc in
    ap (λ x. StreamBuf.empty x.stream) (sym same) ∙ not_lem (StreamBuf.empty s.stream) done
on_read-empty s s' invalid e =
    let (stream, consumed, e') =
      bind_option-eq-some (StreamBuf.consume s.stream (StreamBuf.size s.stream)) _ e in
    let same : record { stream = stream; shown = s.shown ++ invalid_response ∷ [] } ≡ s' = cc in
    ap (λ x. StreamBuf.empty x.stream) (sym same) ∙ consume-empty s.stream stream consumed
on_read-empty s s' (success res rest) e =
    let (stream, consumed, e') =
      bind_option-eq-some (StreamBuf.consume s.stream (StreamBuf.size s.stream - length rest)) _
        e in
    let same : record { stream = stream; shown = s.shown ++ response res ∷ [] } ≡ s' = cc in
    let done : not (StreamBuf.empty stream) ≡ false = cc in
    ap (λ x. StreamBuf.empty x.stream) (sym same) ∙ not_lem (StreamBuf.empty stream) done

pub receive_loop-empty :
    (s s' : Session) (recvs more : List Bytes)
    → receive_loop s recvs ≡ some (s', more)
    → StreamBuf.empty s'.stream ≡ true
unfolding receive_loop receive
receive_loop-empty s s' [] more e = cc
receive_loop-empty s s' (recv_buf ∷ recvs) more e = elim (Option-cases (receive s recv_buf)) [
  | inl failed ↦ let bad = rw failed at e in cc
  | inr ((s₁, true), went) ↦ receive_loop-empty s₁ s' recvs more (rw went at e)
  | inr ((s₁, false), went) ↦
      let same : s₁ ≡ s' = let e' = rw went at e in cc in
      ap (λ x. StreamBuf.empty x.stream) (sym same)
      ∙ on_read-empty (record s { stream = StreamBuf.append s.stream recv_buf }) s₁
          (read_response (StreamBuf.contents (StreamBuf.append s.stream recv_buf))) went
]

abbrev stream_of : Option ClientState → StreamBuf
stream_of none = StreamBuf.new
stream_of (some c) = c.stream

exchange-empty :
    (c c' : ClientState) (calls : Calls) (cmd : Command) (lines : List Bytes)
    → exchange c calls cmd lines ≡ some c'
    → StreamBuf.empty c'.stream ≡ true
unfolding exchange
exchange-empty c c' calls cmd lines e =
    let (went, sent, e₁) = bind_option-eq-some (send_loop (write_command cmd) 0 calls.sends) _ e in
    let (r, received, e₂) =
      bind_option-eq-some (receive_loop (record { stream = c.stream; shown = [] }) calls.recvs) _
        e₁ in
    let same : r.0.stream ≡ c'.stream = ap stream_of e₂ in
    ap StreamBuf.empty (sym same)
    ∙ receive_loop-empty (record { stream = c.stream; shown = [] }) r.0 calls.recvs r.1 received

after_next-empty :
    (c c' : ClientState) (calls : Calls) (next : NextCommand)
    → StreamBuf.empty c.stream ≡ true
    → after_next c calls next ≡ some (some c')
    → StreamBuf.empty c'.stream ≡ true
unfolding after_next
after_next-empty c c' calls quits clear e = cc
after_next-empty c c' calls (again lines) clear e =
    let same : record c { lines = lines } ≡ c' = cc in
    ap (λ x. StreamBuf.empty x.stream) (sym same) ∙ clear
after_next-empty c c' calls (sends cmd lines) clear e =
    let (c₁, went, e₁) = bind_option-eq-some (exchange c calls cmd lines) _ e in
    let same : c₁ ≡ c' = cc in
    ap (λ x. StreamBuf.empty x.stream) (sym same) ∙ exchange-empty c c₁ calls cmd lines went
after_next-empty c c' calls threw clear e = cc
after_next-empty c c' calls waits clear e = cc

-- After a round the stream is empty, if it was before: the assertion at the beginning of the next round
-- holds, whatever was typed and whatever the system's calls gave.
pub round-empty :
    (numbers : Numbers) (stoul : Bytes → Option ℕ) (c c' : ClientState) (calls : Calls)
    → StreamBuf.empty c.stream ≡ true
    → round numbers stoul c calls ≡ some (some c')
    → StreamBuf.empty c'.stream ≡ true
unfolding round
round-empty numbers stoul c c' calls clear e =
    after_next-empty c c' calls (next_command numbers stoul c.caches c.lines) clear (rw clear at e)

-- What the client and the server are left with when the schema of a collection was asked for.
pub record Learns (hash : KeyKind → Bytes → ℕ) (numbers : Numbers) (stoul : Bytes → Option ℕ)
    (server : Handler.Client) (requests : List Bytes) (c : ClientState) (calls : Calls)
    (name : Bytes) (s : Schema) (lines : List Bytes) : Type 0 where
  pub server' : Handler.Client
  pub serves : recv_pieces hash server requests ≡ some server'
  pub unchanged : server'.db ≡ server.db
  pub client : ClientState
  pub went : round numbers stoul c calls ≡ some (some client)
  pub sent : client.sent ≡ c.sent ++ write_command (Command.get_collection_schema name)
  pub left : client.lines ≡ lines
  pub same_schemas : client.caches.schemas ≡ c.caches.schemas
  pub cached :
      (q : Bytes)
      → lookup q client.caches.colschemas
        ≡ (if bytes_eq name q then some s else lookup q c.caches.colschemas)

next_command-colschema :
    (numbers : Numbers) (stoul : Bytes → Option ℕ) (c : Caches) (name : Bytes) (lines : List Bytes)
    → next_command numbers stoul c (colschema_line ∷ name ∷ lines)
      ≡ sends (Command.get_collection_schema name) lines
unfolding next_command on_command with_line bytes_eq
next_command-colschema numbers stoul c name lines = refl

-- Where the server is not waiting for the rest of a command, has the collection, and the client has read
-- every response: when "colschema" and the collection's name are typed, the calls of send take the whole
-- command, recv_handler is handed what they took, in any non-empty pieces, and the calls of recv give
-- what the server then hands to async_send_all, in any non-empty pieces, the client has the server's
-- schema of the collection in its cache `colschemas`. The other entries of it and the cache `schemas`
-- are as before.
pub round-colschema :
    (hash : KeyKind → Bytes → ℕ) (numbers : Numbers) (stoul : Bytes → Option ℕ)
    (server : Handler.Client) (c : ClientState) (coll : Collection) (name : Bytes) (sizes : List ℕ)
    (bytes a : Bytes) (requests : List Bytes) (b : Bytes) (pieces later lines : List Bytes)
    → IsReady server
    → pending server ≡ []
    → Database.collection server.db name ≡ some coll
    → FitsCommand (Command.get_collection_schema name)
    → IsBytes (write_command (Command.get_collection_schema name))
    → FitsResponse (Response.schema coll.schema)
    → StreamBuf.Laws.IsValid c.stream
    → StreamBuf.contents c.stream ≡ []
    → c.lines ≡ colschema_line ∷ name ∷ lines
    → send_loop (write_command (Command.get_collection_schema name)) 0 sizes ≡ some (bytes, true)
    → AreNonEmpty (a ∷ requests)
    → joined (a ∷ requests) ≡ bytes
    → AreNonEmpty (b ∷ pieces)
    → joined (b ∷ pieces) ≡ sent_back hash server (a ∷ requests)
    → Learns hash numbers stoul server
        (a ∷ requests)
        c
        (record { sends = sizes; recvs = (b ∷ pieces) ++ later })
        name
        coll.schema
        lines
unfolding round after_next exchange cache_all cache execute
round-colschema hash numbers stoul server c coll name sizes bytes a requests b pieces later lines
      ready fresh there fits are_bytes fits_res valid read_all typed whole full_requests handed full
      cut =
    let cmd = Command.get_collection_schema name in
    let took = send_loop_whole (write_command cmd) 0 sizes bytes whole in
    let done =
      exchange-response hash server (record { stream = c.stream; shown = [] }) cmd server.db
        (Response.schema coll.schema) a requests b pieces later ready fresh fits are_bytes
        (rw there) fits_res full_requests (handed ∙ took) valid read_all full cut in
    let clear = (StreamBuf.Laws.empty_iff c.stream valid).1 read_all in
    record {
      server' = done.server;
      serves = done.serves;
      unchanged = done.changed;
      client = record {
        caches = record c.caches {
          colschemas = insert_or_assign name coll.schema c.caches.colschemas;
        };
        stream = done.stream;
        lines = lines;
        sent = c.sent ++ bytes;
        shown = c.shown ++ response (Response.schema coll.schema) ∷ [];
      };
      went = rw (clear, typed, next_command-colschema, whole, done.shows);
      sent = ap (λ x. c.sent ++ x) took;
      left = refl;
      same_schemas = refl;
      cached = λ q. lookup-insert_or_assign name q coll.schema c.caches.colschemas;
    }
