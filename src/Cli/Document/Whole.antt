-- ===== src/Cli/Document/Whole.antt =====
-- The key of a document that the client makes, and the key that the client sends for the same line.
use boutique.Common.{
  ℕ, zero, suc, ◌+◌, ◌≤◌, ◌<◌, ◌≡◌, refl, sym, ap, ◌∙◌, Option, some, List, [], ◌++◌, arith, Bytes,
  length, length-replicate, replicate, take, drop, take-append-drop, get_elem?, subst,
}
use boutique.Core.Serialize.{bind_option-eq-some}
use boutique.Db.Schema.{
  FieldType, AggregateType, Schema, bool_type, aggregate_type, no_fields, field, field_type?,
  FitsType,
}
use boutique.Db.Layout.{word, size, end_offset, offset, aggregate_size, schema_size, schema_offset}
use boutique.Db.Layout.Within.{span, spans, offset-aggregate_size}
use boutique.Db.Storage
use boutique.Db.Collection
use boutique.Db.Collection.{Collection, KeyKind, kind_of_key}
use boutique.Cli.Document.{Numbers, value_bytes, read_value, read_field, read_fields, read_document}
use boutique.Cli.Document.Lengths.{
  and_then-eq-some, value_bytes-size, end_offset-size, span-le, read_field-length,
}
use boutique.Cli.Document.Keys.{IsAgreed, read_key-key_buffer}
use boutique.Cli.Document.Writes.{
  line_count, lines_before, slice-written, get_elem?-drop, read_value-inv, read_field-lines,
  read_fields-slice,
}

read_field-plain :
    (n : Numbers) (type : FieldType) (kind : KeyKind) (dest : ℕ) (buf : Bytes) (lines : List Bytes)
    → kind_of_key type ≡ some kind
    → read_field n type dest buf lines ≡ read_value n type dest buf lines
unfolding kind_of_key read_field
read_field-plain n (aggregate_type agg) kind dest buf lines is_kind = cc
read_field-plain n bool_type kind dest buf lines is_kind = refl
read_field-plain n _ kind dest buf lines is_kind = refl

-- The bytes that are written for a line stand in the document.
record Stands (n : Numbers) (t : FieldType) (o : ℕ) (doc : Bytes) (line : Option Bytes)
    : Type 0 where
  value : Bytes
  bytes : Bytes
  typed : line ≡ some value
  converted : value_bytes n t value ≡ some bytes
  there : take (length bytes) (drop o doc) ≡ bytes

read_value-Stands :
    (n : Numbers) (t : FieldType) (o : ℕ) (buf : Bytes) (lines : List Bytes)
    (r : Bytes × List Bytes)
    → read_value n t o buf lines ≡ some (some r)
    → o ≤ length buf
    → Stands n t o r.0 (get_elem? lines 0)
read_value-Stands n t o buf lines r e within =
    let (value, bytes, line, typed, same, left) = read_value-inv n t o buf lines r e in
    record {
      value = value;
      bytes = bytes;
      typed = line;
      converted = typed;
      there = rw same (slice-written o bytes buf within);
    }

Stands-later :
    (n : Numbers) (t : FieldType) (o : ℕ) (doc doc' : Bytes) (line : Option Bytes)
    (st : Stands n t o doc line)
    → take (length st.bytes) (drop o doc') ≡ take (length st.bytes) (drop o doc)
    → Stands n t o doc' line
Stands-later n t o doc doc' line st same = record {
  value = st.value;
  bytes = st.bytes;
  typed = st.typed;
  converted = st.converted;
  there = same ∙ st.there;
}

read_fields-Stands :
    (n : Numbers) (agg : AggregateType) (k : ℕ) (rest : AggregateType) (i e o s : ℕ) (t : FieldType)
    (kind : KeyKind) (buf : Bytes) (lines : List Bytes) (r : Bytes × List Bytes)
    → ((j : ℕ) → field_type? rest j ≡ field_type? agg (k + j))
    → field_type? rest i ≡ some t
    → kind_of_key t ≡ some kind
    → offset agg (k + i) ≡ some o
    → size t ≡ some s
    → ((j o' : ℕ) → k + i < j → offset agg j ≡ some o' → o + s ≤ o')
    → read_fields n agg k rest 0 buf lines ≡ some (some r)
    → end_offset agg 0 ≡ some e
    → spans agg + 8 ≤ word
    → e ≤ length buf
    → Stands n t o r.0 (get_elem? lines (lines_before rest i))
unfolding read_field field_type? aggregate_size
read_fields-Stands n agg k no_fields i e o s t kind buf lines r suffix et is_kind eo es later run ee
      small room =
    cc
read_fields-Stands n agg k (field name type rest) zero e o s t kind buf lines r suffix et is_kind eo
      es later run ee small room =
    let (o₁, eo₁, run₁) = and_then-eq-some (some (offset agg k)) _ run in
    let both : offset agg k ≡ some o = ap (offset agg) (omega arith) ∙ eo in
    let same_o : o₁ ≡ o = cc in
    let (r₁, here, run₂) = and_then-eq-some (read_field n type (0 + o₁) buf lines) _ run₁ in
    let here_t : type ≡ t = cc in
    let et' : field_type? agg k ≡ some t =
      ap (field_type? agg) (omega arith) ∙ (sym (suffix 0) ∙ et) in
    let fits : o + s ≤ e = offset-aggregate_size agg k t o s e et' both es ee small in
    let small₁ : span t + 8 ≤ word = omega (arith, small, span-le agg k t et') in
    let at_o : 0 + o₁ ≡ o = omega (arith, same_o) in
    let here' : read_field n t o buf lines ≡ some (some r₁) = rw (here_t, at_o) at here in
    let len = read_field-length n t o s buf lines r₁ here' es small₁ (omega (arith, fits, room)) in
    let st =
      read_value-Stands n t o buf lines r₁
        (sym (read_field-plain n t kind o buf lines is_kind) ∙ here') (omega (arith, fits, room)) in
    let le = value_bytes-size n t st.value st.bytes s st.converted es small₁ in
    Stands-later n t o r₁.0 r.0 (get_elem? lines 0) st (
      read_fields-slice n agg (k + 1) rest 0 e o (length st.bytes) r₁.0 r₁.1 r
        (λ j. suffix (suc j) ∙ ap (field_type? agg) (omega arith))
        (λ j o' below eo'. omega (arith, le, later j o' (omega (arith, below)) eo')) run₂ ee small
        (omega (arith, room, len)))
read_fields-Stands n agg k (field name type rest) (suc i) e o s t kind buf lines r suffix et is_kind
      eo es later run ee small room =
    let (o₁, eo₁, run₁) = and_then-eq-some (some (offset agg k)) _ run in
    let is_o : offset agg k ≡ some o₁ = cc in
    let (r₁, here, run₂) = and_then-eq-some (read_field n type (0 + o₁) buf lines) _ run₁ in
    let et₁ : field_type? agg k ≡ some type = ap (field_type? agg) (omega arith) ∙ sym (suffix 0) in
    let (s₁, es₁) = end_offset-size agg k 0 e type ee et₁ in
    let fits : o₁ + s₁ ≤ e = offset-aggregate_size agg k type o₁ s₁ e et₁ is_o es₁ ee small in
    let len =
      read_field-length n type (0 + o₁) s₁ buf lines r₁ here es₁
        (omega (arith, small, span-le agg k type et₁)) (omega (arith, fits, room)) in
    let line : get_elem? r₁.1 (lines_before rest i)
        ≡ get_elem? lines (line_count type + lines_before rest i) =
      ap (λ x. get_elem? x (lines_before rest i))
        (read_field-lines n type (0 + o₁) buf lines r₁ here)
      ∙ get_elem?-drop (line_count type) (lines_before rest i) lines in
    subst (Stands n t o r.0) line (
      read_fields-Stands n agg (k + 1) rest i e o s t kind r₁.0 r₁.1 r
        (λ j. suffix (suc j) ∙ ap (field_type? agg) (omega arith)) et is_kind
        (ap (offset agg) (omega arith) ∙ eo) es
        (λ j o' below eo'. later j o' (omega (arith, below)) eo') run₂ ee small
        (omega (arith, room, len)))

-- what a new collection takes from its schema
new-inv :
    (s : Schema) (c : Collection) (t : FieldType)
    → Collection.new s ≡ some c
    → field_type? s.fields s.key_field_index ≡ some t
    → (schema_size s ≡ some c.storage.doc_size)
      × (schema_offset s s.key_field_index ≡ some c.key_offset)
      × (kind_of_key t ≡ some c.key_kind)
unfolding Collection.new Storage.new
new-inv s c t e et =
    let (w, ew, e₁) = bind_option-eq-some (schema_size s) _ e in
    let (o, eo, e₂) = bind_option-eq-some (schema_offset s s.key_field_index) _ e₁ in
    let (t', et', e₃) = bind_option-eq-some (field_type? s.fields s.key_field_index) _ e₂ in
    let (k, ek, e₄) = bind_option-eq-some (kind_of_key t') _ e₃ in
    let same : record {
      schema = s;
      key_offset = o;
      key_kind = k;
      storage = Storage.new w;
      buckets = [];
    }
        ≡ c =
      cc in
    let same_t : t' ≡ t = cc in
    (
      ew ∙ ap (λ x. some x.storage.doc_size) same,
      eo ∙ ap (λ x. some x.key_offset) same,
      ap kind_of_key (sym same_t) ∙ (ek ∙ ap (λ x. some x.key_kind) same),
    )

read_document-Stands :
    (n : Numbers) (s : Schema) (len o size_of_key : ℕ) (t : FieldType) (kind : KeyKind)
    (lines : List Bytes) (r : Bytes × List Bytes)
    → read_document n s lines ≡ some (some r)
    → schema_size s ≡ some len
    → schema_offset s s.key_field_index ≡ some o
    → field_type? s.fields s.key_field_index ≡ some t
    → kind_of_key t ≡ some kind
    → size t ≡ some size_of_key
    → ((j o' : ℕ) → s.key_field_index < j → offset s.fields j ≡ some o' → o + size_of_key ≤ o')
    → spans s.fields + 8 ≤ word
    → Stands n t o r.0 (get_elem? lines (lines_before s.fields s.key_field_index))
unfolding read_document schema_size schema_offset aggregate_size
read_document-Stands n s len o size_of_key t kind lines r run sized placed et is_kind es later
      small =
    let (w, ew, run') = and_then-eq-some (some (schema_size s)) _ run in
    let same : w ≡ len = cc in
    let zeros : Bytes = replicate w 0 in
    let wide : length zeros ≡ w = length-replicate {A = ℕ} w 0 in
    read_fields-Stands n s.fields 0 s.fields s.key_field_index w o size_of_key t kind zeros lines r
      (λ j. ap (field_type? s.fields) (omega arith)) et is_kind
      (ap (offset s.fields) (omega arith) ∙ placed) es
      (λ j o' below eo'. later j o' (omega (arith, below)) eo') run' (sized ∙ ap some (sym same))
      small (omega (arith, wide))

-- Where the client makes a document of typed lines for a collection with that schema, there is a line for
-- the key field, and when it is typed for a get or a delete the client sends the key that the collection
-- reads in the document, and the assertion on its length does not fail. No field behind the key field
-- begins before the end of the key, a string key's capacity fits 32 bits, and the sizes of the fields, with
-- eight bytes each for the padding, do not reach 2 ^ 64.
pub read_document-IsAgreed :
    (n : Numbers) (s : Schema) (c : Collection) (t : FieldType) (size_of_key : ℕ)
    (lines more : List Bytes) (r : Bytes × List Bytes)
    → read_document n s lines ≡ some (some r)
    → Collection.new s ≡ some c
    → field_type? s.fields s.key_field_index ≡ some t
    → FitsType t
    → size t ≡ some size_of_key
    → ((j o : ℕ)
        → s.key_field_index < j
        → offset s.fields j ≡ some o
        → c.key_offset + size_of_key ≤ o)
    → spans s.fields + 8 ≤ word
    → (value : Bytes) × (get_elem? lines (lines_before s.fields s.key_field_index) ≡ some value)
      × IsAgreed n t c.key_kind c.key_offset r.0 value more
read_document-IsAgreed n s c t size_of_key lines more r run made et fits es later small =
    let (sized, placed, is_kind) = new-inv s c t made et in
    let st =
      read_document-Stands n s c.storage.doc_size c.key_offset size_of_key t c.key_kind lines r run
        sized placed et is_kind es later small in
    let rest = drop (length st.bytes) (drop c.key_offset r.0) in
    let held : drop c.key_offset r.0 ≡ st.bytes ++ rest =
      sym (take-append-drop (length st.bytes) (drop c.key_offset r.0))
      ∙ ap (λ x. x ++ rest) st.there in
    (
      st.value,
      st.typed,
      read_key-key_buffer n t c.key_kind c.key_offset r.0 st.value st.bytes rest more is_kind fits
          st.converted held,
    )
