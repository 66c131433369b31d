-- ===== src/Cli/Document/Lengths.antt =====
-- The client writes within the document, and sends as many bytes as the schema says.
use boutique.Common.{
  ℕ, zero, suc, ◌+◌, ◌%◌, ◌≤◌, ◌≡◌, refl, sym, ap, ◌∙◌, inl, inr, none, some, List, [], ◌∷◌, ◌++◌,
  arith, Bytes, length, length-append, length-replicate, replicate, Option-cases,
}
use native.Mathlib.Nat.{mod-eq_of_lt}
use boutique.Core.Serialize.{bind_option-eq-some, write_uint, write_string}
use boutique.Core.Serialize.Laws.{length-write_uint}
use boutique.Db.Schema.{
  FieldType, AggregateType, Schema, bool_type, uint8_type, uint16_type, uint32_type, uint64_type,
  int8_type, int16_type, int32_type, int64_type, float32_type, float64_type, string_type,
  aggregate_type, no_fields, field, field_type?,
}
use boutique.Db.Layout.{
  word, alignment, size, end_offset, offset, aggregate_size, schema_size, schema_offset,
}
use boutique.Db.Layout.Within.{span, spans, offset-aggregate_size}
use boutique.Db.Storage
use boutique.Db.Storage.Laws.{length-overwrite}
use boutique.Db.Collection
use boutique.Db.Collection.{Collection, kind_of_key}
use boutique.Cli.Document.{
  Numbers, Typed, and_then, value_bytes, write_at, read_value, read_field, read_fields,
  read_document,
}
use boutique.Cli.Document.Values.{number_bytes}
use boutique.Cli.Document.Keys.{cut, length-cut}

pub and_then-eq-some :
    {A B : Type 0} (o : Typed A) (f : A → Typed B) {b : B}
    → and_then o f ≡ some (some b)
    → (a : A) × (o ≡ some (some a)) × (f a ≡ some (some b))
unfolding and_then
and_then-eq-some none f e = cc
and_then-eq-some (some none) f e = cc
and_then-eq-some (some (some a)) f e = (a, refl, e)

-- what is written for a value is no longer than its type
pub value_bytes-size :
    (n : Numbers) (type : FieldType) (value bytes : Bytes) (s : ℕ)
    → value_bytes n type value ≡ some bytes
    → size type ≡ some s
    → span type + 8 ≤ word
    → length bytes ≤ s
unfolding value_bytes size span write_string
value_bytes-size n bool_type value bytes s e es small =
    let w = number_bytes (some _) 1 bytes e in let is_s : 1 ≡ s = cc in omega (arith, w, is_s)
value_bytes-size n uint8_type value bytes s e es small =
    let w = number_bytes _ 1 bytes e in let is_s : 1 ≡ s = cc in omega (arith, w, is_s)
value_bytes-size n uint16_type value bytes s e es small =
    let w = number_bytes _ 2 bytes e in let is_s : 2 ≡ s = cc in omega (arith, w, is_s)
value_bytes-size n uint32_type value bytes s e es small =
    let w = number_bytes _ 4 bytes e in let is_s : 4 ≡ s = cc in omega (arith, w, is_s)
value_bytes-size n uint64_type value bytes s e es small =
    let w = number_bytes _ 8 bytes e in let is_s : 8 ≡ s = cc in omega (arith, w, is_s)
value_bytes-size n int8_type value bytes s e es small =
    let w = number_bytes _ 1 bytes e in let is_s : 1 ≡ s = cc in omega (arith, w, is_s)
value_bytes-size n int16_type value bytes s e es small =
    let w = number_bytes _ 2 bytes e in let is_s : 2 ≡ s = cc in omega (arith, w, is_s)
value_bytes-size n int32_type value bytes s e es small =
    let w = number_bytes _ 4 bytes e in let is_s : 4 ≡ s = cc in omega (arith, w, is_s)
value_bytes-size n int64_type value bytes s e es small =
    let w = number_bytes _ 8 bytes e in let is_s : 8 ≡ s = cc in omega (arith, w, is_s)
value_bytes-size n float32_type value bytes s e es small =
    let w = number_bytes _ 4 bytes e in let is_s : 4 ≡ s = cc in omega (arith, w, is_s)
value_bytes-size n float64_type value bytes s e es small =
    let w = number_bytes _ 8 bytes e in let is_s : 8 ≡ s = cc in omega (arith, w, is_s)
value_bytes-size n (string_type cap) value bytes s e es small =
    let v = cut cap value in
    let same : write_uint 4 (length v) ++ v ≡ bytes = cc in
    let whole : (4 + cap) % word ≡ 4 + cap = mod-eq_of_lt (omega (arith, small)) in
    let is_s : (4 + cap) % word ≡ s = cc in
    omega (
      arith,
      ap length same,
      length-append (write_uint 4 (length v)) v,
      length-write_uint 4 (length v),
      length-cut cap value,
      whole,
      is_s,
    )
value_bytes-size n (aggregate_type agg) value bytes s e es small = cc

-- a size has the sizes of the fields
pub end_offset-size :
    (agg : AggregateType) (i start e : ℕ) (t : FieldType)
    → end_offset agg start ≡ some e
    → field_type? agg i ≡ some t
    → (s : ℕ) × (size t ≡ some s)
unfolding size field_type?
end_offset-size no_fields i start e t ee et = cc
end_offset-size (field name type no_fields) zero start e t ee et =
    let (b, eb, ee') = bind_option-eq-some (alignment type) _ ee in
    let (s, es, _) = bind_option-eq-some (size type) _ ee' in
    let here : type ≡ t = cc in (s, ap size (sym here) ∙ es)
end_offset-size (field name type no_fields) (suc i) start e t ee et = cc
end_offset-size (field name type (field name' type' rest)) zero start e t ee et =
    let (b, eb, ee') = bind_option-eq-some (alignment type) _ ee in
    let (s, es, _) = bind_option-eq-some (size type) _ ee' in
    let here : type ≡ t = cc in (s, ap size (sym here) ∙ es)
end_offset-size (field name type (field name' type' rest)) (suc i) start e t ee et =
    let (b, eb, ee') = bind_option-eq-some (alignment type) _ ee in
    let (s, es, ee'') = bind_option-eq-some (size type) _ ee' in
    end_offset-size (field name' type' rest) i _ e t ee'' et

pub span-le :
    (agg : AggregateType) (i : ℕ) (t : FieldType) → field_type? agg i ≡ some t → span t ≤ spans agg
unfolding span field_type?
span-le no_fields i t et = cc
span-le (field name type rest) zero t et = let here : type ≡ t = cc in omega (arith, ap span here)
span-le (field name type rest) (suc i) t et = omega (arith, span-le rest i t et)

-- the write of a line
read_value-length :
    (n : Numbers) (type : FieldType) (dest s : ℕ) (buf : Bytes) (lines : List Bytes)
    (r : Bytes × List Bytes)
    → read_value n type dest buf lines ≡ some (some r)
    → size type ≡ some s
    → span type + 8 ≤ word
    → dest + s ≤ length buf
    → length r.0 ≡ length buf
unfolding read_value write_at
read_value-length n type dest s buf [] r e es small room = cc
read_value-length n type dest s buf (value ∷ lines) r e es small room =
    elim (Option-cases (value_bytes n type value)) [
      | inl failed ↦ let bad = rw failed at e in cc
      | inr (bytes, typed) ↦
          let le = value_bytes-size n type value bytes s typed es small in
          let e' = rw typed at e in
          let same : (Storage.overwrite dest bytes buf, lines) ≡ r = cc in
          ap (λ x. length x.0) (sym same)
          ∙ length-overwrite dest bytes buf (omega (arith, le, room))
    ]

mutual
  unfolding read_field size span field_type? aggregate_size

  pub read_field-length :
      (n : Numbers) (type : FieldType) (dest s : ℕ) (buf : Bytes) (lines : List Bytes)
      (r : Bytes × List Bytes)
      → read_field n type dest buf lines ≡ some (some r)
      → size type ≡ some s
      → span type + 8 ≤ word
      → dest + s ≤ length buf
      → length r.0 ≡ length buf
  read_field-length n (aggregate_type agg) dest s buf lines r e es small room =
      read_fields-length n agg 0 agg dest s buf lines r (λ j. ap (field_type? agg) (omega arith)) e
        es small room
  read_field-length n bool_type dest s buf lines r e es small room =
      read_value-length n bool_type dest s buf lines r e es small room
  read_field-length n type dest s buf lines r e es small room =
      read_value-length n type dest s buf lines r e es small room

  read_fields-length :
      (n : Numbers) (agg : AggregateType) (k : ℕ) (rest : AggregateType) (dest e : ℕ) (buf : Bytes)
      (lines : List Bytes) (r : Bytes × List Bytes)
      → ((j : ℕ) → field_type? rest j ≡ field_type? agg (k + j))
      → read_fields n agg k rest dest buf lines ≡ some (some r)
      → end_offset agg 0 ≡ some e
      → spans agg + 8 ≤ word
      → dest + e ≤ length buf
      → length r.0 ≡ length buf
  read_fields-length n agg k no_fields dest e buf lines r suffix run ee small room =
      let same : (buf, lines) ≡ r = cc in ap (λ x. length x.0) (sym same)
  read_fields-length n agg k (field name type rest) dest e buf lines r suffix run ee small room =
      let (o, eo, run₁) = and_then-eq-some (some (offset agg k)) _ run in
      let is_o : offset agg k ≡ some o = cc in
      let (r₁, here, run₂) = and_then-eq-some (read_field n type (dest + o) buf lines) _ run₁ in
      let et : field_type? agg k ≡ some type =
        ap (field_type? agg) (omega arith) ∙ sym (suffix 0) in
      let (s, es) = end_offset-size agg k 0 e type ee et in
      let fits : o + s ≤ e = offset-aggregate_size agg k type o s e et is_o es ee small in
      let len =
        read_field-length n type (dest + o) s buf lines r₁ here es
          (omega (arith, small, span-le agg k type et)) (omega (arith, fits, room)) in
      read_fields-length n agg (k + 1) rest dest e r₁.0 r₁.1 r
        (λ j. suffix (suc j) ∙ ap (field_type? agg) (omega arith)) run₂ ee small
        (omega (arith, room, len))
      ∙ len

-- a document has the size of the schema
read_document-length :
    (n : Numbers) (s : Schema) (len : ℕ) (lines : List Bytes) (r : Bytes × List Bytes)
    → read_document n s lines ≡ some (some r)
    → schema_size s ≡ some len
    → spans s.fields + 8 ≤ word
    → length r.0 ≡ len
unfolding read_document schema_size aggregate_size
read_document-length n s len lines r run sized small =
    let (w, ew, run') = and_then-eq-some (some (schema_size s)) _ run in
    let same : w ≡ len = cc in
    let zeros : Bytes = replicate w 0 in
    let wide : length zeros ≡ w = length-replicate {A = ℕ} w 0 in
    read_fields-length n s.fields 0 s.fields 0 w zeros lines r
      (λ j. ap (field_type? s.fields) (omega arith)) run' (sized ∙ ap some (sym same)) small
      (omega (arith, wide))
    ∙ (wide ∙ same)

-- the size of the documents of a new collection
new-schema_size :
    (s : Schema) (c : Collection)
    → Collection.new s ≡ some c
    → schema_size s ≡ some c.storage.doc_size
unfolding Collection.new Storage.new
new-schema_size s c e =
    let (w, ew, e₁) = bind_option-eq-some (schema_size s) _ e in
    let (o, eo, e₂) = bind_option-eq-some (schema_offset s s.key_field_index) _ e₁ in
    let (t, et, e₃) = bind_option-eq-some (field_type? s.fields s.key_field_index) _ e₂ in
    let (k, ek, e₄) = bind_option-eq-some (kind_of_key t) _ e₃ in
    let same : record {
      schema = s;
      key_offset = o;
      key_kind = k;
      storage = Storage.new w;
      buckets = [];
    }
        ≡ c =
      cc in
    ew ∙ ap (λ x. some x.storage.doc_size) same

-- A document that the client makes of typed lines has the size of the documents of a collection with
-- that schema, where the sizes of the fields, with eight bytes each for the padding, do not reach 2 ^ 64.
pub read_document-new :
    (n : Numbers) (s : Schema) (c : Collection) (lines : List Bytes) (r : Bytes × List Bytes)
    → read_document n s lines ≡ some (some r)
    → Collection.new s ≡ some c
    → spans s.fields + 8 ≤ word
    → length r.0 ≡ c.storage.doc_size
read_document-new n s c lines r run made small =
    read_document-length n s c.storage.doc_size lines r run (new-schema_size s c made) small
