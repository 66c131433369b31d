-- ===== src/Cli/Document/Values.antt =====
-- What the client writes for a typed value, and where it is found in a document.
use boutique.Common.{
  drop, ◌++◌, ◌^◌, ◌<◌, length-drop, length-append, le→ltb_false, take-length_append,
  drop-length_append, drop-add, append_assoc, ℕ, ◌+◌, ◌≤◌, ◌≡◌, refl, ap, ◌∙◌, Option, some, List,
  arith, Bytes, length,
}
use boutique.Core.Serialize.{
  bind_option, bind_option-eq-some, write_uint, write_string, little_endian,
}
use boutique.Core.Serialize.Laws.{length-write_uint, little_endian-write_uint}
use boutique.Db.Schema.{
  FieldType, bool_type, uint8_type, uint16_type, uint32_type, uint64_type, int8_type, int16_type,
  int32_type, int64_type, float32_type, float64_type, string_type, aggregate_type,
}
use boutique.Db.Layout.{size}
use boutique.Db.Collection.{plain_key, kind_of_key, slice}
use boutique.Cli.Document.{Numbers, value_bytes, read_value, read_field, key_in}

pub number_bytes :
    (o : Option ℕ) (width : ℕ) (bytes : Bytes)
    → bind_option o (λ v. some (write_uint width v)) ≡ some bytes
    → length bytes ≡ width
number_bytes o width bytes e =
    let (v, read, e') = bind_option-eq-some o (λ v. some (write_uint width v)) e in
    let same : write_uint width v ≡ bytes = cc in rw (← same) (length-write_uint width v)

-- what is written for a value is as long as a key of its type
pub value_bytes-length :
    (n : Numbers) (type : FieldType) (value bytes : Bytes) (width : ℕ)
    → value_bytes n type value ≡ some bytes
    → kind_of_key type ≡ some (plain_key type width)
    → length bytes ≡ width
unfolding value_bytes kind_of_key size
value_bytes-length n bool_type value bytes width e kind =
    let one : 1 ≡ width = cc in number_bytes (some _) 1 bytes e ∙ one
value_bytes-length n uint8_type value bytes width e kind =
    let one : 1 ≡ width = cc in number_bytes _ 1 bytes e ∙ one
value_bytes-length n uint16_type value bytes width e kind =
    let two : 2 ≡ width = cc in number_bytes _ 2 bytes e ∙ two
value_bytes-length n uint32_type value bytes width e kind =
    let four : 4 ≡ width = cc in number_bytes _ 4 bytes e ∙ four
value_bytes-length n uint64_type value bytes width e kind =
    let eight : 8 ≡ width = cc in number_bytes _ 8 bytes e ∙ eight
value_bytes-length n int8_type value bytes width e kind =
    let one : 1 ≡ width = cc in number_bytes _ 1 bytes e ∙ one
value_bytes-length n int16_type value bytes width e kind =
    let two : 2 ≡ width = cc in number_bytes _ 2 bytes e ∙ two
value_bytes-length n int32_type value bytes width e kind =
    let four : 4 ≡ width = cc in number_bytes _ 4 bytes e ∙ four
value_bytes-length n int64_type value bytes width e kind =
    let eight : 8 ≡ width = cc in number_bytes _ 8 bytes e ∙ eight
value_bytes-length n float32_type value bytes width e kind =
    let four : 4 ≡ width = cc in number_bytes _ 4 bytes e ∙ four
value_bytes-length n float64_type value bytes width e kind =
    let eight : 8 ≡ width = cc in number_bytes _ 8 bytes e ∙ eight
value_bytes-length n (string_type cap) value bytes width e kind = cc
value_bytes-length n (aggregate_type agg) value bytes width e kind = cc

-- a key of a fixed width is read as a value, and sent as it was written
pub plain_field :
    (n : Numbers) (type : FieldType) (width dest : ℕ) (buf : Bytes) (lines : List Bytes)
    → kind_of_key type ≡ some (plain_key type width)
    → (size type ≡ some width)
      × (read_field n type dest buf lines ≡ read_value n type dest buf lines)
      × (key_in type buf ≡ some buf)
unfolding kind_of_key size read_field key_in
plain_field n (string_type cap) width dest buf lines kind = cc
plain_field n (aggregate_type agg) width dest buf lines kind = cc
plain_field n _ width dest buf lines kind = (cc, refl, refl)

-- where the bytes of a value stand in a document
pub slice-held :
    (doc bytes more : Bytes) (start : ℕ)
    → drop start doc ≡ bytes ++ more
    → 1 ≤ length bytes
    → slice doc start (length bytes) ≡ some bytes
unfolding slice
slice-held doc bytes more start held some_there =
    let enough : start + length bytes ≤ length doc =
      omega (arith, some_there, length-drop start doc, ap length held, length-append bytes more) in
    rw
      (le→ltb_false (length doc) (start + length bytes) enough, held, take-length_append bytes more)
      refl

-- where a written string stands in a document, its length and its bytes are read
pub string_held :
    (doc v more : Bytes) (start : ℕ)
    → length v < 2 ^ 32
    → drop start doc ≡ write_string v ++ more
    → (slice doc start 4 ≡ some (write_uint 4 (length v)))
      × (little_endian (write_uint 4 (length v)) ≡ length v)
      × (slice doc (start + 4) (length v) ≡ some v)
unfolding write_string slice
string_held doc v more start small held =
    let header = write_uint 4 (length v) in
    let wide : length header ≡ 4 = length-write_uint 4 (length v) in
    let split : drop start doc ≡ header ++ (v ++ more) = held ∙ append_assoc header v more in
    let rest : drop (start + 4) doc ≡ v ++ more =
      drop-add start 4 doc
      ∙ (ap (drop 4) split ∙ rw wide at (drop-length_append header (v ++ more))) in
    let long : start + 4 + length v ≤ length doc = omega (
      arith,
      length-drop start doc,
      ap length split,
      wide,
      length-append header (v ++ more),
      length-append v more,
    ) in
    (
      rw wide at (slice-held doc header (v ++ more) start split (omega (arith, wide))),
      little_endian-write_uint 4 (length v) (omega (arith, small)),
      rw (le→ltb_false (length doc) (start + 4 + length v) long, rest, take-length_append v more)
          refl,
    )
