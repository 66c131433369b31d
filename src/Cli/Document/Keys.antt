-- ===== src/Cli/Document/Keys.antt =====
-- The keys that the client sends.
use boutique.Common.{
  ◌%◌, ltb, Bool-cases, length-take, take-append_le, take, drop, ◌++◌, ◌^◌, ◌<◌, length-append,
  take-length_append, drop-all, append-nil, ℕ, ◌+◌, ◌≤◌, ◌≡◌, refl, sym, subst, ◌∙◌, Option, some,
  List, [], ◌∷◌, arith, Bytes, length, ==_refl, replicate, length-replicate, if◌then◌else◌, inl,
  inr,
}
use boutique.Core.Serialize.{write_uint, write_string}
use boutique.Core.Serialize.Laws.{length-write_uint}
use boutique.Db.Schema.{FieldType, string_type, aggregate_type, FitsType}
use boutique.Db.Layout.{size}
use boutique.Db.Storage
use boutique.Db.Collection.{KeyKind, string_key, plain_key, kind_of_key, hash_key, key_buffer}
use boutique.Cli.Document.{
  Numbers, and_then, value_bytes, write_at, read_value, read_field, key_in, read_key,
}
use boutique.Cli.Document.Values.{value_bytes-length, plain_field, slice-held, string_held}

overwrite-whole :
    (bytes : Bytes) (width : ℕ)
    → length bytes ≡ width
    → Storage.overwrite 0 bytes (replicate width 0) ≡ bytes
unfolding Storage.overwrite
overwrite-whole bytes width len =
    let zeros : Bytes = replicate width 0 in
    let gone : drop (0 + length bytes) zeros ≡ [] =
      drop-all (0 + length bytes) zeros (omega (arith, len, length-replicate {A = ℕ} width 0)) in
    rw (gone, append-nil)

-- Both sides of a key: the client sends `key`, and the collection reads it in the document.
pub record IsAgreed (n : Numbers) (type : FieldType) (kind : KeyKind) (key_offset : ℕ)
    (doc value : Bytes) (lines : List Bytes) : Type 0 where
  pub key : Bytes
  pub sent : read_key n type (value ∷ lines) ≡ some (some (key, lines))
  pub stored : key_buffer kind key_offset doc ≡ some key
  pub accepted : (hash : KeyKind → Bytes → ℕ) → hash_key hash kind key ≡ some (hash kind key)

IsAgreed-plain :
    (n : Numbers) (type : FieldType) (width key_offset : ℕ) (doc value bytes more : Bytes)
    (lines : List Bytes)
    → kind_of_key type ≡ some (plain_key type width)
    → 1 ≤ width
    → value_bytes n type value ≡ some bytes
    → drop key_offset doc ≡ bytes ++ more
    → IsAgreed n type (plain_key type width) key_offset doc value lines
unfolding read_key and_then read_value write_at key_buffer hash_key
IsAgreed-plain n type width key_offset doc value bytes more lines kind pos typed held =
    let len = value_bytes-length n type value bytes width typed kind in
    let (sized, reads, whole) =
      plain_field n type width 0 (replicate width 0) (value ∷ lines) kind in
    let (_, _, keyed) = plain_field n type width 0 bytes lines kind in
    record {
      key = bytes;
      sent = rw (sized, reads, typed, overwrite-whole bytes width len, keyed);
      stored = rw len at (slice-held doc bytes more key_offset held (omega (arith, pos, len)));
      accepted = λ hash. rw (len, ==_refl width);
    }

-- a line that is cut to the capacity of its field
abbrev pub cut : ℕ → Bytes → Bytes
cut cap value = if ltb cap (length value) then take cap value else value

pub length-cut : (cap : ℕ) (value : Bytes) → length (cut cap value) ≤ cap
length-cut cap value = elim (Bool-cases (ltb cap (length value))) [
  | inl longer ↦ rw longer (omega (arith, length-take cap value))
  | inr fits ↦ rw fits (ground (arith, fits))
]

width_inj :
    {s t : FieldType} {a b : ℕ}
    → ◌≡◌ {A = Option KeyKind} (some (plain_key s a)) (some (plain_key t b))
    → a ≡ b
width_inj e = cc

-- a key of a fixed width has a byte
plain_key_some :
    (type : FieldType) (width : ℕ) → kind_of_key type ≡ some (plain_key type width) → 1 ≤ width
unfolding kind_of_key size
plain_key_some (string_type cap) width kind = cc
plain_key_some (aggregate_type agg) width kind = cc
plain_key_some _ width kind = omega (arith, width_inj kind)

plain_key-type :
    (type t : FieldType) (width : ℕ) → kind_of_key type ≡ some (plain_key t width) → t ≡ type
unfolding kind_of_key size
plain_key-type (string_type cap) t width kind = cc
plain_key-type (aggregate_type agg) t width kind = cc
plain_key-type _ t width kind = cc

-- the buffer of a string key, and what is sent of it
key_in-string :
    (cap : ℕ) (v : Bytes)
    → length v ≤ cap
    → cap < 2 ^ 32
    → key_in
        (string_type cap)
        (Storage.overwrite 0 (write_string v) (replicate ((4 + cap) % 2 ^ 64) 0))
      ≡ some v
unfolding key_in Storage.overwrite write_string
key_in-string cap v short small =
    let zeros : Bytes = replicate ((4 + cap) % 2 ^ 64) 0 in
    let rest : Bytes = drop (0 + length (write_string v)) zeros in
    let (header, length_read, bytes) =
      string_held (write_string v ++ rest) v rest 0 (omega arith) refl in
    let wide = length-write_uint 4 (length v) in
    let read : take 4 (write_string v ++ rest) ≡ write_uint 4 (length v) =
      take-append_le 4 (write_string v) rest
        (omega (arith, wide, length-append (write_uint 4 (length v)) v))
      ∙ rw wide at (take-length_append (write_uint 4 (length v)) v) in
    rw (read, length_read) bytes

IsAgreed-string :
    (n : Numbers) (cap key_offset : ℕ) (doc value bytes more : Bytes) (lines : List Bytes)
    → cap < 2 ^ 32
    → value_bytes n (string_type cap) value ≡ some bytes
    → drop key_offset doc ≡ bytes ++ more
    → IsAgreed n (string_type cap) string_key key_offset doc value lines
unfolding read_key and_then read_value write_at key_buffer hash_key value_bytes read_field size
IsAgreed-string n cap key_offset doc value bytes more lines small typed held =
    let v = cut cap value in
    let same : write_string v ≡ bytes = cc in
    let short = length-cut cap value in
    let (header, length_read, there) =
      string_held doc v more key_offset (omega (arith, short, small)) (rw same held) in
    record {
      key = v;
      sent = rw (key_in-string cap v short small);
      stored = rw (header, length_read) there;
      accepted = λ hash. refl;
    }

-- Where a document holds, from `key_offset` on, what the client's put writes for a value of the key
-- field, the key that the client's get and delete send for the same typed value is the one that the
-- collection reads in the document, and the assertion on its length does not fail. A string's capacity
-- fits 32 bits, and the number that is typed can be converted.
pub read_key-key_buffer :
    (n : Numbers) (type : FieldType) (kind : KeyKind) (key_offset : ℕ)
    (doc value bytes more : Bytes) (lines : List Bytes)
    → kind_of_key type ≡ some kind
    → FitsType type
    → value_bytes n type value ≡ some bytes
    → drop key_offset doc ≡ bytes ++ more
    → IsAgreed n type kind key_offset doc value lines
unfolding kind_of_key FitsType size
read_key-key_buffer n (string_type cap) string_key key_offset doc value bytes more lines kind fits
      typed held =
    IsAgreed-string n cap key_offset doc value bytes more lines fits typed held
read_key-key_buffer n (string_type cap) (plain_key t width) key_offset doc value bytes more lines
      kind fits typed held =
    cc
read_key-key_buffer n (aggregate_type agg) k key_offset doc value bytes more lines kind fits typed
      held =
    cc
read_key-key_buffer n _ string_key key_offset doc value bytes more lines kind fits typed held = cc
read_key-key_buffer n type (plain_key t width) key_offset doc value bytes more lines kind fits typed
      held =
    let same = plain_key-type type t width kind in
    let kind' : kind_of_key type ≡ some (plain_key type width) = rw same at kind in
    subst (λ x. IsAgreed n type (plain_key x width) key_offset doc value lines) (sym same)
      (IsAgreed-plain n type width key_offset doc value bytes more lines kind'
        (plain_key_some type width kind') typed held)
