-- ===== src/Db/Collection.antt =====
-- db/collection.hpp and db/collection.cpp: an open-addressed index over a storage of documents.
-- `std::hash` is the parameter `hash`. The outer `none` of a result is a failed assertion or a read
-- out of bounds; a null pointer that the code returns is `null`.
pub mod Probing
pub mod Reserved
pub mod Lookup
pub mod Insert
pub mod Walk
pub mod Index
pub mod Search
pub mod Fill
pub mod Keeps
pub mod Stays
pub mod Grow
pub mod Puts
pub mod Room
pub mod Rehash
pub mod Total
pub mod Renamed
pub mod Marks
pub mod Removal
pub mod Writes
pub mod Contents
pub mod Reached
use boutique.Common.{
  ℕ, zero, suc, ◌+◌, ◌-◌, ◌*◌, ◌/◌, ◌^◌, bit_and, Bool, Option, none, some, List, [], ◌∷◌, ◌||◌,
  Bytes, length, take, drop, replicate, get_elem?, set, ltb, leb, bytes_eq, ◌==◌, if◌then◌else◌,
}
use boutique.Core.Serialize.{bind_option, little_endian}
use boutique.Db.Schema.{
  FieldType, Schema, bool_type, uint8_type, uint16_type, uint32_type, uint64_type, int8_type,
  int16_type, int32_type, int64_type, float32_type, float64_type, string_type, aggregate_type,
  field_type?,
}
use boutique.Db.Layout.{size, schema_size, schema_offset}
use boutique.Db.Storage
use boutique.Db.Storage.{Storage}

-- How the key is found in a document and hashed: `m_key_buffer_fn` and `m_hash_fn` are chosen
-- together. Of a key that is not a string it is the type of the field, which stands for `T`, and
-- `sizeof(T)`.
pub data KeyKind : Type 0 where
  string_key : KeyKind
  plain_key : (type : FieldType) → (width : ℕ) → KeyKind

pub record KeyValue : Type 0 where
  pub key_hash : ℕ
  pub value_index : ℕ

pub record Collection : Type 0 where
  pub schema : Schema
  pub key_offset : ℕ
  pub key_kind : KeyKind
  pub storage : Storage
  pub buckets : List KeyValue

-- an index, or the null pointer
pub data Found : Type 0 where
  null : Found
  at : ℕ → Found

abbrev pub empty_bucket : KeyValue
empty_bucket = record { key_hash = 0; value_index = 0 }

abbrev pub tombstone_key_hash : ℕ
tombstone_key_hash = 2 ^ 64 - 1

-- the `std::visit` of the constructor; an aggregate is `assert(false)`
unfoldable pub kind_of_key : FieldType → Option KeyKind
kind_of_key (string_type capacity) = some string_key
kind_of_key (aggregate_type agg) = none
kind_of_key type = bind_option (size type) λ width. some (plain_key type width)

-- Collection(Schema)
unfoldable pub new : Schema → Option Collection
unfolding kind_of_key
new s = bind_option (schema_size s) λ doc_size.
    bind_option (schema_offset s s.key_field_index) λ key_offset.
      bind_option (field_type? s.fields s.key_field_index) λ type.
        bind_option (kind_of_key type) λ kind. some (record {
          schema = s;
          key_offset = key_offset;
          key_kind = kind;
          storage = Storage.new doc_size;
          buckets = [];
        })

-- the bytes [start, start + width) of a document
unfoldable pub slice : Bytes → ℕ → ℕ → Option Bytes
slice doc start width =
    if ltb (length doc) (start + width) then none else some (take width (drop start doc))

-- m_key_buffer_fn(data, key_offset); sizeof(StringHeader) is 4
unfoldable pub key_buffer : KeyKind → ℕ → Bytes → Option Bytes
unfolding slice
key_buffer string_key key_offset doc =
    bind_option (slice doc key_offset 4) λ header. slice doc (key_offset + 4) (little_endian header)
key_buffer (plain_key type width) key_offset doc = slice doc key_offset width

-- the key of a stored document
unfoldable pub doc_key : Collection → ℕ → Option Bytes
unfolding key_buffer
doc_key c i = key_buffer c.key_kind c.key_offset (Storage.doc c.storage i)

-- the reserved hashes, of an empty bucket and of a removed one
unfoldable pub is_free : KeyValue → Bool
is_free bucket = (bucket.key_hash == 0) || (bucket.key_hash == tombstone_key_hash)

-- `key_hash & (n - 1)`, the first index, and the next one
unfoldable pub first_index : ℕ → ℕ → ℕ
first_index key_hash n = bit_and key_hash (n - 1)

unfoldable pub next_index : ℕ → ℕ → ℕ
next_index idx n = bit_and (idx + 1) (n - 1)

-- Whether a bucket with the right hash holds the key: its document's key is compared.
unfoldable pub holds_key : Collection → Bytes → ℕ → KeyValue → Option Bool
holds_key c key key_hash bucket =
    if bucket.key_hash == key_hash
    then (bind_option (doc_key c bucket.value_index) λ data_key. some (bytes_eq data_key key))
    else some Bool.false

-- The `for (;;)` of put_internal from `idx`. It makes at most one round for each bucket.
unfoldable pub put_loop :
    ℕ → Collection → List KeyValue → Bytes → ℕ → ℕ → ℕ → Option (List KeyValue × Found)
put_loop zero c dest key key_hash orig_idx idx = none
put_loop (suc fuel) c dest key key_hash orig_idx idx =
    let next = next_index idx (length dest) in
    let rest = put_loop fuel c dest key key_hash orig_idx next in
    let go_on = if next == orig_idx then some (dest, null) else rest in
    bind_option (get_elem? dest idx) λ bucket.
      if is_free bucket
      then some
          (set dest idx (record { key_hash = key_hash; value_index = c.storage.count }), at idx)
      else bind_option (holds_key c key key_hash bucket)
          λ same. if same then some (dest, at idx) else go_on

-- put_internal
unfoldable pub put_internal :
    Collection → List KeyValue → Bytes → ℕ → Option (List KeyValue × Found)
put_internal c dest key key_hash =
    let idx = first_index key_hash (length dest) in
    put_loop (length dest) c dest key key_hash idx idx

-- The `for (;;)` of find_internal.
unfoldable pub find_loop : ℕ → Collection → Bytes → ℕ → ℕ → ℕ → Option Found
find_loop zero c key key_hash orig_idx idx = none
find_loop (suc fuel) c key key_hash orig_idx idx =
    let next = next_index idx (length c.buckets) in
    let rest = find_loop fuel c key key_hash orig_idx next in
    let go_on = if next == orig_idx then some null else rest in
    bind_option (get_elem? c.buckets idx) λ bucket.
      if bucket.key_hash == 0
      then some null
      else bind_option (holds_key c key key_hash bucket)
          λ same. if same then some (at idx) else go_on

-- find_internal
unfoldable pub find_internal : Collection → Bytes → ℕ → Option Found
find_internal c key key_hash =
    let n = length c.buckets in
    let idx = first_index key_hash n in
    if n == 0 then some null else find_loop n c key key_hash idx idx

-- static_cast<std::size_t>(n / 1.4): exact for the table sizes, powers of two below 2 ^ 50
unfoldable pub load_limit : ℕ → ℕ
load_limit n = n * 10 / 14

-- Whether a result is a null pointer decides the branch; a bucket is then read or written.
unfoldable pub set_index : List KeyValue → ℕ → ℕ → List KeyValue
set_index dest idx i = elim (get_elem? dest idx) [
  | none ↦ dest
  | some bucket ↦ set dest idx (record bucket { value_index = i })
]

module _ (hash : KeyKind → Bytes → ℕ) where
  -- m_hash_fn(buf), with its assertion on the length; `hash kind` is std::hash of the key's type.
  unfoldable pub hash_key : KeyKind → Bytes → Option ℕ
  hash_key string_key buf = some (hash string_key buf)
  hash_key (plain_key type width) buf =
      if length buf == width then some (hash (plain_key type width) buf) else none

  -- The loop that moves document i and the later ones to the new buckets, over the number of them.
  -- The inner `none` is `return nullptr`.
  unfoldable pub rehash : ℕ → ℕ → Collection → List KeyValue → Option (Option (List KeyValue))
  rehash zero i c new_buckets = some (some new_buckets)
  rehash (suc left) i c new_buckets = bind_option (doc_key c i) λ elem_key.
      bind_option (hash_key c.key_kind elem_key) λ elem_key_h.
        bind_option (put_internal c new_buckets elem_key elem_key_h) λ r. elim r.1 [
          | null ↦ some none
          | at idx ↦ bind_option (get_elem? r.0 idx) λ bucket.
              if bucket.value_index == c.storage.count
              then rehash left (i + 1) c (set_index r.0 idx i)
              else none
        ]

  -- the first part of `put`: the collection to insert into, or `return nullptr`
  unfoldable pub grow : Collection → Option (Option Collection)
  grow c =
      let n = if length c.buckets * 2 == 0 then 32 else length c.buckets * 2 in
      if leb (load_limit (length c.buckets)) (c.storage.count + 1)
      then (bind_option (rehash c.storage.count 0 c (replicate n empty_bucket))
          λ moved. some (elim moved [ none ↦ none | some b ↦ some (record c { buckets = b }) ]))
      else some (some c)

  -- the part of `put` behind the bucket that put_internal returned
  unfoldable pub store : Collection → Bytes → ℕ → Option (Collection × Found)
  store c elem idx = bind_option (get_elem? c.buckets idx) λ bucket.
      if bucket.value_index == c.storage.count
      then (bind_option (Storage.put c.storage elem) λ r. some (record c { storage = r.0 }, at r.1))
      else bind_option (Storage.set_doc c.storage bucket.value_index elem)
          λ s. some (record c { storage = s }, at bucket.value_index)

  -- put_internal on the collection's own buckets, and the storage of the document
  unfoldable pub insert : Collection → Bytes → Option (Collection × Found)
  insert c elem = bind_option (key_buffer c.key_kind c.key_offset elem) λ data_key.
      bind_option (hash_key c.key_kind data_key) λ data_key_h.
        bind_option (put_internal c c.buckets data_key data_key_h) λ r. elim r.1 [
          | null ↦ some (c, null)
          | at idx ↦ store (record c { buckets = r.0 }) elem idx
        ]

  -- void* put(const void* data): the index of the document
  unfoldable pub put : Collection → Bytes → Option (Collection × Found)
  put c elem =
      bind_option (grow c) λ grown. elim grown [ none ↦ some (c, null) | some c' ↦ insert c' elem ]

  -- void* find(ConstBuffer key): the index of the document
  unfoldable pub find : Collection → Bytes → Option Found
  find c key = bind_option (hash_key c.key_kind key) λ h.
      bind_option (find_internal c key h) λ found. elim found [
        | null ↦ some null
        | at idx ↦ bind_option (get_elem? c.buckets idx) λ bucket. some (at bucket.value_index)
      ]

  -- the branch of `remove` that tells the last document's bucket of its new place
  unfoldable pub redirect_last : Collection → ℕ → Option (List KeyValue)
  redirect_last c i =
      if i == c.storage.count - 1
      then some c.buckets
      else bind_option (doc_key c (c.storage.count - 1)) λ last_key.
        bind_option (hash_key c.key_kind last_key) λ last_hash.
          bind_option (find_internal c last_key last_hash)
            λ found. elim found [ null ↦ none | at idx ↦ some (set_index c.buckets idx i) ]

  -- void remove(ConstBuffer key)
  unfoldable pub remove : Collection → Bytes → Option Collection
  remove c key = bind_option (hash_key c.key_kind key) λ h.
      bind_option (find_internal c key h) λ found. elim found [
        | null ↦ some c
        | at idx ↦ bind_option (get_elem? c.buckets idx) λ bucket.
            bind_option (redirect_last c bucket.value_index) λ redirected.
              bind_option (get_elem? redirected idx) λ now.
                bind_option (Storage.remove c.storage now.value_index) λ s. some (record c {
                  storage = s;
                  buckets = set redirected idx (record now { key_hash = tombstone_key_hash });
                })
      ]
