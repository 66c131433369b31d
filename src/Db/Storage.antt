-- ===== src/Db/Storage.antt =====
-- db/storage.hpp and db/storage.cpp: documents of one size, one after another in a vector. A pointer
-- to a document is its index. `none` is a failed assertion, or a read past the end of the argument.
pub mod Docs
pub mod Laws
pub mod Reads
pub mod Removes
use boutique.Common.{
  ℕ, zero, suc, ◌+◌, ◌-◌, ◌*◌, max, Bool, Option, none, some, [], ◌++◌, Bytes, length, take, drop,
  replicate, ltb, ◌==◌, if◌then◌else◌,
}

pub record Storage : Type 0 where
  pub doc_size : ℕ
  pub bytes : Bytes
  pub count : ℕ

-- Storage(doc_size)
unfoldable pub new : ℕ → Storage
new doc_size = record { doc_size = doc_size; bytes = []; count = 0 }

abbrev pub init_cap : ℕ
init_cap = 16

-- m_data.resize(n), for an n that is no less than the size: zeros are added
unfoldable pub resize : ℕ → Bytes → Bytes
resize n bytes = bytes ++ replicate (n - length bytes) 0

-- The `while` of `put`. Each round adds a byte at least, so `needed` rounds are enough.
unfoldable pub reserve : ℕ → ℕ → ℕ → Bytes → Bytes
unfolding resize
reserve zero needed doc_size bytes = bytes
reserve (suc fuel) needed doc_size bytes =
    let rest =
      reserve fuel needed doc_size (resize (max (length bytes * 2) (doc_size * init_cap)) bytes) in
    if ltb (length bytes) needed then rest else bytes

-- memcpy(bytes + at, src, length src)
unfoldable pub overwrite : ℕ → Bytes → Bytes → Bytes
overwrite at src bytes = take at bytes ++ (src ++ drop (at + length src) bytes)

-- void* put(const void* elem_data): the index of the document
unfoldable pub put : Storage → Bytes → Option (Storage × ℕ)
put s elem =
    let needed = s.doc_size * (s.count + 1) in
    let room = reserve needed needed s.doc_size s.bytes in
    let written = overwrite (s.doc_size * s.count) (take s.doc_size elem) room in
    if ltb (length elem) s.doc_size
    then none
    else some (record s { bytes = written; count = s.count + 1 }, s.count)

-- operator[]
unfoldable pub doc : Storage → ℕ → Bytes
doc s i = take s.doc_size (drop (s.doc_size * i) s.bytes)

-- memcpy(m_storage[i], data, doc_size), as the collection does it
unfoldable pub set_doc : Storage → ℕ → Bytes → Option Storage
set_doc s i elem =
    if ltb (length elem) s.doc_size
    then none
    else some (record s { bytes = overwrite (s.doc_size * i) (take s.doc_size elem) s.bytes })

-- void remove(const void* elem_ptr)
unfoldable pub remove : Storage → ℕ → Option Storage
remove s i =
    if ltb i s.count
    then some (record s {
      bytes =
          if i == s.count - 1
          then s.bytes
          else overwrite (s.doc_size * i) (doc s (s.count - 1)) s.bytes;
      count = s.count - 1;
    })
    else none

-- clear() and empty()
unfoldable pub clear : Storage → Storage
clear s = record s { count = 0 }

unfoldable pub empty : Storage → Bool
empty s = s.count == 0
