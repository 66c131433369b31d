-- ===== src/Db/Storage/Docs.antt =====
-- A vector of bytes as a list of documents of one size.
use boutique.Common.{
  ℕ, zero, suc, ◌+◌, ◌*◌, ◌≤◌, ◌<◌, ◌≡◌, refl, ap, some, List, [], ◌∷◌, ◌++◌, arith, Bytes, length,
  get_elem?, set, take, drop, length-take, length-drop, take-add, drop-add, take-length_append,
  drop-length_append, take-append_le, drop-append_le, append_assoc,
}
use native.Mathlib.Nat.{mul-zero, add_assoc, zero-add}
use boutique.Db.Storage.{overwrite}

-- the first n documents
unfoldable pub docs_of : ℕ → ℕ → Bytes → List Bytes
docs_of zero size bytes = []
docs_of (suc n) size bytes = take size bytes ∷ docs_of n size (drop size bytes)

pub length-docs_of : (n size : ℕ) (bytes : Bytes) → length (docs_of n size bytes) ≡ n
unfolding docs_of
length-docs_of zero size bytes = refl
length-docs_of (suc n) size bytes = ap suc (length-docs_of n size (drop size bytes))

times_suc : (size i : ℕ) → size * suc i ≡ size + size * i
times_suc size i = omega arith

pub get_elem?-docs_of :
    (n size i : ℕ) (bytes : Bytes)
    → i < n
    → get_elem? (docs_of n size bytes) i ≡ some (take size (drop (size * i) bytes))
unfolding docs_of
get_elem?-docs_of zero size i bytes h = absurd (omega arith)
get_elem?-docs_of (suc n) size zero bytes h = rw mul-zero
get_elem?-docs_of (suc n) size (suc i) bytes h =
    rw (times_suc, drop-add) (get_elem?-docs_of n size i (drop size bytes) (omega arith))

-- Bytes behind the documents do not matter.
pub docs_of-append :
    (n size : ℕ) (bytes pad : Bytes)
    → size * n ≤ length bytes
    → docs_of n size (bytes ++ pad) ≡ docs_of n size bytes
unfolding docs_of
docs_of-append zero size bytes pad h = refl
docs_of-append (suc n) size bytes pad h = rw (
  take-append_le size bytes pad (omega arith),
  drop-append_le size bytes pad (omega arith),
  docs_of-append n size (drop size bytes) pad (omega (arith, length-drop size bytes)),
)

pub docs_of-suc :
    (n size : ℕ) (bytes : Bytes)
    → docs_of (suc n) size bytes ≡ docs_of n size bytes ++ take size (drop (size * n) bytes) ∷ []
unfolding docs_of
docs_of-suc zero size bytes = rw mul-zero
docs_of-suc (suc n) size bytes =
    rw (times_suc, drop-add) (ap (λ t. take size bytes ∷ t) (docs_of-suc n size (drop size bytes)))

-- A write at a later document leaves the first one.
overwrite-suc :
    (size i : ℕ) (src bytes : Bytes)
    → overwrite (size * suc i) src bytes
      ≡ take size bytes ++ overwrite (size * i) src (drop size bytes)
unfolding overwrite
overwrite-suc size i src bytes = rw (times_suc, take-add, append_assoc, add_assoc, drop-add)

-- the first `size` bytes, and those behind them
front_back :
    (size : ℕ) (front back : Bytes)
    → length front ≡ size
    → (take size (front ++ back) ≡ front) × (drop size (front ++ back) ≡ back)
front_back size front back e =
    (rw (← e) (take-length_append front back), rw (← e) (drop-length_append front back))

overwrite-zero :
    (size : ℕ) (src bytes : Bytes)
    → length src ≡ size
    → overwrite (size * 0) src bytes ≡ src ++ drop size bytes
unfolding overwrite
overwrite-zero size src bytes e = rw (mul-zero, zero-add, e)

-- A write of one document is a write to the list.
pub docs_of-overwrite :
    (n size i : ℕ) (src bytes : Bytes)
    → length src ≡ size
    → size * n ≤ length bytes
    → docs_of n size (overwrite (size * i) src bytes) ≡ set (docs_of n size bytes) i src
unfolding docs_of
docs_of-overwrite zero size i src bytes e h = refl
docs_of-overwrite (suc n) size zero src bytes e h =
    let (first, rest) = front_back size src (drop size bytes) e in
    rw (overwrite-zero size src bytes e, first, rest)
docs_of-overwrite (suc n) size (suc i) src bytes e h =
    let front = take size bytes in
    let back = overwrite (size * i) src (drop size bytes) in
    let (first, rest) = front_back size front back (ground (arith, length-take size bytes)) in
    rw (overwrite-suc size i src bytes, first, rest)
      (ap (λ t. front ∷ t)
        (docs_of-overwrite n size i src (drop size bytes) e
          (omega (arith, length-drop size bytes))))
