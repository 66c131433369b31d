-- ===== src/Db/Storage/Laws.antt =====
-- What the operations of the storage do to the documents.
use native.Mathlib.Nat.{zero-mul}
use native.Mathlib.Numerals.{add-one}
use boutique.Common.{
  ℕ, zero, suc, ◌+◌, ◌-◌, ◌*◌, ◌≤◌, ◌<◌, ◌≡◌, refl, sym, ap, ◌∙◌, max, inl, inr, some, List, [],
  ◌∷◌, ◌++◌, append_assoc, append-nil, arith, Bytes, length, get_elem?, set, take, drop, replicate,
  length-append, length-replicate, length-take, length-drop, set-ge, set-append_last, ltb, lt→ltb,
  le→ltb_false, ◌==◌, Bool-cases, ==_iff,
}
use boutique.Db.Storage.{Storage, init_cap, resize, reserve, overwrite, put, doc, set_doc, remove}
use boutique.Db.Storage.Docs.{
  docs_of, length-docs_of, get_elem?-docs_of, docs_of-append, docs_of-suc, docs_of-overwrite,
}

-- The documents lie within the vector.
pub record IsValid (s : Storage) : Type 0 where
  pub fits : s.doc_size * s.count ≤ length s.bytes

reserve-append :
    (fuel needed size : ℕ) (bytes : Bytes)
    → (pad : Bytes) × (reserve fuel needed size bytes ≡ bytes ++ pad)
unfolding reserve resize
reserve-append zero needed size bytes = ([], sym (append-nil bytes))
reserve-append (suc fuel) needed size bytes =
    let zeros : Bytes = replicate (max (length bytes * 2) (size * init_cap) - length bytes) 0 in
    let (pad, e) = reserve-append fuel needed size (bytes ++ zeros) in
    elim (Bool-cases (ltb (length bytes) needed)) [
      | inl more ↦ (zeros ++ pad, rw (more, ← append_assoc) e)
      | inr done ↦ ([], rw (done, append-nil))
    ]

-- The loop ends with room for what is needed.
reserve_enough :
    (fuel needed size : ℕ) (bytes : Bytes)
    → 1 ≤ size
    → needed ≤ length bytes + fuel
    → needed ≤ length (reserve fuel needed size bytes)
unfolding reserve resize
reserve_enough zero needed size bytes pos h = omega arith
reserve_enough (suc fuel) needed size bytes pos h =
    let n = max (length bytes * 2) (size * init_cap) - length bytes in
    let zeros : Bytes = replicate n 0 in
    elim (Bool-cases (ltb (length bytes) needed)) [
      | inl more ↦ rw more (
          reserve_enough fuel needed size (bytes ++ zeros) pos
            (omega (arith, length-append bytes zeros, length-replicate {A = ℕ} n 0)))
      | inr done ↦ rw done (ground arith)
    ]

pub length-overwrite :
    (at : ℕ) (src bytes : Bytes)
    → at + length src ≤ length bytes
    → length (overwrite at src bytes) ≡ length bytes
unfolding overwrite
length-overwrite at src bytes h =
    let rest = drop (at + length src) bytes in
    omega (
      arith,
      length-append (take at bytes) (src ++ rest),
      length-append src rest,
      length-take at bytes,
      length-drop (at + length src) bytes,
    )

room_at :
    (size i n width : ℕ) (bytes : Bytes)
    → i < n
    → width ≡ size
    → size * n ≤ length bytes
    → size * i + width ≤ length bytes
room_at size i n width bytes h e fits =
    let step : size * (i + 1) ≤ size * n = grind (arith, h) in omega (arith, e)

set_last :
    (xs : List Bytes) (x y : Bytes) (n : ℕ) → length xs ≡ n → set (xs ++ x ∷ []) n y ≡ xs ++ y ∷ []
set_last xs x y n e = rw (← e) (set-append_last xs x y)

abbrev pub docs : Storage → List Bytes
docs s = docs_of s.count s.doc_size s.bytes

pub get_elem?-docs : (s : Storage) (i : ℕ) → i < s.count → get_elem? (docs s) i ≡ some (doc s i)
unfolding doc
get_elem?-docs s i h = get_elem?-docs_of s.count s.doc_size i s.bytes h

reserve_room :
    (size count : ℕ) (bytes : Bytes)
    → size * (count + 1) ≤ length (reserve (size * (count + 1)) (size * (count + 1)) size bytes)
reserve_room zero count bytes = omega (arith, zero-mul (count + 1))
reserve_room (suc size) count bytes =
    reserve_enough (suc size * (count + 1)) (suc size * (count + 1)) (suc size) bytes (omega arith)
      (omega arith)

-- Where the documents lie within the vector, storing a document that is given whole succeeds: its
-- first bytes become the last document, those before it stay as they were, and all lie within the
-- vector again.
pub put-docs :
    (s : Storage) (elem : Bytes)
    → IsValid s
    → s.doc_size ≤ length elem
    → (s' : Storage) × (put s elem ≡ some (s', s.count))
      × IsValid s'
      × (s'.doc_size ≡ s.doc_size)
      × (s'.count ≡ s.count + 1)
      × (docs s' ≡ docs s ++ take s.doc_size elem ∷ [])
unfolding put
put-docs s elem valid long =
    let size = s.doc_size in
    let needed = size * (s.count + 1) in
    let room = reserve needed needed size s.bytes in
    let src = take size elem in
    let (pad, whole) = reserve-append needed needed size s.bytes in
    let wide : length src ≡ size = ground (arith, length-take size elem) in
    let enough : needed ≤ length room = reserve_room size s.count s.bytes in
    let last = take size (drop (size * s.count) room) in
    let before : docs_of s.count size room ≡ docs s =
      rw whole (docs_of-append s.count size s.bytes pad valid.fits) in
    (
      record s { bytes = overwrite (size * s.count) src room; count = s.count + 1 },
      rw (le→ltb_false (length elem) size long),
      record {
        fits =
            omega (arith, enough, wide, length-overwrite (size * s.count) src room (omega arith));
      },
      refl,
      refl,
      rw
          (
            docs_of-overwrite (s.count + 1) size s.count src room wide enough,
            ap (λ n. docs_of n size room) (add-one s.count) ∙ docs_of-suc s.count size room,
            before,
          )
          (set_last (docs s) last src s.count (length-docs_of s.count size s.bytes)),
    )

-- Where the documents lie within the vector, writing a whole document over one in range succeeds,
-- changes that one and no other, and they lie within the vector again.
pub set_doc-docs :
    (s : Storage) (i : ℕ) (elem : Bytes)
    → IsValid s
    → i < s.count
    → s.doc_size ≤ length elem
    → (s' : Storage) × (set_doc s i elem ≡ some s')
      × IsValid s'
      × (s'.doc_size ≡ s.doc_size)
      × (s'.count ≡ s.count)
      × (docs s' ≡ set (docs s) i (take s.doc_size elem))
unfolding set_doc
set_doc-docs s i elem valid h long =
    let size = s.doc_size in
    let src = take size elem in
    let wide : length src ≡ size = ground (arith, length-take size elem) in
    let within : size * i + length src ≤ length s.bytes =
      room_at size i s.count (length src) s.bytes h wide valid.fits in
    (
      record s { bytes = overwrite (size * i) src s.bytes },
      rw (le→ltb_false (length elem) size long),
      record { fits = rw (length-overwrite (size * i) src s.bytes within) valid.fits },
      refl,
      refl,
      docs_of-overwrite s.count size i src s.bytes wide valid.fits,
    )

-- the bytes of a document, where the vector holds it
length-doc : (s : Storage) (i : ℕ) → IsValid s → i < s.count → length (doc s i) ≡ s.doc_size
unfolding doc
length-doc s i valid h =
    let size = s.doc_size in
    let step : size * (i + 1) ≤ size * s.count = grind (arith, h) in
    ground (
      arith,
      valid.fits,
      step,
      length-take size (drop (size * i) s.bytes),
      length-drop (size * i) s.bytes,
    )

fewer : (size n : ℕ) (bytes : Bytes) → size * n ≤ length bytes → size * (n - 1) ≤ length bytes
fewer size n bytes h = let le : size * (n - 1) ≤ size * n = grind arith in omega arith

take-docs_of :
    (n m size : ℕ) (bytes : Bytes) → n ≤ m → take n (docs_of m size bytes) ≡ docs_of n size bytes
unfolding docs_of
take-docs_of zero m size bytes h = refl
take-docs_of (suc n) zero size bytes h = absurd (omega arith)
take-docs_of (suc n) (suc m) size bytes h =
    ap (λ ds. take size bytes ∷ ds) (take-docs_of n m size (drop size bytes) (omega arith))

-- Where the documents lie within the vector, removing one in range succeeds, and they lie within
-- it again. Of the documents all but the last are left, where the last
-- one stands in the place of the one removed, if that was another.
pub remove-docs :
    (s : Storage) (i : ℕ)
    → IsValid s
    → i < s.count
    → (s' : Storage) × (remove s i ≡ some s')
      × IsValid s'
      × (s'.doc_size ≡ s.doc_size)
      × (s'.count + 1 ≡ s.count)
      × (docs s' ≡ set (take (s.count - 1) (docs s)) i (doc s (s.count - 1)))
unfolding remove
remove-docs s i valid h =
    let size = s.doc_size in
    let n = s.count - 1 in
    let src = doc s n in
    let in_range = lt→ltb i s.count h in
    let shorter : size * n ≤ length s.bytes = fewer size s.count s.bytes valid.fits in
    let kept = take-docs_of n s.count size s.bytes (omega arith) in
    elim (Bool-cases (i == n)) [
      | inl last ↦ (
        record s { count = n },
        rw (in_range, last),
        record { fits = shorter },
        refl,
        omega arith,
        rw kept (
            sym (
              set-ge (docs_of n size s.bytes) i src
                (omega (arith, length-docs_of n size s.bytes, (==_iff i n).0 last)))),
      )
      | inr other ↦
          let wide = length-doc s n valid (omega arith) in
          (
            record s { bytes = overwrite (size * i) src s.bytes; count = n },
            rw (in_range, other),
            record {
              fits =
                  rw
                    (length-overwrite (size * i) src s.bytes
                      (room_at size i s.count (length src) s.bytes h wide valid.fits))
                    shorter;
            },
            refl,
            omega arith,
            rw kept (docs_of-overwrite n size i src s.bytes wide shorter),
          )
    ]
