-- ===== src/Db/Storage/Reads.antt =====
-- What is read of a storage after a document was stored in it.
use boutique.Common.{
  ℕ, ◌≤◌, ◌<◌, ◌≡◌, ◌≢◌, sym, some, arith, Bytes, length, take, get_elem?, get_elem?-append_lt,
  get_elem?-append_last, get_elem?-set_self, get_elem?-set_ne, take-whole,
}
use boutique.Db.Storage.{Storage, put, doc, set_doc}
use boutique.Db.Storage.Docs.{length-docs_of}
use boutique.Db.Storage.Laws.{IsValid, docs, put-docs, set_doc-docs, get_elem?-docs}

-- Document i of `s'` is `elem`, and the other documents are those of `s`.
pub record Stores (s s' : Storage) (i : ℕ) (elem : Bytes) : Type 0 where
  pub valid : IsValid s'
  pub size : s'.doc_size ≡ s.doc_size
  pub in_range : i < s'.count
  pub grows : s.count ≤ s'.count
  pub only : (j : ℕ) → j < s'.count → j ≢ i → j < s.count
  pub this : doc s' i ≡ elem
  pub others : (j : ℕ) → j < s.count → j ≢ i → doc s' j ≡ doc s j

same_doc :
    (s s' : Storage) (j : ℕ)
    → j < s.count
    → j < s'.count
    → get_elem? (docs s') j ≡ get_elem? (docs s) j
    → doc s' j ≡ doc s j
same_doc s s' j h h' e = let a = get_elem?-docs s j h in let b = get_elem?-docs s' j h' in cc

pub put-Stores :
    (s : Storage) (elem : Bytes)
    → IsValid s
    → length elem ≡ s.doc_size
    → (s' : Storage) × (put s elem ≡ some (s', s.count)) × Stores s s' s.count elem
put-Stores s elem valid e =
    let (s', run, valid', size, more, shown) = put-docs s elem valid (omega arith) in
    let last = get_elem?-docs s' s.count (omega arith) in
    let len : length (docs s) ≡ s.count = length-docs_of s.count s.doc_size s.bytes in
    (
      s',
      run,
      record {
        valid = valid';
        size = size;
        in_range = omega arith;
        grows = omega arith;
        only = λ j lt ne. omega (arith, ne);
        this =
            let there = get_elem?-append_last (docs s) (take s.doc_size elem) in
            let whole = take-whole s.doc_size elem (omega arith) in
            let both : get_elem? (docs s') s.count ≡ some (take s.doc_size elem) =
              rw shown (rw len at there) in
            cc;
        others = λ j lt ne.
            same_doc s s' j lt (omega arith)
              (rw shown (get_elem?-append_lt (docs s) _ j (omega arith)));
      },
    )

pub set_doc-Stores :
    (s : Storage) (i : ℕ) (elem : Bytes)
    → IsValid s
    → i < s.count
    → length elem ≡ s.doc_size
    → (s' : Storage) × (set_doc s i elem ≡ some s') × Stores s s' i elem
set_doc-Stores s i elem valid h e =
    let (s', run, valid', size, more, shown) = set_doc-docs s i elem valid h (omega arith) in
    let now = get_elem?-docs s' i (omega arith) in
    let len : length (docs s) ≡ s.count = length-docs_of s.count s.doc_size s.bytes in
    (
      s',
      run,
      record {
        valid = valid';
        size = size;
        in_range = omega arith;
        grows = omega arith;
        only = λ j lt ne. omega (arith, ne);
        this =
            let there = get_elem?-set_self (docs s) i (take s.doc_size elem) (omega arith) in
            let whole = take-whole s.doc_size elem (omega arith) in
            let both : get_elem? (docs s') i ≡ some (take s.doc_size elem) = rw shown there in cc;
        others = λ j lt ne.
            same_doc s s' j lt (omega arith)
              (rw shown (get_elem?-set_ne (docs s) i j _ (λ p. ne (sym p))));
      },
    )
