-- ===== src/Db/Storage/Removes.antt =====
-- What is read of a storage after a document was removed from it.
use boutique.Common.{
  ℕ, ◌+◌, ◌-◌, ◌<◌, ◌≡◌, sym, ◌∙◌, some, arith, take, get_elem?, ◌==◌, ==_iff, if◌then◌else◌,
  Bool-cases, inl, inr, get_elem?-take, get_elem?-set_self, get_elem?-set_ne, length-take, set, ap,
  refl, ◌≢◌,
}
use boutique.Db.Storage.{Storage, doc, remove}
use boutique.Db.Storage.Docs.{length-docs_of}
use boutique.Db.Storage.Laws.{IsValid, docs, remove-docs, get_elem?-docs}

-- One document less than in `s`: the last one stands in place i.
pub record Removes (s s' : Storage) (i : ℕ) : Type 0 where
  pub valid : IsValid s'
  pub size : s'.doc_size ≡ s.doc_size
  pub fewer : s'.count + 1 ≡ s.count
  pub kept : (j : ℕ) → j < s'.count → doc s' j ≡ doc s (if j == i then s'.count else j)

kept_doc :
    (s s' : Storage) (i j n : ℕ)
    → n + 1 ≡ s.count
    → s'.count ≡ n
    → docs s' ≡ set (take n (docs s)) i (doc s n)
    → j < n
    → doc s' j ≡ doc s (if j == i then n else j)
kept_doc s s' i j n more len shown lt =
    let now = get_elem?-docs s' j (omega (arith, lt, len)) in
    elim (Bool-cases (j == i)) [
      | inl same ↦
          let e = (==_iff j i).0 same in
          let there = get_elem?-set_self (take n (docs s)) j (doc s n) (
            omega (
              arith,
              lt,
              more,
              length-take n (docs s),
              length-docs_of s.count s.doc_size s.bytes,
            )) in
          let both : some (doc s' j) ≡ some (doc s n) = sym now ∙ (rw (shown, ← e) there) in
          rw same cc
      | inr other ↦
          let ne : i ≢ j = ground arith in
          let there = get_elem?-docs s j (omega (arith, lt, more)) in
          let both : some (doc s' j) ≡ some (doc s j) =
            sym now
            ∙ (ap (λ ds. get_elem? ds j) shown
                ∙ (get_elem?-set_ne (take n (docs s)) i j (doc s n) ne
                    ∙ (get_elem?-take n j (docs s) lt ∙ there))) in
          rw other cc
    ]

pub remove-Removes :
    (s : Storage) (i : ℕ)
    → IsValid s
    → i < s.count
    → (s' : Storage) × (remove s i ≡ some s') × Removes s s' i
remove-Removes s i valid lt =
    let (s', run, valid', size, fewer, shown) = remove-docs s i valid lt in
    let same : s.count - 1 ≡ s'.count = omega arith in
    (
      s',
      run,
      record {
        valid = valid';
        size = size;
        fewer = fewer;
        kept = λ j lt_j. kept_doc s s' i j s'.count fewer refl (rw same at shown) lt_j;
      },
    )
