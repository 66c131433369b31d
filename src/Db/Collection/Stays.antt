-- ===== src/Db/Collection/Stays.antt =====
-- The second part of put keeps the index of a collection.
use boutique.Common.{
  ℕ, ◌≡◌, ◌≢◌, sym, subst, ap, ◌∙◌, inl, inr, some, List, Bytes, length, Option-cases,
}
use boutique.Db.Collection.{
  KeyKind, KeyValue, Collection, null, at, tombstone_key_hash, hash_key, put_internal, insert,
  store, key_buffer,
}
use boutique.Db.Collection.Insert.{put_internal-Placed, Finds, Finds-Placed}
use boutique.Db.Storage.Reads.{Stores}
use boutique.Db.Collection.Index.{IsIndexed, IsSafe, AreUnremoved}
use boutique.Db.Collection.Keeps.{IsIndexed-Placed, AreUnremoved-Placed}

module _ (hash : KeyKind → Bytes → ℕ) (c c' : Collection) (key elem : Bytes) (h i : ℕ)
    (inv : IsIndexed hash c) (whole : length elem ≡ c.storage.doc_size)
    (with_key : key_buffer c.key_kind c.key_offset elem ≡ some key)
    (hashed : hash_key hash c.key_kind key ≡ some h) (nonzero : h ≢ 0)
    (unremoved : h ≢ tombstone_key_hash) (safe : IsSafe c key) where
  IsIndexed-Finds :
      (dest' : List KeyValue) (p j : ℕ)
      → put_internal c c.buckets key h ≡ some (dest', at p)
      → Finds hash c dest' key elem h p j
      → store hash (record c { buckets = dest' }) elem p ≡ some (c', at i)
      → IsIndexed hash c' × (AreUnremoved c.buckets → AreUnremoved c'.buckets)
  IsIndexed-Finds dest' p j placed f run =
      let (i', b, here, points, indexed) =
        IsIndexed-Placed hash c key elem h inv with_key hashed nonzero unremoved safe p dest'
          f.after placed (put_internal-Placed c c.buckets key h p dest' placed) in
      let both = sym f.stored ∙ run in
      let same : record c { storage = f.after; buckets = dest' } ≡ c' = cc in
      let same_bucket : b ≡ f.index = cc in
      let same_index : j ≡ i' =
        sym f.points ∙ (sym (ap (λ x. x.value_index) same_bucket) ∙ points) in
      subst (λ x. IsIndexed hash x × (AreUnremoved c.buckets → AreUnremoved x.buckets)) same
        (
          indexed (subst (λ x. Stores c.storage f.after x elem) same_index f.kept),
          AreUnremoved-Placed hash c key elem h inv with_key hashed nonzero unremoved safe p dest'
              (put_internal-Placed c c.buckets key h p dest' placed),
        )

  -- In a collection whose documents are indexed they still are after the second part of put, for a
  -- document of the collection's size whose key hashes neither to 0 nor to the hash of a removed one,
  -- where no document has its key or nothing was removed, in which case nothing is removed then.
  pub insert-IsIndexed :
      insert hash c elem ≡ some (c', at i)
      → IsIndexed hash c' × (AreUnremoved c.buckets → AreUnremoved c'.buckets)
  unfolding insert
  insert-IsIndexed run = elim (Option-cases (put_internal c c.buckets key h)) [
    | inl failed ↦ let bad = rw (with_key, hashed, failed) at run in cc
    | inr ((dest', null), placed) ↦ let bad = rw (with_key, hashed, placed) at run in cc
    | inr ((dest', at p), placed) ↦
        let (j, f) =
          Finds-Placed hash c key elem h p inv.valid whole with_key inv.below nonzero dest' placed
            (put_internal-Placed c c.buckets key h p dest' placed) in
        IsIndexed-Finds dest' p j placed f (rw (with_key, hashed, placed) at run)
  ]
