-- ===== src/Db/Collection/Writes.antt =====
-- Where put writes a document: behind the others, or over one with its key.
use boutique.Common.{
  ℕ, ◌≡◌, refl, sym, ap, subst, ◌∙◌, inl, inr, ◌⊎◌, none, some, List, Bytes, Option-cases,
}
use boutique.Db.Storage.Reads.{Stores}
use boutique.Db.Collection.{
  KeyKind, KeyValue, Collection, null, at, doc_key, put_internal, store, insert, grow, put,
}
use boutique.Db.Collection.Lookup.{Placed, fresh, there, get_elem?-set_length}
use boutique.Db.Collection.Insert.{put_internal-Placed, Finds, Finds-Placed}
use boutique.Db.Collection.Index.{IsIndexed, holds_key-key}
use boutique.Db.Collection.Grow.{grow-IsIndexed}
use boutique.Db.Collection.Puts.{Fits}

-- A collection in which the document was stored at index i.
pub record Writes (c c' : Collection) (key elem : Bytes) (i : ℕ) : Type 0 where
  pub same_schema : c'.schema ≡ c.schema
  pub kind : c'.key_kind ≡ c.key_kind
  pub offset : c'.key_offset ≡ c.key_offset
  pub stores : Stores c.storage c'.storage i elem
  pub place : (i ≡ c.storage.count) ⊎ (doc_key c i ≡ some key)

module _ (hash : KeyKind → Bytes → ℕ) (c : Collection) (key elem : Bytes) (h p i : ℕ) where
  place-Placed :
      (dest' : List KeyValue)
      → Placed c c.buckets key h p dest'
      → Finds hash c dest' key elem h p i
      → (i ≡ c.storage.count) ⊎ (doc_key c i ≡ some key)
  place-Placed _ (fresh b here free) f =
      let v : KeyValue = record { key_hash = h; value_index = c.storage.count } in
      let both = sym (get_elem?-set_length c.buckets p v b here) ∙ f.now in
      let same : v ≡ f.index = cc in inl (sym f.points ∙ sym (ap (λ x. x.value_index) same))
  place-Placed _ (there b here taken held) f =
      let both = sym here ∙ f.now in
      let same : b ≡ f.index = cc in
      let e : b.value_index ≡ i = ap (λ x. x.value_index) same ∙ f.points in
      inr (ap (doc_key c) (sym e) ∙ holds_key-key c key h b held)

  Finds-Writes :
      (c' : Collection) (j : ℕ) (dest' : List KeyValue)
      → Placed c c.buckets key h p dest'
      → Finds hash c dest' key elem h p i
      → store hash (record c { buckets = dest' }) elem p ≡ some (c', at j)
      → Writes c c' key elem j
  Finds-Writes c' j dest' placed f run =
      let both = sym f.stored ∙ run in
      let same : record c { storage = f.after; buckets = dest' } ≡ c' = cc in
      let here : i ≡ j = cc in
      subst (λ x. Writes c x key elem j) same
        (subst (λ y. Writes c (record c { storage = f.after; buckets = dest' }) key elem y) here
          (record {
            same_schema = refl;
            kind = refl;
            offset = refl;
            stores = f.kept;
            place = place-Placed dest' placed f;
          }))

module _ (hash : KeyKind → Bytes → ℕ) where
  insert-Writes :
      (c c' : Collection) (elem : Bytes) (i : ℕ)
      → IsIndexed hash c
      → (f : Fits hash c elem) → insert hash c elem ≡ some (c', at i)
      → Writes c c' f.key elem i
  unfolding insert
  insert-Writes c c' elem i inv f run =
      elim (Option-cases (put_internal c c.buckets f.key f.key_hash)) [
        | inl failed ↦ let bad = rw (f.with_key, f.hashed, failed) at run in cc
        | inr ((dest', null), found) ↦ let bad = rw (f.with_key, f.hashed, found) at run in cc
        | inr ((dest', at p), found) ↦
            let placed = put_internal-Placed c c.buckets f.key f.key_hash p dest' found in
            let (j, finds) =
              Finds-Placed hash c f.key elem f.key_hash p inv.valid f.whole f.with_key inv.below
                f.nonzero dest' found placed in
            Finds-Writes hash c f.key elem f.key_hash p j c' i dest' placed finds
              (rw (f.with_key, f.hashed, found) at run)
      ]

  grown-Writes :
      (c c' : Collection) (bs : List KeyValue) (elem : Bytes) (i : ℕ)
      → IsIndexed hash (record c { buckets = bs })
      → (f : Fits hash c elem) → insert hash (record c { buckets = bs }) elem ≡ some (c', at i)
      → Writes c c' f.key elem i
  unfolding doc_key
  grown-Writes c c' bs elem i inv f run =
      let w =
        insert-Writes (record c { buckets = bs }) c' elem i inv
          (record {
            whole = f.whole;
            key = f.key;
            with_key = f.with_key;
            key_hash = f.key_hash;
            hashed = f.hashed;
            nonzero = f.nonzero;
            unremoved = f.unremoved;
          })
          run in
      record {
        same_schema = w.same_schema;
        kind = w.kind;
        offset = w.offset;
        stores = w.stores;
        place = w.place;
      }

  -- where a document that fits is written
  pub put-Writes :
      (c c' : Collection) (elem : Bytes) (i : ℕ)
      → IsIndexed hash c
      → (f : Fits hash c elem) → put hash c elem ≡ some (c', at i)
      → Writes c c' f.key elem i
  unfolding put
  put-Writes c c' elem i inv f run = elim (Option-cases (grow hash c)) [
    | inl failed ↦ let bad = rw failed at run in cc
    | inr (none, grown) ↦ let bad = rw grown at run in cc
    | inr (some g, grown) ↦
        let (inv', same, un) = grow-IsIndexed hash c inv g grown in
        grown-Writes c c' g.buckets elem i (subst (IsIndexed hash) same inv') f
          (subst (λ x. insert hash x elem ≡ some (c', at i)) same (rw grown at run))
  ]
