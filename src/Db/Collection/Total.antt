-- ===== src/Db/Collection/Total.antt =====
-- put stores every document that fits.
use boutique.Common.{
  ℕ, ◌+◌, ◌≤◌, ◌<◌, ◌≡◌, ◌≢◌, sym, ap, subst, ◌∙◌, inl, inr, some, List, arith, Bytes, length, ltb,
  ltb→lt, Bool-cases, length-set,
}
use boutique.Db.Storage.{Storage}
use boutique.Db.Storage.Reads.{Stores}
use boutique.Db.Schema.{Schema}
use boutique.Db.Collection.{
  KeyKind, KeyValue, Collection, at, tombstone_key_hash, find, grow, insert, put, new,
}
use boutique.Db.Collection.Insert.{
  PointBelow, PointBelow-at, put_internal-Placed, Finds, Finds-Placed, find-insert,
}
use boutique.Db.Collection.Lookup.{Placed, fresh, there, get_elem?-set_length, used-not_empty}
use boutique.Db.Collection.Fill.{used-bucket}
use boutique.Db.Collection.Index.{IsIndexed, IsIndexed-Compares}
use boutique.Db.Collection.Grow.{grow-IsIndexed}
use boutique.Db.Collection.Room.{used, used-set}
use boutique.Db.Collection.Rehash.{IsRoomy, put_internal-room, grow_total}
use boutique.Db.Collection.Puts.{Fits, Filled, made, filled, Filled-IsIndexed, new_lem}

-- at most one document is new
Stores-count :
    (s s' : Storage) (i : ℕ) (elem : Bytes)
    → Stores s s' i elem
    → i ≤ s.count
    → s'.count ≤ s.count + 1
Stores-count s s' i elem stores le = elim (Bool-cases (ltb (s.count + 1) s'.count)) [
  | inl more ↦
      let lt = ltb→lt (s.count + 1) s'.count more in
      let bad = stores.only (s.count + 1) lt (λ e. omega (arith, e, le)) in
      absurd (omega (arith, bad))
  | inr no_more ↦ ground (arith, no_more)
]

module _ (hash : KeyKind → Bytes → ℕ) where
  IsRoomy-Placed :
      (c : Collection) (key elem : Bytes) (h p i : ℕ) (dest' : List KeyValue)
      → h ≢ 0
      → h ≢ tombstone_key_hash
      → used c.buckets ≤ c.storage.count
      → c.storage.count < length c.buckets
      → PointBelow c.storage.count c.buckets
      → (f : Finds hash c dest' key elem h p i) → Placed c c.buckets key h p dest'
      → IsRoomy dest' f.after.count
  IsRoomy-Placed c key elem h p i _ nonzero unremoved few room below f (fresh b here free) =
      let v : KeyValue = record { key_hash = h; value_index = c.storage.count } in
      let now = get_elem?-set_length c.buckets p v b here in
      let same : v ≡ f.index = let both = sym now ∙ f.now in cc in
      let at_end : c.storage.count ≡ i = ap (λ x. x.value_index) same ∙ f.points in
      record {
        counted = omega (
          arith,
          few,
          at_end,
          f.kept.in_range,
          used-set c.buckets p b v here free (used-bucket h c.storage.count nonzero unremoved),
        );
        room = omega (
          arith,
          room,
          length-set c.buckets p v,
          Stores-count c.storage f.after i elem f.kept (omega (arith, at_end)),
        );
      }
  IsRoomy-Placed c key elem h p i _ nonzero unremoved few room below f (there b here taken held) =
      let same : b ≡ f.index = let both = sym here ∙ f.now in cc in
      let at_index : b.value_index ≡ i = ap (λ x. x.value_index) same ∙ f.points in
      let lt = PointBelow-at c.storage.count c.buckets p b below here taken in
      record {
        counted = omega (arith, few, f.kept.grows);
        room = omega (
          arith,
          room,
          Stores-count c.storage f.after i elem f.kept (omega (arith, at_index, lt)),
        );
      }

  insert_total :
      (c : Collection) (elem : Bytes)
      → IsIndexed hash c
      → (fits : Fits hash c elem) → used c.buckets ≤ c.storage.count
      → c.storage.count < length c.buckets
      → (c' : Collection) × (i : ℕ) × (insert hash c elem ≡ some (c', at i))
        × IsRoomy c'.buckets c'.storage.count
  unfolding insert
  insert_total c elem inv fits few room =
      let h = fits.key_hash in
      let (dest, p, placed) =
        put_internal-room c c.buckets fits.key h inv.table (omega (arith, few, room))
          (λ i b here taken.
            IsIndexed-Compares hash c fits.key h inv (inr fits.unremoved) i b here
              (used-not_empty b taken)) in
      let put = put_internal-Placed c c.buckets fits.key h p dest placed in
      let (i, f) =
        Finds-Placed hash c fits.key elem h p inv.valid fits.whole fits.with_key inv.below
          fits.nonzero dest placed put in
      (
        record c { storage = f.after; buckets = dest },
        i,
        rw (fits.with_key, fits.hashed, placed) f.stored,
        IsRoomy-Placed c fits.key elem h p i dest fits.nonzero fits.unremoved few room inv.below f
            put,
      )

  -- What put does with a document that fits.
  pub record Accepts (c : Collection) (elem : Bytes) (fits : Fits hash c elem) : Type 0 where
    pub after : Collection
    pub index : ℕ
    pub returns : put hash c elem ≡ some (after, at index)
    pub finds : find hash after fits.key ≡ some (at index)
    pub stores : Stores c.storage after.storage index elem
    pub roomy : IsRoomy after.buckets after.storage.count

  grow-Accepts :
      (c : Collection) (elem : Bytes) (bs : List KeyValue)
      → (fits : Fits hash c elem) → grow hash c ≡ some (some (record c { buckets = bs }))
      → IsIndexed hash (record c { buckets = bs })
      → used bs ≤ c.storage.count
      → c.storage.count < length bs
      → Accepts c elem fits
  unfolding put
  grow-Accepts c elem bs fits grown inv few room =
      let c_bs = record c { buckets = bs } in
      let fits' : Fits hash c_bs elem = record {
        whole = fits.whole;
        key = fits.key;
        with_key = fits.with_key;
        key_hash = fits.key_hash;
        hashed = fits.hashed;
        nonzero = fits.nonzero;
        unremoved = fits.unremoved;
      } in
      let (c', i, run, roomy) = insert_total c_bs elem inv fits' few room in
      let (found, stores) =
        find-insert hash c_bs c' fits.key elem fits.key_hash i inv.valid inv.below fits.whole
          fits.with_key fits.hashed fits.nonzero run in
      record {
        after = c';
        index = i;
        returns = rw grown run;
        finds = found;
        stores = stores;
        roomy = roomy;
      }

  pub IsIndexed-Accepts :
      (c : Collection) (elem : Bytes)
      → IsIndexed hash c
      → IsRoomy c.buckets c.storage.count
      → (fits : Fits hash c elem) → Accepts c elem fits
  IsIndexed-Accepts c elem inv roomy fits =
      let (g, grown, few, room) = grow_total hash c inv roomy in
      let (inv', same, un) = grow-IsIndexed hash c inv g grown in
      grow-Accepts c elem g.buckets fits (grown ∙ ap (λ x. some (some x)) same)
        (subst (IsIndexed hash) same inv') few room

  pub new-IsRoomy :
      (s : Schema) (c : Collection) → new s ≡ some c → IsRoomy c.buckets c.storage.count
  unfolding used
  new-IsRoomy s c e =
      let (no_buckets, none_there, _) = new_lem s c e in
      record {
        counted = rw (no_buckets, none_there) (omega arith);
        room = rw none_there (omega arith);
      }

  Filled-IsRoomy : (c : Collection) → Filled hash c → IsRoomy c.buckets c.storage.count
  Filled-IsRoomy _ (made s c e) = new-IsRoomy s c e
  Filled-IsRoomy _ (filled c c' elem i before fits run) =
      let p =
        IsIndexed-Accepts c elem (Filled-IsIndexed hash c before).0 (Filled-IsRoomy c before)
          fits in
      let both = sym p.returns ∙ run in
      let same : p.after ≡ c' = cc in subst (λ x. IsRoomy x.buckets x.storage.count) same p.roomy

  -- In every collection that is made from a new one by calls of put, put stores a document of the
  -- collection's size whose key's hash is not reserved: it does not fail and does not return null,
  -- find then finds the document under its key, as it was given, and the other documents stay. No more
  -- buckets are in use then than documents are stored, and there are at least as many buckets.
  pub put_total :
      (c : Collection) (elem : Bytes)
      → Filled hash c
      → (fits : Fits hash c elem) → Accepts c elem fits
  put_total c elem reached fits =
      IsIndexed-Accepts c elem (Filled-IsIndexed hash c reached).0 (Filled-IsRoomy c reached) fits
