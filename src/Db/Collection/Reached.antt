-- ===== src/Db/Collection/Reached.antt =====
-- The collections that are made by put and remove, as finite maps.
use boutique.Common.{
  ℕ, ◌≡◌, ◌≢◌, sym, ap, if◌then◌else◌, subst, ◌∙◌, inl, inr, ◌⊎◌, Option, none, some, arith, Bytes,
  Bool-cases, bytes_eq, bytes_eq_iff,
}
use boutique.Db.Schema.{Schema}
use boutique.Db.Collection.{KeyKind, Collection, at, tombstone_key_hash, hash_key, new, put, remove}
use boutique.Db.Collection.Index.{IsIndexed, IsSafe, AreUnremoved}
use boutique.Db.Collection.Puts.{Fits, new_lem, new-IsIndexed, put-IsIndexed}
use boutique.Db.Collection.Rehash.{IsRoomy}
use boutique.Db.Collection.Total.{IsIndexed-Accepts, new-IsRoomy}
use boutique.Db.Collection.Writes.{put-Writes}
use boutique.Db.Collection.Removal.{Removed, Leaves, Leaves-IsIndexed, remove_total}
use boutique.Db.Collection.Contents.{
  Has, with_doc, without_doc, find_doc, find_doc-Has, Writes-Has, Removed-Has,
}

-- What a collection is to hold: a document for a key, or none.
abbrev pub Contents : Type 0
Contents = Bytes → Option Bytes

-- The collections that are made from a new one by calls of put and remove, with what they are to hold.
-- A document is put under a key that is not there, or before anything was removed.
pub data Reached (hash : KeyKind → Bytes → ℕ) : Collection → Contents → Type 0 where
  made : (s : Schema) (c : Collection) → new s ≡ some c → Reached hash c (λ q. none)
  stored :
      (c c' : Collection) (m : Contents) (elem : Bytes) (i : ℕ)
      → Reached hash c m
      → (f : Fits hash c elem) → (m f.key ≡ none) ⊎ AreUnremoved c.buckets
      → put hash c elem ≡ some (c', at i)
      → Reached hash c' (with_doc m f.key elem)
  removed :
      (c c' : Collection) (m : Contents) (key : Bytes) (h : ℕ)
      → Reached hash c m
      → hash_key hash c.key_kind key ≡ some h
      → h ≢ tombstone_key_hash
      → remove hash c key ≡ some c'
      → Reached hash c' (without_doc m key)

-- What holds of them.
pub record Sound (hash : KeyKind → Bytes → ℕ) (c : Collection) (m : Contents) : Type 0 where
  pub indexed : IsIndexed hash c
  pub roomy : IsRoomy c.buckets c.storage.count
  pub has : (q : Bytes) → Has c q (m q)

module _ (hash : KeyKind → Bytes → ℕ) where
  is_safe :
      (c : Collection) (m : Contents) (key : Bytes)
      → ((q : Bytes) → Has c q (m q))
      → (m key ≡ none) ⊎ AreUnremoved c.buckets
      → IsSafe c key
  is_safe c m key has (inl none_there) = inr (subst (Has c key) none_there (has key))
  is_safe c m key has (inr none_removed) = inl none_removed

  Sound-put :
      (c c' : Collection) (m : Contents) (elem : Bytes) (i : ℕ)
      → Sound hash c m
      → (f : Fits hash c elem) → (m f.key ≡ none) ⊎ AreUnremoved c.buckets
      → put hash c elem ≡ some (c', at i)
      → Sound hash c' (with_doc m f.key elem)
  Sound-put c c' m elem i s f free run =
      let a = IsIndexed-Accepts hash c elem s.indexed s.roomy f in
      let both = sym a.returns ∙ run in
      let same : a.after ≡ c' = cc in
      record {
        indexed = (put-IsIndexed hash c c' elem i s.indexed f (is_safe c m f.key s.has free) run).0;
        roomy = subst (λ x. IsRoomy x.buckets x.storage.count) same a.roomy;
        has =
            Writes-Has c c' f.key elem i (put-Writes hash c c' elem i s.indexed f run) f.with_key m
              s.has;
      }

  IsRoomy-Removed :
      (c c' : Collection) (key : Bytes)
      → Removed c c' key
      → IsRoomy c.buckets c.storage.count
      → IsRoomy c'.buckets c'.storage.count
  IsRoomy-Removed c c' key r roomy = record {
    counted = omega (arith, roomy.counted, r.renames.one_less, r.removes.fewer);
    room = omega (arith, roomy.room, r.renames.long, r.removes.fewer);
  }

  Sound-Leaves :
      (c c' : Collection) (m : Contents) (key : Bytes)
      → Sound hash c m
      → Leaves c key c'
      → Sound hash c' (without_doc m key)
  Sound-Leaves c c' m key s (inl (none_has, same)) =
      subst (λ x. Sound hash x (without_doc m key)) (sym same)
        (record {
          indexed = s.indexed;
          roomy = s.roomy;
          has = λ q. elim (Bool-cases (bytes_eq key q)) [
            | inl equal ↦ let e = (bytes_eq_iff key q).0 equal in rw equal (rw (← e) none_has)
            | inr other ↦ rw other (s.has q)
          ];
        })
  Sound-Leaves c c' m key s (inr r) = record {
    indexed = Leaves-IsIndexed hash c c' key (inr r) s.indexed;
    roomy = IsRoomy-Removed c c' key r s.roomy;
    has = Removed-Has hash c c' key r s.indexed m s.has;
  }

  indexed-Leaves :
      (c c' : Collection) (key : Bytes) (h : ℕ)
      → IsIndexed hash c
      → hash_key hash c.key_kind key ≡ some h
      → h ≢ tombstone_key_hash
      → remove hash c key ≡ some c'
      → Leaves c key c'
  indexed-Leaves c c' key h inv hashed ne run =
      let (c₁, run₁, leaves) = remove_total hash c key h inv (inr ne) hashed in
      let both = sym run₁ ∙ run in let same : c₁ ≡ c' = cc in subst (Leaves c key) same leaves

  Sound-remove :
      (c c' : Collection) (m : Contents) (key : Bytes) (h : ℕ)
      → Sound hash c m
      → hash_key hash c.key_kind key ≡ some h
      → h ≢ tombstone_key_hash
      → remove hash c key ≡ some c'
      → Sound hash c' (without_doc m key)
  Sound-remove c c' m key h s hashed ne run =
      Sound-Leaves c c' m key s (indexed-Leaves c c' key h s.indexed hashed ne run)

  Sound-new : (s : Schema) (c : Collection) → new s ≡ some c → Sound hash c (λ q. none)
  Sound-new s c e = record {
    indexed = new-IsIndexed hash s c e;
    roomy = new-IsRoomy hash s c e;
    has = λ q i lt. absurd (omega (arith, lt, (new_lem s c e).1));
  }

  pub Reached-Sound : (c : Collection) (m : Contents) → Reached hash c m → Sound hash c m
  Reached-Sound _ _ (made s c e) = Sound-new s c e
  Reached-Sound _ _ (stored c c' m elem i before f free run) =
      Sound-put c c' m elem i (Reached-Sound c m before) f free run
  Reached-Sound _ _ (removed c c' m key h before hashed ne run) =
      Sound-remove c c' m key h (Reached-Sound c m before) hashed ne run

  -- put marks nothing as removed
  pub put-AreUnremoved :
      (c c' : Collection) (m : Contents) (elem : Bytes) (i : ℕ)
      → Reached hash c m
      → (f : Fits hash c elem) → (m f.key ≡ none) ⊎ AreUnremoved c.buckets
      → put hash c elem ≡ some (c', at i)
      → AreUnremoved c.buckets
      → AreUnremoved c'.buckets
  put-AreUnremoved c c' m elem i reached f free run =
      let s = Reached-Sound c m reached in
      (put-IsIndexed hash c c' elem i s.indexed f (is_safe c m f.key s.has free) run).1

  -- what remove leaves
  pub remove-Leaves :
      (c c' : Collection) (m : Contents) (key : Bytes) (h : ℕ)
      → Reached hash c m
      → hash_key hash c.key_kind key ≡ some h
      → h ≢ tombstone_key_hash
      → remove hash c key ≡ some c'
      → Leaves c key c'
  remove-Leaves c c' m key h reached hashed ne run =
      indexed-Leaves c c' key h (Reached-Sound c m reached).indexed hashed ne run

  -- A collection that is made from a new one by calls of put and remove is a finite map: find gives,
  -- for every key whose hash is not that of a removed bucket, the document that was put last under
  -- the key, if the key was not removed since, and null otherwise. What is put fits and is put under
  -- a key that is not there, or before anything was removed; what is removed is not hashed to the
  -- mark of a removed bucket.
  pub find_doc-Reached :
      (c : Collection) (m : Contents) (key : Bytes) (h : ℕ)
      → Reached hash c m
      → hash_key hash c.key_kind key ≡ some h
      → h ≢ tombstone_key_hash
      → find_doc hash c key ≡ some (m key)
  find_doc-Reached c m key h reached hashed ne =
      let s = Reached-Sound c m reached in
      find_doc-Has hash c key h (m key) s.indexed (inr ne) hashed (s.has key)

  -- In such a collection put stores a document that fits, under a key that is not there or before
  -- anything was removed: it does not fail, does not return null, and is an update of the finite map.
  pub put-Reached :
      (c : Collection) (m : Contents) (elem : Bytes)
      → Reached hash c m
      → (f : Fits hash c elem) → (m f.key ≡ none) ⊎ AreUnremoved c.buckets
      → (c' : Collection) × (i : ℕ) × (put hash c elem ≡ some (c', at i))
        × Reached hash c' (with_doc m f.key elem)
  put-Reached c m elem reached f free =
      let s = Reached-Sound c m reached in
      let a = IsIndexed-Accepts hash c elem s.indexed s.roomy f in
      (a.after, a.index, a.returns, stored c a.after m elem a.index reached f free a.returns)

  pub remove-runs :
      (c : Collection) (m : Contents) (key : Bytes) (h : ℕ)
      → Reached hash c m
      → hash_key hash c.key_kind key ≡ some h
      → h ≢ tombstone_key_hash
      → (c' : Collection) × (remove hash c key ≡ some c') × Reached hash c' (without_doc m key)
  remove-runs c m key h reached hashed ne =
      let s = Reached-Sound c m reached in
      let (c', run, leaves) = remove_total hash c key h s.indexed (inr ne) hashed in
      (c', run, removed c c' m key h reached hashed ne run)

  Leaves-kind : (c c' : Collection) (key : Bytes) → Leaves c key c' → c'.key_kind ≡ c.key_kind
  Leaves-kind c c' key (inl (none_has, same)) = ap (λ x. x.key_kind) same
  Leaves-kind c c' key (inr r) = r.kind

  -- In a collection that is made from a new one by calls of put and remove, remove, for a key that is
  -- not hashed to the mark of a removed bucket, ends without a failed assertion. In what it leaves find
  -- returns null for the key, and for any other key that is not hashed to that mark it returns the
  -- document that the collection held for it before, or null where it held none.
  pub remove-Reached :
      (c : Collection) (m : Contents) (key q : Bytes) (h k : ℕ)
      → Reached hash c m
      → hash_key hash c.key_kind key ≡ some h
      → h ≢ tombstone_key_hash
      → hash_key hash c.key_kind q ≡ some k
      → k ≢ tombstone_key_hash
      → (c' : Collection) × (remove hash c key ≡ some c')
        × (find_doc hash c q ≡ some (m q))
        × (find_doc hash c' q ≡ some (if bytes_eq key q then none else m q))
  remove-Reached c m key q h k reached hashed ne hashed_q ne_q =
      let (c', run, after) = remove-runs c m key h reached hashed ne in
      let kind = Leaves-kind c c' key (remove-Leaves c c' m key h reached hashed ne run) in
      (
        c',
        run,
        find_doc-Reached c m q k reached hashed_q ne_q,
        find_doc-Reached c' (without_doc m key) q k after (rw kind hashed_q) ne_q,
      )
