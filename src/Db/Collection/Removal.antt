-- ===== src/Db/Collection/Removal.antt =====
-- remove: the document with the key is no longer there, and the others are found.
use boutique.Common.{
  ℕ, ◌+◌, ◌-◌, ◌<◌, ◌^◌, ◌≡◌, ◌≢◌, ◌⊎◌, refl, ap, ◌∙◌, false, inl, inr, some, List, arith, Bytes,
  length, set, get_elem?, ◌==◌, ==_iff, Bool-cases,
}
use boutique.Db.Storage.Removes.{Removes, remove-Removes}
use boutique.Db.Collection.{
  KeyKind, KeyValue, Collection, Found, null, at, tombstone_key_hash, doc_key, is_free, first_index,
  find_loop, find_internal, set_index, hash_key, redirect_last, remove,
}
use boutique.Db.Collection.Probing.{Around-start, first_index-lt}
use boutique.Db.Collection.Insert.{PointBelow-at, holds_key-hash}
use boutique.Db.Collection.Walk.{Holds, find_loop-Holds, find_loop_total}
use boutique.Db.Collection.Index.{
  IsIndexed, IsClear, IsClear-used, holds_key-key, IsIndexed-Compares,
}
use boutique.Db.Collection.Search.{Answers, find_loop-null, find_internal-table}
use boutique.Db.Collection.Renamed.{Renamed, Renamed-IsIndexed}
use boutique.Db.Collection.Marks.{marked, Renamed-last, Renamed-moved, still_there}

-- What find_internal gives.
abbrev pub Gives : Collection → Bytes → ℕ → Found → Type 0
Gives c key h null = Answers c key null
Gives c key h (at q) = Holds c key h q

-- A collection from which document i was removed, which had the key and its bucket at idx.
pub record Removed (c c' : Collection) (key : Bytes) : Type 0 where
  pub i : ℕ
  pub in_range : i < c.storage.count
  pub has_key : doc_key c i ≡ some key
  pub same_schema : c'.schema ≡ c.schema
  pub kind : c'.key_kind ≡ c.key_kind
  pub offset : c'.key_offset ≡ c.key_offset
  pub removes : Removes c.storage c'.storage i
  pub idx : ℕ
  pub renames : Renamed c.buckets c'.buckets idx i c'.storage.count

-- The collection after remove.
abbrev pub Leaves : Collection → Bytes → Collection → Type 0
Leaves c key c' = (Answers c key null × (c' ≡ c)) ⊎ Removed c c' key

-- the buckets when the last document has its new place
record Redirects (hash : KeyKind → Bytes → ℕ) (c : Collection) (idx n : ℕ) (gone : KeyValue)
    : Type 0 where
  buckets : List KeyValue
  run : redirect_last hash c gone.value_index ≡ some buckets
  still : get_elem? buckets idx ≡ some gone
  renames : Renamed c.buckets (set buckets idx (marked gone)) idx gone.value_index n

used_hash :
    (h i : ℕ) → is_free (record { key_hash = h; value_index = i }) ≡ false → h ≢ tombstone_key_hash
unfolding is_free
used_hash h i used = ground arith

module _ (hash : KeyKind → Bytes → ℕ) where
  loop-Gives :
      (k : ℕ) (c : Collection) (key : Bytes) (h : ℕ) (found : Found)
      → IsIndexed hash c
      → IsClear c.buckets h
      → length c.buckets ≡ 2 ^ k
      → hash_key hash c.key_kind key ≡ some h
      → find_loop (2 ^ k) c key h (first_index h (2 ^ k)) (first_index h (2 ^ k)) ≡ some found
      → Gives c key h found
  loop-Gives k c key h null inv clear len hashed run =
      find_loop-null hash k c key h inv clear len hashed run
  loop-Gives k c key h (at q) inv clear len hashed run =
      find_loop-Holds (2 ^ k) c key h (first_index h (2 ^ k)) (first_index h (2 ^ k)) q run

  find_internal-Gives :
      (c : Collection) (key : Bytes) (h : ℕ)
      → IsIndexed hash c
      → IsClear c.buckets h
      → hash_key hash c.key_kind key ≡ some h
      → (found : Found) × (find_internal c key h ≡ some found) × Gives c key h found
  unfolding find_internal
  find_internal-Gives c key h inv clear hashed = elim inv.table [
    | inl no_buckets ↦ (
      null,
      rw (ap length no_buckets),
      λ i lt e. let bad = rw no_buckets at (inv.indexed i lt).here in cc,
    )
    | inr (k, len) ↦
        let start = first_index h (2 ^ k) in
        let (found, run) =
          find_loop_total k (2 ^ k) (2 ^ k) c key h start start len
            (Around-start k start (first_index-lt k h)) (omega arith)
            (IsIndexed-Compares hash c key h inv clear) in
        (
          found,
          find_internal-table hash k c key h len ∙ run,
          loop-Gives k c key h found inv clear len hashed run,
        )
  ]

  -- the bucket that find_internal gives for the key of a document
  last_bucket :
      (c : Collection) (n : ℕ) (found : Found)
      → (inv : IsIndexed hash c) → (lt : n < c.storage.count)
      → Gives c (inv.indexed n lt).key (inv.indexed n lt).key_hash found
      → (q : ℕ) × (b : KeyValue) × (found ≡ at q)
        × (get_elem? c.buckets q ≡ some b)
        × (is_free b ≡ false)
        × (b.value_index ≡ n)
  last_bucket c n null inv lt none_has = absurd (none_has n lt (inv.indexed n lt).has_key)
  last_bucket c n (at q) inv lt place =
      let doc = inv.indexed n lt in
      let b = place.bucket in
      let used =
        IsClear-used c.buckets doc.key_hash q b (inr (used_hash doc.key_hash n doc.used)) place.here
          place.nonzero (holds_key-hash c doc.key doc.key_hash b place.held) in
      (
        q,
        b,
        refl,
        place.here,
        used,
        inv.distinct b.value_index n doc.key
            (PointBelow-at c.storage.count c.buckets q b inv.below place.here used) lt
            (holds_key-key c doc.key doc.key_hash b place.held) doc.has_key,
      )

  redirect_last-at :
      (c : Collection) (i n q h : ℕ) (key : Bytes) (b : KeyValue)
      → c.storage.count - 1 ≡ n
      → (i == n) ≡ false
      → doc_key c n ≡ some key
      → hash_key hash c.key_kind key ≡ some h
      → find_internal c key h ≡ some (at q)
      → get_elem? c.buckets q ≡ some b
      → redirect_last hash c i ≡ some (set c.buckets q (record b { value_index = i }))
  unfolding redirect_last set_index
  redirect_last-at c i n q h key b is_n other has_key hashed found here =
      rw (is_n, other, has_key, hashed, found, set_index, here)

  redirect_last-Redirects :
      (c : Collection) (idx n : ℕ) (gone : KeyValue)
      → IsIndexed hash c
      → n + 1 ≡ c.storage.count
      → get_elem? c.buckets idx ≡ some gone
      → is_free gone ≡ false
      → Redirects hash c idx n gone
  unfolding redirect_last
  redirect_last-Redirects c idx n gone inv more here taken =
      let is_n : c.storage.count - 1 ≡ n = omega (arith, more) in
      elim (Bool-cases (gone.value_index == n)) [
        | inl last ↦ record {
          buckets = c.buckets;
          run = rw (is_n, last);
          still = here;
          renames =
              Renamed-last c.buckets idx n gone inv.unique here taken
                ((==_iff gone.value_index n).0 last);
        }
        | inr other ↦
            let lt : n < c.storage.count = omega (arith, more) in
            let doc = inv.indexed n lt in
            let (found, run, gives) =
              find_internal-Gives c doc.key doc.key_hash inv
                (inr (used_hash doc.key_hash n doc.used)) doc.hashed in
            let (q, b, is_at, at_q, used, value) = last_bucket c n found inv lt gives in
            let ne : gone.value_index ≢ n = ground arith in
            record {
              buckets = set c.buckets q (record b { value_index = gone.value_index });
              run =
                  redirect_last-at c gone.value_index n q doc.key_hash doc.key b is_n other
                    doc.has_key doc.hashed (run ∙ ap some is_at) at_q;
              still = still_there c.buckets idx n gone inv.unique here taken q b at_q value ne;
              renames =
                  Renamed-moved c.buckets idx n gone inv.unique here taken q b at_q used value ne;
            }
      ]

  remove-Holds :
      (c : Collection) (key : Bytes) (h q : ℕ)
      → IsIndexed hash c
      → IsClear c.buckets h
      → hash_key hash c.key_kind key ≡ some h
      → find_internal c key h ≡ some (at q)
      → Holds c key h q
      → (c' : Collection) × (remove hash c key ≡ some c') × Removed c c' key
  unfolding remove
  remove-Holds c key h q inv clear hashed run place =
      let b = place.bucket in
      let used =
        IsClear-used c.buckets h q b clear place.here place.nonzero
          (holds_key-hash c key h b place.held) in
      let lt = PointBelow-at c.storage.count c.buckets q b inv.below place.here used in
      let (s', gone, removes) = remove-Removes c.storage b.value_index inv.valid lt in
      let r = redirect_last-Redirects c q s'.count b inv removes.fewer place.here used in
      (
        record c { storage = s'; buckets = set r.buckets q (marked b) },
        rw (hashed, run, place.here, r.run, r.still, gone),
        record {
          i = b.value_index;
          in_range = lt;
          has_key = holds_key-key c key h b place.held;
          same_schema = refl;
          kind = refl;
          offset = refl;
          removes = removes;
          idx = q;
          renames = r.renames;
        },
      )

  remove-Gives :
      (c : Collection) (key : Bytes) (h : ℕ) (found : Found)
      → IsIndexed hash c
      → IsClear c.buckets h
      → hash_key hash c.key_kind key ≡ some h
      → find_internal c key h ≡ some found
      → Gives c key h found
      → (c' : Collection) × (remove hash c key ≡ some c') × Leaves c key c'
  unfolding remove
  remove-Gives c key h null inv clear hashed run none_has =
      (c, rw (hashed, run), inl (none_has, refl))
  remove-Gives c key h (at q) inv clear hashed run place =
      let (c', gone, removed) = remove-Holds c key h q inv clear hashed run place in
      (c', gone, inr removed)

  -- In a collection whose documents are indexed, remove, for a key whose hash is not that of a
  -- removed bucket, ends without a failed assertion. Where no document has the key nothing changes;
  -- otherwise one that has it is gone, and the last one stands in its place.
  pub remove_total :
      (c : Collection) (key : Bytes) (h : ℕ)
      → IsIndexed hash c
      → IsClear c.buckets h
      → hash_key hash c.key_kind key ≡ some h
      → (c' : Collection) × (remove hash c key ≡ some c') × Leaves c key c'
  remove_total c key h inv clear hashed =
      let (found, run, gives) = find_internal-Gives c key h inv clear hashed in
      remove-Gives c key h found inv clear hashed run gives

  pub Leaves-IsIndexed :
      (c c' : Collection) (key : Bytes) → Leaves c key c' → IsIndexed hash c → IsIndexed hash c'
  Leaves-IsIndexed c c' key (inl (none_has, same)) inv = rw same inv
  Leaves-IsIndexed c c' key (inr r) inv =
      Renamed-IsIndexed hash c c' r.idx r.i r.kind r.offset r.renames r.in_range r.removes inv
