-- ===== src/Db/Collection/Rehash.antt =====
-- The loop of put that moves the documents to more buckets comes to its end.
use boutique.Common.{
  ℕ, zero, suc, ◌+◌, ◌*◌, ◌/◌, ◌^◌, ◌≤◌, ◌<◌, ◌≡◌, refl, ap, false, inl, inr, some, List, arith,
  Bytes, length, get_elem?, ◌==◌, ==_refl, leb, if◌then◌else◌, Bool-cases, length-set, replicate,
  length-replicate,
}
use boutique.Db.Collection.{
  KeyKind, KeyValue, Collection, at, doc_key, is_free, put_internal, set_index, rehash, grow,
  load_limit, empty_bucket,
}
use boutique.Db.Collection.Reserved.{IsTable}
use boutique.Db.Collection.Insert.{PointBelow-at, put_internal-Placed}
use boutique.Db.Collection.Lookup.{Placed, fresh, there, get_elem?-set_length}
use boutique.Db.Collection.Index.{IsIndexed, holds_key-key, holds_key-defined}
use boutique.Db.Collection.Grow.{
  Moved, Moved-Placed, Moved-replicate, grown_length, set_index-fresh,
}
use boutique.Db.Collection.Room.{used, used-set, AreComparable, put_internal-at}

-- A free bucket for every document that is not there, of `count` documents.
pub record IsRoomy (bs : List KeyValue) (count : ℕ) : Type 0 where
  pub counted : used bs ≤ count
  pub room : count ≤ length bs

used-replicate : (n : ℕ) → used (replicate n empty_bucket) ≡ 0
unfolding used is_free
used-replicate zero = refl
used-replicate (suc n) = used-replicate n

table_length : (bs : List KeyValue) → IsTable bs → 1 ≤ length bs → (k : ℕ) × (length bs ≡ 2 ^ k)
table_length bs (inl empty) some_there = absurd (omega (arith, some_there, ap length empty))
table_length bs (inr (k, len)) some_there = (k, len)

-- put_internal in buckets that are not all in use
pub put_internal-room :
    (c : Collection) (bs : List KeyValue) (key : Bytes) (h : ℕ)
    → IsTable bs
    → used bs < length bs
    → AreComparable c bs key h
    → (bs' : List KeyValue) × (p : ℕ) × (put_internal c bs key h ≡ some (bs', at p))
put_internal-room c bs key h table room compares =
    let (k, len) = table_length bs table (omega (arith, room)) in
    put_internal-at k c bs key h len room compares

module _ (hash : KeyKind → Bytes → ℕ) (c : Collection) (inv : IsIndexed hash c) where
  AreComparable-Moved :
      (bs : List KeyValue) (i h : ℕ) (key : Bytes) → Moved hash c bs i → AreComparable c bs key h
  AreComparable-Moved bs i h key moved p b here taken =
      let doc = moved.indexed b.value_index (PointBelow-at i bs p b moved.below here taken) in
      holds_key-defined c key h b doc.key doc.has_key

  -- the bucket that is found for the next document is new
  Moved-new :
      (bs : List KeyValue) (i h : ℕ) (key : Bytes) (p : ℕ) (bs' : List KeyValue)
      → i < c.storage.count
      → doc_key c i ≡ some key
      → is_free (record { key_hash = h; value_index = i }) ≡ false
      → Moved hash c bs i
      → Placed c bs key h p bs'
      → (get_elem? bs' p ≡ some (record { key_hash = h; value_index = c.storage.count }))
        × (used (set_index bs' p i) ≡ used bs + 1)
        × (length (set_index bs' p i) ≡ length bs)
  Moved-new bs i h key p bs' lt e taken moved (fresh b here free) =
      let new : KeyValue = record { key_hash = h; value_index = i } in
      (
        get_elem?-set_length bs p _ b here,
        rw (set_index-fresh hash c inv bs i p h b here) (used-set bs p b new here free taken),
        rw (set_index-fresh hash c inv bs i p h b here) (length-set bs p new),
      )
  Moved-new bs i h key p bs' lt e taken moved (there b here used held) =
      let lt_b = PointBelow-at i bs p b moved.below here used in
      let same =
        inv.distinct b.value_index i key (omega arith) lt (holds_key-key c key h b held) e in
      absurd (omega (arith, lt_b, same))

  rehash_total :
      (left i : ℕ) (bs : List KeyValue)
      → left + i ≡ c.storage.count
      → Moved hash c bs i
      → used bs ≤ i
      → c.storage.count ≤ length bs
      → (bs' : List KeyValue) × (rehash hash left i c bs ≡ some (some bs'))
        × (used bs' ≤ c.storage.count)
        × (length bs' ≡ length bs)
  unfolding rehash
  rehash_total zero i bs e moved few room = (bs, refl, omega (arith, e, few), refl)
  rehash_total (suc left) i bs e moved few room =
      let lt : i < c.storage.count = omega arith in
      let doc = inv.indexed i lt in
      let h = doc.key_hash in
      let taken = doc.used in
      let (dest, p, placed) =
        put_internal-room c bs doc.key h moved.table (omega arith)
          (AreComparable-Moved bs i h doc.key moved) in
      let put = put_internal-Placed c bs doc.key h p dest placed in
      let (here, counted, len) = Moved-new bs i h doc.key p dest lt doc.has_key taken moved put in
      let (bs', rest, few', len') =
        rehash_total left (i + 1) (set_index dest p i) (omega arith)
          (Moved-Placed hash c inv bs i h doc.key p dest lt doc.has_key doc.hashed moved placed put)
          (omega (arith, counted, few)) (omega (arith, len, room)) in
      (
        bs',
        rw (doc.has_key, doc.hashed, placed, here, ==_refl c.storage.count) rest,
        few',
        rw len' len,
      )

  -- After the growth there is a free bucket.
  pub grow_total :
      IsRoomy c.buckets c.storage.count
      → (g : Collection) × (grow hash c ≡ some (some g))
        × (used g.buckets ≤ c.storage.count)
        × (c.storage.count < length g.buckets)
  unfolding grow load_limit
  grow_total roomy =
      let len = length c.buckets in
      let n = if len * 2 == 0 then 32 else len * 2 in
      elim (Bool-cases (leb (len * 10 / 14) (c.storage.count + 1))) [
        | inl full ↦
            let (k, e) = grown_length hash c inv in
            let wide : c.storage.count < n = ground (arith, roomy.room) in
            let wide' : c.storage.count < length (replicate n empty_bucket) =
              rw (length-replicate n empty_bucket) wide in
            let (bs, moved, few, len') =
              rehash_total c.storage.count 0 (replicate n empty_bucket) (omega arith)
                (Moved-replicate hash c inv k n e) (omega (arith, used-replicate n))
                (omega (arith, wide')) in
            (record c { buckets = bs }, rw (full, moved), few, omega (arith, len', wide'))
        | inr roomy_enough ↦
            let below : c.storage.count + 1 < len * 10 / 14 = ground (arith, roomy_enough) in
            (c, rw roomy_enough, roomy.counted, omega (arith, below))
      ]
