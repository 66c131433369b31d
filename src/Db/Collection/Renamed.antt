-- ===== src/Db/Collection/Renamed.antt =====
-- Buckets in which one is marked as removed and the last document has the place of the removed one.
use boutique.Common.{
  ℕ, zero, suc, ◌+◌, ◌<◌, ◌≡◌, ◌≢◌, refl, sym, ap, ◌∙◌, true, false, inl, inr, some, List, [], ◌∷◌,
  arith, Bytes, length, get_elem?, get_elem?-lt, ◌==◌, ==_iff, if◌then◌else◌, Bool-cases,
}
use boutique.Db.Storage.Removes.{Removes}
use boutique.Db.Collection.{KeyKind, KeyValue, Collection, doc_key, first_index, is_free}
use boutique.Db.Collection.Reserved.{IsTable}
use boutique.Db.Collection.Insert.{PointBelow, PointBelow-at}
use boutique.Db.Collection.Walk.{Reaches}
use boutique.Db.Collection.Room.{used}
use boutique.Db.Collection.Index.{Indexed, IsIndexed, IsUnique}

-- the bucket of a document, where that is the last one, n, with the place i
abbrev pub renamed : ℕ → ℕ → KeyValue → KeyValue
renamed i n b = record b { value_index = if b.value_index == n then i else b.value_index }

-- the place that a document had before
abbrev pub moved_from : ℕ → ℕ → ℕ → ℕ
moved_from i n j = if j == i then n else j

renamed_injective :
    (i n x y : ℕ) → x ≢ i → y ≢ i → (if x == n then i else x) ≡ (if y == n then i else y) → x ≡ y
renamed_injective i n x y ne_x ne_y same = ground arith

pub moved_from_ne : (i n j : ℕ) → j < n → moved_from i n j ≢ i
moved_from_ne i n j lt e = ground arith

pub moved_from_lt : (i n j m : ℕ) → m ≡ n + 1 → j < n → moved_from i n j < m
moved_from_lt i n j m e lt = ground arith

moved_from_back : (i n j : ℕ) → j < n → (if moved_from i n j == n then i else moved_from i n j) ≡ j
moved_from_back i n j lt = ground arith

pub moved_to_place :
    (i n j : ℕ) → j ≢ i → j < n + 1 → i < n + 1 → (k : ℕ) × (k < n) × (moved_from i n k ≡ j)
moved_to_place i n j ne lt lt_i = elim (Bool-cases (j == n)) [
  | inl last ↦ (i, ground arith, ground arith)
  | inr other ↦ (j, ground arith, ground arith)
]

moved_from_injective : (i n a b : ℕ) → a < n → b < n → moved_from i n a ≡ moved_from i n b → a ≡ b
moved_from_injective i n a b lt_a lt_b e = ground arith

-- The bucket at `idx`, of document i, is free in `bs'`; the others are those of `bs`, where a bucket in
-- use of the last document, n, has its new place, i.
pub record Renamed (bs bs' : List KeyValue) (idx i n : ℕ) : Type 0 where
  pub gone : KeyValue
  pub points : gone.value_index ≡ i
  pub in_use : is_free gone ≡ false
  pub before : get_elem? bs idx ≡ some gone
  pub mark : KeyValue
  pub is_mark : is_free mark ≡ true
  pub now : get_elem? bs' idx ≡ some mark
  pub rest :
      (p : ℕ) (b : KeyValue)
      → p ≢ idx
      → get_elem? bs p ≡ some b
      → get_elem? bs' p ≡ some (if is_free b then b else renamed i n b)
  pub long : length bs' ≡ length bs
  pub table : IsTable bs → IsTable bs'
  pub reaches : (left at p : ℕ) → Reaches bs left at p → Reaches bs' left at p
  pub one_less : used bs' + 1 ≡ used bs

get_elem?-range :
    (bs : List KeyValue) (p : ℕ) (b : KeyValue) → get_elem? bs p ≡ some b → p < length bs
get_elem?-range [] p b e = cc
get_elem?-range (x ∷ bs) zero b e = omega arith
get_elem?-range (x ∷ bs) (suc p) b e = omega (arith, get_elem?-range bs p b e)

PointBelow-each :
    (n : ℕ) (bs : List KeyValue)
    → ((p : ℕ) (b : KeyValue) → get_elem? bs p ≡ some b → is_free b ≡ false → b.value_index < n)
    → PointBelow n bs
PointBelow-each n [] each = tt
PointBelow-each n (b ∷ bs) each = (
  elim (Bool-cases (is_free b)) [ inl free ↦ inl free | inr taken ↦ inr (each 0 b refl taken) ],
  PointBelow-each n bs λ p. each (suc p),
)

-- A bucket in use was one of another document, and has that one's place now.
record Before (bs : List KeyValue) (idx i n p : ℕ) (b' : KeyValue) : Type 0 where
  old : KeyValue
  here : get_elem? bs p ≡ some old
  taken : is_free old ≡ false
  apart : p ≢ idx
  other : old.value_index ≢ i
  same : b' ≡ renamed i n old

module _ (bs bs' : List KeyValue) (idx i n : ℕ) (r : Renamed bs bs' idx i n)
    (unique : IsUnique bs) where
  Renamed-Before :
      (p : ℕ) (b' : KeyValue)
      → get_elem? bs' p ≡ some b'
      → is_free b' ≡ false
      → Before bs idx i n p b'
  Renamed-Before p b' at_p taken' =
      let apart : p ≢ idx = λ e.
        let e' = rw e at at_p in
        let same : r.mark ≡ b' = cc (r.now, e') in cc (r.is_mark, taken', same) in
      let (b, here) = get_elem?-lt bs p (omega (arith, get_elem?-range bs' p b' at_p, r.long)) in
      let rest = sym at_p ∙ r.rest p b apart here in
      elim (Bool-cases (is_free b)) [
        | inl free ↦ let same = rw free at rest in cc
        | inr taken ↦ record {
          old = b;
          here = here;
          taken = taken;
          apart = apart;
          other =
              λ e. apart (unique p idx b r.gone here r.before taken r.in_use (e ∙ sym r.points));
          same = let same = rw taken at rest in cc;
        }
      ]

  Renamed-PointBelow : i < n + 1 → PointBelow (n + 1) bs → PointBelow n bs'
  Renamed-PointBelow lt below = PointBelow-each n bs' λ p b' at_p taken'.
      let b = Renamed-Before p b' at_p taken' in
      let old_lt = PointBelow-at (n + 1) bs p b.old below b.here b.taken in
      let value = ap (λ x. x.value_index) b.same in
      let other = b.other in
      elim (Bool-cases (b.old.value_index == n)) [
        | inl last ↦
            let value' = rw last at value in
            let e = (==_iff b.old.value_index n).0 last in omega (arith, value', e, other, lt)
        | inr not_last ↦
            let value' = rw not_last at value in
            let ne : b.old.value_index ≢ n = ground arith in omega (arith, value', ne, old_lt)
      ]

  Renamed-IsUnique : IsUnique bs'
  Renamed-IsUnique p q b b' at_p at_q taken taken' same =
      let x = Renamed-Before p b at_p taken in
      let y = Renamed-Before q b' at_q taken' in
      unique p q x.old y.old x.here y.here x.taken y.taken (
        renamed_injective i n x.old.value_index y.old.value_index x.other y.other
          (sym (ap (λ z. z.value_index) x.same) ∙ (same ∙ ap (λ z. z.value_index) y.same)))

module _ (hash : KeyKind → Bytes → ℕ) (c c' : Collection) (idx i : ℕ) where
  Renamed-Indexed :
      (j : ℕ)
      → c'.key_kind ≡ c.key_kind
      → Renamed c.buckets c'.buckets idx i c'.storage.count
      → i < c'.storage.count + 1
      → j < c'.storage.count
      → doc_key c' j ≡ doc_key c (moved_from i c'.storage.count j)
      → Indexed hash c c.buckets (moved_from i c'.storage.count j)
      → Indexed hash c' c'.buckets j
  unfolding is_free
  Renamed-Indexed j kind r lt_i lt same doc =
      let n = c'.storage.count in
      let apart : doc.place ≢ idx = λ e.
        let here = rw e at doc.here in
        let e_b : r.gone ≡ record { key_hash = doc.key_hash; value_index = moved_from i n j } =
          cc (here, r.before) in
        moved_from_ne i n j lt (sym (ap (λ b. b.value_index) e_b) ∙ r.points) in
      let now = r.rest doc.place _ apart doc.here in
      record {
        key = doc.key;
        has_key = same ∙ doc.has_key;
        key_hash = doc.key_hash;
        hashed = rw kind doc.hashed;
        nonzero = doc.nonzero;
        used = doc.used;
        place = doc.place;
        here = rw (doc.used, moved_from_back i n j lt) at now;
        reached = rw r.long (
            r.reaches (length c.buckets) (first_index doc.key_hash (length c.buckets)) doc.place
              doc.reached);
      }

  -- A collection in whose storage the document is removed and whose buckets say so.
  pub Renamed-IsIndexed :
      c'.key_kind ≡ c.key_kind
      → c'.key_offset ≡ c.key_offset
      → Renamed c.buckets c'.buckets idx i c'.storage.count
      → i < c.storage.count
      → Removes c.storage c'.storage i
      → IsIndexed hash c
      → IsIndexed hash c'
  unfolding doc_key
  Renamed-IsIndexed kind offset r lt removes inv =
      let n = c'.storage.count in
      let one_more : c.storage.count ≡ n + 1 = sym removes.fewer in
      let same : (j : ℕ) → j < n → doc_key c' j ≡ doc_key c (moved_from i n j) =
        λ j lt_j. rw (kind, offset, removes.kept j lt_j) in
      let in_range : (j : ℕ) → j < n → moved_from i n j < c.storage.count =
        λ j lt_j. moved_from_lt i n j c.storage.count one_more lt_j in
      record {
        valid = removes.valid;
        table = r.table inv.table;
        indexed = λ j lt_j.
            Renamed-Indexed j kind r (omega (arith, lt, one_more)) lt_j (same j lt_j)
              (inv.indexed (moved_from i n j) (in_range j lt_j));
        distinct = λ a b key lt_a lt_b e_a e_b. moved_from_injective i n a b lt_a lt_b (
            inv.distinct (moved_from i n a) (moved_from i n b) key (in_range a lt_a)
              (in_range b lt_b) (sym (same a lt_a) ∙ e_a) (sym (same b lt_b) ∙ e_b));
        below =
            Renamed-PointBelow c.buckets c'.buckets idx i n r inv.unique
              (omega (arith, lt, one_more)) (rw one_more at inv.below);
        unique = Renamed-IsUnique c.buckets c'.buckets idx i n r inv.unique;
      }
