-- ===== src/Db/Collection/Marks.antt =====
-- What remove does to the buckets: the mark, and the new place of the last document.
use boutique.Common.{
  ℕ, ◌≡◌, ◌≢◌, refl, sym, ap, ◌∙◌, true, false, inl, inr, some, List, arith, set, get_elem?,
  get_elem?-set_ne, length-set, ◌==◌, ==_iff, ==_refl, if◌then◌else◌, Bool-cases,
}
use boutique.Db.Collection.{KeyValue, tombstone_key_hash, is_free}
use boutique.Db.Collection.Lookup.{get_elem?-set_length, used-not_empty}
use boutique.Db.Collection.Walk.{Reaches-set}
use boutique.Db.Collection.Fill.{IsTable-set}
use boutique.Db.Collection.Room.{used-set_taken, used-set_free}
use boutique.Db.Collection.Index.{IsUnique}
use boutique.Db.Collection.Renamed.{Renamed, renamed}

abbrev pub marked : KeyValue → KeyValue
marked b = record b { key_hash = tombstone_key_hash }

is_free-marked : (b : KeyValue) → is_free (marked b) ≡ true
unfolding is_free
is_free-marked b = refl

is_free-renamed : (i : ℕ) (b : KeyValue) → is_free (record b { value_index = i }) ≡ is_free b
unfolding is_free
is_free-renamed i b = refl

-- the buckets in use, where the last document's points to its new place
moved_bucket :
    (bs : List KeyValue) (q n i : ℕ) (last : KeyValue)
    → IsUnique bs
    → get_elem? bs q ≡ some last
    → is_free last ≡ false
    → last.value_index ≡ n
    → (p : ℕ) (b : KeyValue) → get_elem? bs p ≡ some b
    → get_elem? (set bs q (record last { value_index = i })) p
      ≡ some (if is_free b then b else renamed i n b)
moved_bucket bs q n i last unique at_q taken is_last p b at_p =
    let new : KeyValue = record last { value_index = i } in
    elim (Bool-cases (q == p)) [
      | inl here ↦
          let e = (==_iff q p).0 here in
          let both = sym at_q ∙ (ap (get_elem? bs) e ∙ at_p) in
          let same : last ≡ b = cc in
          let at_n : (last.value_index == n) ≡ true = rw is_last (==_refl n) in
          rw (← e, ← same, taken, at_n) (get_elem?-set_length bs q new last at_q)
      | inr other ↦
          let ne : q ≢ p = ground arith in
          get_elem?-set_ne bs q p new ne
          ∙ (at_p ∙ elim (Bool-cases (is_free b)) [
            | inl free ↦ rw free
            | inr in_use ↦
                let apart : b.value_index ≢ n =
                  λ e. ne (unique q p last b at_q at_p taken in_use (is_last ∙ sym e)) in
                let not_n : (b.value_index == n) ≡ false = ground arith in rw (in_use, not_n)
          ])
    ]

module _ (bs : List KeyValue) (idx n : ℕ) (gone : KeyValue) (unique : IsUnique bs)
    (here : get_elem? bs idx ≡ some gone) (taken : is_free gone ≡ false) where
  -- no other bucket points to the document
  other_place :
      (p : ℕ) (b : KeyValue)
      → p ≢ idx
      → get_elem? bs p ≡ some b
      → is_free b ≡ false
      → b.value_index ≢ gone.value_index
  other_place p b apart at_p used_p e = apart (unique p idx b gone at_p here used_p taken e)

  -- the last document is removed
  pub Renamed-last :
      gone.value_index ≡ n → Renamed bs (set bs idx (marked gone)) idx gone.value_index n
  Renamed-last last = record {
    gone = gone;
    points = refl;
    in_use = taken;
    before = here;
    mark = marked gone;
    is_mark = is_free-marked gone;
    now = get_elem?-set_length bs idx (marked gone) gone here;
    rest = λ p b apart at_p.
        get_elem?-set_ne bs idx p (marked gone) (λ e. apart (sym e))
        ∙ (at_p ∙ elim (Bool-cases (is_free b)) [
          | inl free ↦ rw free
          | inr in_use ↦
              let ne = other_place p b apart at_p in_use in
              let not_n : (b.value_index == n) ≡ false = ground arith in rw (in_use, not_n)
        ]);
    long = length-set bs idx (marked gone);
    table = IsTable-set bs idx (marked gone);
    reaches = λ left at p. Reaches-set bs idx (marked gone) left at p refl;
    one_less = used-set_free bs idx gone (marked gone) here taken (is_free-marked gone);
  }

  pub still_there :
      (q : ℕ) (last : KeyValue)
      → get_elem? bs q ≡ some last
      → last.value_index ≡ n
      → gone.value_index ≢ n
      → get_elem? (set bs q (record last { value_index = gone.value_index })) idx ≡ some gone
  still_there q last at_q is_last ne =
      let apart : q ≢ idx = λ e.
        let both = sym (rw e at at_q) ∙ here in
        let same : last ≡ gone = cc in ne (sym (ap (λ x. x.value_index) same) ∙ is_last) in
      get_elem?-set_ne bs q idx (record last { value_index = gone.value_index }) apart ∙ here

  -- the last document, whose bucket is at q, gets the place
  pub Renamed-moved :
      (q : ℕ) (last : KeyValue)
      → get_elem? bs q ≡ some last
      → is_free last ≡ false
      → last.value_index ≡ n
      → gone.value_index ≢ n
      → Renamed bs
          (set (set bs q (record last { value_index = gone.value_index })) idx (marked gone))
          idx
          gone.value_index
          n
  Renamed-moved q last at_q taken_q is_last ne =
      let new : KeyValue = record last { value_index = gone.value_index } in
      let bs₁ = set bs q new in
      let here₁ = still_there q last at_q is_last ne in
      let taken_new = is_free-renamed gone.value_index last ∙ taken_q in
      record {
        gone = gone;
        points = refl;
        in_use = taken;
        before = here;
        mark = marked gone;
        is_mark = is_free-marked gone;
        now = get_elem?-set_length bs₁ idx (marked gone) gone here₁;
        rest = λ p b apart at_p.
            get_elem?-set_ne bs₁ idx p (marked gone) (λ e. apart (sym e))
            ∙ moved_bucket bs q n gone.value_index last unique at_q taken_q is_last p b at_p;
        long = length-set bs₁ idx (marked gone) ∙ length-set bs q new;
        table = λ t. IsTable-set bs₁ idx (marked gone) (IsTable-set bs q new t);
        reaches = λ left at p r.
            Reaches-set bs₁ idx (marked gone) left at p refl
              (Reaches-set bs q new left at p (used-not_empty new taken_new) r);
        one_less =
            used-set_free bs₁ idx gone (marked gone) here₁ taken (is_free-marked gone)
            ∙ used-set_taken bs q last new at_q taken_q taken_new;
      }
