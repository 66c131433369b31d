-- ===== src/Cli/Document/Writes.antt =====
-- What the client's reading of fields leaves: the lines behind those that were typed for them, and the
-- bytes before what is written.
use boutique.Common.{
  ℕ, zero, suc, ◌+◌, ◌≤◌, ◌≡◌, refl, sym, ap, ◌∙◌, inl, inr, some, List, [], ◌∷◌, ◌++◌, arith,
  Bytes, length, length-take, length-drop, take, drop, drop-add, take-append_le, drop-append_le,
  take-append-drop, drop-length_append, take-length_append, get_elem?, Option-cases,
}
use boutique.Db.Schema.{
  FieldType, AggregateType, bool_type, aggregate_type, no_fields, field, field_type?,
}
use boutique.Db.Layout.{word, size, end_offset, offset, aggregate_size}
use boutique.Db.Layout.Within.{span, spans, offset-aggregate_size}
use boutique.Db.Storage
use boutique.Cli.Document.{Numbers, value_bytes, write_at, read_value, read_field, read_fields}
use boutique.Cli.Document.Lengths.{and_then-eq-some, end_offset-size, span-le, read_field-length}

-- how many lines are typed for a field
abbrev mutual
  pub line_count : FieldType → ℕ
  line_count (aggregate_type agg) = line_counts agg
  line_count _ = 1

  pub line_counts : AggregateType → ℕ
  line_counts no_fields = 0
  line_counts (field name type rest) = line_count type + line_counts rest

-- how many lines are typed before those of field i
abbrev pub lines_before : AggregateType → ℕ → ℕ
lines_before no_fields i = 0
lines_before (field name type rest) zero = 0
lines_before (field name type rest) (suc i) = line_count type + lines_before rest i

slice-append :
    (start n : ℕ) (xs ys : Bytes)
    → start + n ≤ length xs
    → take n (drop start (xs ++ ys)) ≡ take n (drop start xs)
slice-append start n xs ys h =
    rw (drop-append_le start xs ys (omega (arith, h)))
      (take-append_le n (drop start xs) ys (omega (arith, h, length-drop start xs)))

-- a write behind some bytes leaves them
slice-overwrite :
    (start n d : ℕ) (src buf : Bytes)
    → start + n ≤ d
    → d ≤ length buf
    → take n (drop start (Storage.overwrite d src buf)) ≡ take n (drop start buf)
unfolding Storage.overwrite
slice-overwrite start n d src buf behind within =
    let room : start + n ≤ length (take d buf) = omega (arith, length-take d buf, behind, within) in
    slice-append start n (take d buf) (src ++ drop (d + length src) buf) room
    ∙ (sym (slice-append start n (take d buf) (drop d buf) room)
        ∙ ap (λ x. take n (drop start x)) (take-append-drop d buf))

-- the write itself
pub slice-written :
    (d : ℕ) (src buf : Bytes)
    → d ≤ length buf
    → take (length src) (drop d (Storage.overwrite d src buf)) ≡ src
unfolding Storage.overwrite
slice-written d src buf within =
    let wide : length (take d buf) ≡ d = omega (arith, length-take d buf, within) in
    let there = rw wide at (drop-length_append (take d buf) (src ++ drop (d + length src) buf)) in
    rw there (take-length_append src (drop (d + length src) buf))

drop-nothing : (a : ℕ) → drop {A = Bytes} a [] ≡ []
drop-nothing zero = refl
drop-nothing (suc a) = refl

pub get_elem?-drop :
    (a b : ℕ) (lines : List Bytes) → get_elem? (drop a lines) b ≡ get_elem? lines (a + b)
get_elem?-drop zero b lines = let same : b ≡ 0 + b = omega arith in ap (get_elem? lines) same
get_elem?-drop (suc a) b [] = refl
get_elem?-drop (suc a) b (x ∷ lines) =
    let same : suc (a + b) ≡ suc a + b = omega arith in
    get_elem?-drop a b lines ∙ ap (get_elem? (x ∷ lines)) same

pub read_value-inv :
    (n : Numbers) (type : FieldType) (dest : ℕ) (buf : Bytes) (lines : List Bytes)
    (r : Bytes × List Bytes)
    → read_value n type dest buf lines ≡ some (some r)
    → (value bytes : Bytes) × (get_elem? lines 0 ≡ some value)
      × (value_bytes n type value ≡ some bytes)
      × (r.0 ≡ Storage.overwrite dest bytes buf)
      × (r.1 ≡ drop 1 lines)
unfolding read_value write_at
read_value-inv n type dest buf [] r e = cc
read_value-inv n type dest buf (value ∷ lines) r e =
    elim (Option-cases (value_bytes n type value)) [
      | inl failed ↦ let bad = rw failed at e in cc
      | inr (bytes, typed) ↦
          let e' = rw typed at e in
          let same : (Storage.overwrite dest bytes buf, lines) ≡ r = cc in
          (value, bytes, refl, typed, ap (λ x. x.0) (sym same), ap (λ x. x.1) (sym same))
    ]

mutual
  unfolding read_field

  pub read_field-lines :
      (n : Numbers) (type : FieldType) (dest : ℕ) (buf : Bytes) (lines : List Bytes)
      (r : Bytes × List Bytes)
      → read_field n type dest buf lines ≡ some (some r)
      → r.1 ≡ drop (line_count type) lines
  read_field-lines n (aggregate_type agg) dest buf lines r e =
      read_fields-lines n agg 0 agg dest buf lines r e
  read_field-lines n bool_type dest buf lines r e =
      (read_value-inv n bool_type dest buf lines r e).5
  read_field-lines n type dest buf lines r e = (read_value-inv n type dest buf lines r e).5

  read_fields-lines :
      (n : Numbers) (agg : AggregateType) (k : ℕ) (rest : AggregateType) (dest : ℕ) (buf : Bytes)
      (lines : List Bytes) (r : Bytes × List Bytes)
      → read_fields n agg k rest dest buf lines ≡ some (some r)
      → r.1 ≡ drop (line_counts rest) lines
  read_fields-lines n agg k no_fields dest buf lines r run =
      let same : (buf, lines) ≡ r = cc in ap (λ x. x.1) (sym same)
  read_fields-lines n agg k (field name type rest) dest buf lines r run =
      let (o, eo, run₁) = and_then-eq-some (some (offset agg k)) _ run in
      let (r₁, here, run₂) = and_then-eq-some (read_field n type (dest + o) buf lines) _ run₁ in
      read_fields-lines n agg (k + 1) rest dest r₁.0 r₁.1 r run₂
      ∙ (ap (drop (line_counts rest)) (read_field-lines n type (dest + o) buf lines r₁ here)
          ∙ sym (drop-add (line_count type) (line_counts rest) lines))

-- the write of a line, behind some bytes
read_value-slice :
    (n : Numbers) (type : FieldType) (dest s start m : ℕ) (buf : Bytes) (lines : List Bytes)
    (r : Bytes × List Bytes)
    → read_value n type dest buf lines ≡ some (some r)
    → dest + s ≤ length buf
    → start + m ≤ dest
    → take m (drop start r.0) ≡ take m (drop start buf)
read_value-slice n type dest s start m buf lines r e room behind =
    let (value, bytes, line, typed, same, left) = read_value-inv n type dest buf lines r e in
    rw same (slice-overwrite start m dest bytes buf behind (omega (arith, room)))

mutual
  unfolding read_field size span field_type? aggregate_size

  -- what is written behind some bytes leaves them
  read_field-slice :
      (n : Numbers) (type : FieldType) (dest s start m : ℕ) (buf : Bytes) (lines : List Bytes)
      (r : Bytes × List Bytes)
      → read_field n type dest buf lines ≡ some (some r)
      → size type ≡ some s
      → span type + 8 ≤ word
      → dest + s ≤ length buf
      → start + m ≤ dest
      → take m (drop start r.0) ≡ take m (drop start buf)
  read_field-slice n (aggregate_type agg) dest s start m buf lines r e es small room behind =
      read_fields-slice n agg 0 agg dest s start m buf lines r
        (λ j. ap (field_type? agg) (omega arith)) (λ j o le eo. omega (arith, behind)) e es small
        room
  read_field-slice n bool_type dest s start m buf lines r e es small room behind =
      read_value-slice n bool_type dest s start m buf lines r e room behind
  read_field-slice n type dest s start m buf lines r e es small room behind =
      read_value-slice n type dest s start m buf lines r e room behind

  pub read_fields-slice :
      (n : Numbers) (agg : AggregateType) (k : ℕ) (rest : AggregateType) (dest e start m : ℕ)
      (buf : Bytes) (lines : List Bytes) (r : Bytes × List Bytes)
      → ((j : ℕ) → field_type? rest j ≡ field_type? agg (k + j))
      → ((j o : ℕ) → k ≤ j → offset agg j ≡ some o → start + m ≤ dest + o)
      → read_fields n agg k rest dest buf lines ≡ some (some r)
      → end_offset agg 0 ≡ some e
      → spans agg + 8 ≤ word
      → dest + e ≤ length buf
      → take m (drop start r.0) ≡ take m (drop start buf)
  read_fields-slice n agg k no_fields dest e start m buf lines r suffix behind run ee small room =
      let same : (buf, lines) ≡ r = cc in ap (λ x. take m (drop start x.0)) (sym same)
  read_fields-slice n agg k (field name type rest) dest e start m buf lines r suffix behind run ee
        small room =
      let (o, eo, run₁) = and_then-eq-some (some (offset agg k)) _ run in
      let is_o : offset agg k ≡ some o = cc in
      let (r₁, here, run₂) = and_then-eq-some (read_field n type (dest + o) buf lines) _ run₁ in
      let et : field_type? agg k ≡ some type =
        ap (field_type? agg) (omega arith) ∙ sym (suffix 0) in
      let (s, es) = end_offset-size agg k 0 e type ee et in
      let fits : o + s ≤ e = offset-aggregate_size agg k type o s e et is_o es ee small in
      let small₁ : span type + 8 ≤ word = omega (arith, small, span-le agg k type et) in
      let room₁ : dest + o + s ≤ length buf = omega (arith, fits, room) in
      let len = read_field-length n type (dest + o) s buf lines r₁ here es small₁ room₁ in
      read_fields-slice n agg (k + 1) rest dest e start m r₁.0 r₁.1 r
        (λ j. suffix (suc j) ∙ ap (field_type? agg) (omega arith))
        (λ j o' le eo'. behind j o' (omega (arith, le)) eo') run₂ ee small
        (omega (arith, room, len))
      ∙ read_field-slice n type (dest + o) s start m buf lines r₁ here es small₁ room₁
          (behind k o (omega arith) is_o)
