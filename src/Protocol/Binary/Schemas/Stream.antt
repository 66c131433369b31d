-- ===== src/Protocol/Binary/Schemas/Stream.antt =====
-- Readers of schemas on a buffer that grows: more bytes do not change a finished read, and the fuel
-- of the field loop never decides.
use boutique.Common.{
  ℕ, zero, suc, [], ◌∷◌, ◌∙◌, sym, ◌≤◌, ◌<◌, ◌≡◌, refl, inl, inr, Option, none, some, ◌++◌, arith,
  Bytes, length, length-append, ap, Option-cases,
}
use boutique.Core.Serialize.{read_uint, read_string}
use boutique.Core.Serialize.Laws.{
  read_uint-stable, read_string-stable, read_uint-eq-some, read_string-eq-some,
}
use boutique.Db.Schema.{FieldType, AggregateType, no_fields, field}
use boutique.Protocol.Read.{Reader, incomplete, ◌>>=◌, pure, require}
use boutique.Protocol.Read.Laws.{
  Ensures, holds, short, Ensures-require, Ensures-bind, Ensures-map, Stable, Stable-pure,
  Stable-reject, Stable-require, Stable-if, Stable-bind, Shrinks, Shrinks-pure, Shrinks-reject,
  Shrinks-require, Shrinks-if, Shrinks-bind, Agree, Agree-refl, Agree-if, Agree-bind,
}
use boutique.Protocol.Binary.Schemas.{
  primitive_type, read_case, read_type, read_fields, read_aggregate, check_key, read_schema,
}

pub uint-Stable : (width : ℕ) → Stable (require (read_uint width)) (require (read_uint width))
uint-Stable width =
    Stable-require (read_uint width) λ c more a rest e. read_uint-stable width c more e

pub string-Stable : Stable (require read_string) (require read_string)
string-Stable = Stable-require read_string λ c more a rest e. read_string-stable c more e

uint-Shrinks : (width : ℕ) → Shrinks (require (read_uint width))
uint-Shrinks width = Shrinks-require (read_uint width) λ c a rest e.
    let (p, len, split, value, _) = read_uint-eq-some width c e in
    omega (arith, ap length split, length-append p rest)

-- a string takes bytes of the buffer
length-read_string :
    (c : Bytes) (s rest : Bytes) → read_string c ≡ some (s, rest) → length rest < length c
length-read_string c s rest e =
    let (p, len, split, value) = read_string-eq-some c e in
    omega (arith, ap length split, length-append p (s ++ rest), length-append s rest)

string-Shrinks : Shrinks (require read_string)
string-Shrinks =
    Shrinks-require read_string λ c s rest e. omega (arith, length-read_string c s rest e)

pub ruleset stable_rules =
    (Stable-pure, Stable-reject, Stable-if, Stable-bind, uint-Stable, string-Stable)

ruleset shrinks_rules =
    (Shrinks-pure, Shrinks-reject, Shrinks-if, Shrinks-bind, uint-Shrinks, string-Shrinks)

ruleset agree_rules = (Agree-refl, Agree-if, Agree-bind, shrinks_rules)

module _ (nested nested' : Reader AggregateType) where
  read_case-Stable :
      (index : ℕ) (type : Option FieldType)
      → Stable nested nested'
      → Stable (read_case nested index type) (read_case nested' index type)
  unfolding read_case
  read_case-Stable index (some type) h = search stable_rules
  read_case-Stable index none h = search stable_rules

  read_case-Agree :
      (bound index : ℕ) (type : Option FieldType)
      → Shrinks nested
      → Agree bound nested nested'
      → Agree bound (read_case nested index type) (read_case nested' index type)
  unfolding read_case
  read_case-Agree bound index (some type) s h = search agree_rules
  read_case-Agree bound index none s h = search agree_rules

read_case-Shrinks :
    (nested : Reader AggregateType) (index : ℕ) (type : Option FieldType)
    → Shrinks nested
    → Shrinks (read_case nested index type)
unfolding read_case
read_case-Shrinks nested index (some type) h = search shrinks_rules
read_case-Shrinks nested index none h = search shrinks_rules

-- the reader of a nested aggregate, as the loop over the fields builds it
abbrev pub nested_reader : ℕ → Reader AggregateType
nested_reader fuel = require (read_uint 4) >>= read_fields fuel

read_fields-Stable : (f g n : ℕ) → f ≤ g → Stable (read_fields f n) (read_fields g n)
unfolding read_fields read_type
read_fields-Stable f g zero h = Stable-pure no_fields
read_fields-Stable zero g (suc n) h = record { at = λ c more. tt }
read_fields-Stable (suc f) zero (suc n) h = absurd (omega arith)
read_fields-Stable (suc f) (suc g) (suc n) h =
    let ih : (m : ℕ) → Stable (read_fields f m) (read_fields g m) =
      λ m. read_fields-Stable f g m (omega arith) in
    Stable-bind string-Stable λ name. Stable-bind (uint-Stable 1) λ index.
      Stable-bind
        (read_case-Stable (nested_reader f) (nested_reader g) index (primitive_type index)
          (Stable-bind (uint-Stable 4) ih))
        λ type. Stable-bind (ih n) λ rest. Stable-pure (field name type rest)

read_fields-Shrinks : (f n : ℕ) → Shrinks (read_fields f n)
unfolding read_fields read_type
read_fields-Shrinks f zero = Shrinks-pure no_fields
read_fields-Shrinks zero (suc n) = record { at = λ c. short }
read_fields-Shrinks (suc f) (suc n) = Shrinks-bind string-Shrinks λ name.
    Shrinks-bind (uint-Shrinks 1) λ index.
      Shrinks-bind
        (read_case-Shrinks (nested_reader f) index (primitive_type index)
          (Shrinks-bind (uint-Shrinks 4) (read_fields-Shrinks f)))
        λ type. Shrinks-bind (read_fields-Shrinks f n) λ rest. Shrinks-pure (field name type rest)

-- After a string the buffer is shorter, so readers that agree on shorter buffers agree here.
Agree-string {ℓ} :
    {B : Type ℓ} (bound : ℕ) (f f' : Bytes → Reader B)
    → ((s : Bytes) → Agree bound (f s) (f' s))
    → Agree (suc bound) (require read_string >>= f) (require read_string >>= f')
Agree-string bound f f' h = record {
  at = λ c le. elim (Option-cases (read_string c)) [
    | inl e ↦ rw e
    | inr ((s, rest), e) ↦ rw e ((h s).at rest (omega (arith, length-read_string c s rest e)))
  ];
}

-- no bytes, no field
read_fields-nil : (f n : ℕ) → read_fields f (suc n) [] ≡ incomplete
unfolding read_fields read_string
read_fields-nil zero n = refl
read_fields-nil (suc f) n = refl

read_fields-Agree_nil : (f g n : ℕ) → Agree 0 (read_fields f (suc n)) (read_fields g (suc n))
read_fields-Agree_nil f g n = record { at = on_nil }
  where
    on_nil : (c : Bytes) → length c ≤ 0 → read_fields f (suc n) c ≡ read_fields g (suc n) c
    on_nil [] h = read_fields-nil f n ∙ sym (read_fields-nil g n)
    on_nil (b ∷ c) h = absurd (omega arith)

read_fields-Agree :
    (bound f g n : ℕ) → bound ≤ f → bound ≤ g → Agree bound (read_fields f n) (read_fields g n)
unfolding read_fields read_type
read_fields-Agree bound f g zero hf hg = Agree-refl bound (pure no_fields)
read_fields-Agree zero f g (suc n) hf hg = read_fields-Agree_nil f g n
read_fields-Agree (suc bound) zero g (suc n) hf hg = absurd (omega arith)
read_fields-Agree (suc bound) (suc f) zero (suc n) hf hg = absurd (omega arith)
read_fields-Agree (suc bound) (suc f) (suc g) (suc n) hf hg =
    let ih : (m : ℕ) → Agree bound (read_fields f m) (read_fields g m) =
      λ m. read_fields-Agree bound f g m (omega arith) (omega arith) in
    let shrinks : Shrinks (nested_reader f) =
      Shrinks-bind (uint-Shrinks 4) (read_fields-Shrinks f) in
    Agree-string bound _ _ λ name. Agree-bind (uint-Shrinks 1) (Agree-refl bound _) λ index.
      Agree-bind (read_case-Shrinks (nested_reader f) index (primitive_type index) shrinks)
        (read_case-Agree (nested_reader f) (nested_reader g) bound index (primitive_type index)
          shrinks (Agree-bind (uint-Shrinks 4) (Agree-refl bound _) ih))
        λ type.
          Agree-bind (read_fields-Shrinks f n) (ih n)
            λ rest. Agree-refl bound (pure (field name type rest))

-- Fuel for each byte of the buffer is enough: with more of it the loop over the fields, and the
-- readers of nested aggregates in it, have the same outcome.
pub read_fields_fuel :
    (f g n : ℕ) (c : Bytes) → length c ≤ f → length c ≤ g → read_fields f n c ≡ read_fields g n c
read_fields_fuel f g n c hf hg = (read_fields-Agree (length c) f g n hf hg).at c (omega arith)

read_aggregate-Stable : Stable read_aggregate read_aggregate
unfolding read_aggregate
read_aggregate-Stable = record {
  at = λ c more.
      (Stable-bind (uint-Stable 4) λ n.
          read_fields-Stable (length c) (length (c ++ more)) n
            (omega (arith, length-append c more))).at
        c more;
}

check_key-Stable : (agg : AggregateType) (i : ℕ) → Stable (check_key agg i) (check_key agg i)
unfolding check_key
check_key-Stable agg i = search stable_rules

pub read_schema-Stable : Stable read_schema read_schema
unfolding read_schema
read_schema-Stable =
    Stable-bind read_aggregate-Stable λ agg. Stable-bind (uint-Stable 4) λ i. check_key-Stable agg i
