-- ===== src/Protocol/Binary/Schemas/Sound.antt =====
-- What is read as a schema is the written form of that schema.
use boutique.Common.{
  ℕ, zero, suc, ◌^◌, ◌<◌, ◌≡◌, refl, ap, sym, [], ◌++◌, append_assoc, arith, some, Bytes, IsBytes,
  length, leb, ◌==◌, ==_iff, inl, inr, Option-cases,
}
use boutique.Core.Serialize.{read_uint, read_string, write_uint, write_string}
use boutique.Core.Serialize.Laws.{read_uint_sound, read_string_sound}
use boutique.Db.Schema.{
  FieldType, AggregateType, field_count, FitsType, FitsFields, FitsAggregate, FitsSchema,
}
use boutique.Protocol.Read.{Reader, ◌>>=◌, require}
use boutique.Protocol.Read.Laws.{
  Ensures, holds, short, wrong, Ensures-bind, Ensures-require, Ensures-if, Ensures-map,
}
use boutique.Protocol.Binary.Schemas.{
  type_index, primitive_type, read_case, read_type, read_fields, read_aggregate, check_key,
  read_schema, write_type, write_fields, write_aggregate, write_schema,
}
use boutique.Protocol.Binary.Schemas.Stream.{nested_reader}

-- `c` is the written form of the value read, and then the bytes left.
abbrev pub Written {ℓ κ} : {A : Type ℓ} → (A → Bytes) → (A → Type κ) → Bytes → A → Bytes → Type κ
Written write Fits c a rest = (c ≡ write a ++ rest) × Fits a × IsBytes rest

pub uint_Written :
    (width : ℕ) (c : Bytes)
    → IsBytes c
    → Ensures (Written (write_uint width) (λ v. v < 256 ^ width) c) (require (read_uint width) c)
uint_Written width c bytes =
    Ensures-require (read_uint width) c λ v rest e. read_uint_sound width c bytes e

pub string_Written :
    (c : Bytes)
    → IsBytes c
    → Ensures (Written write_string (λ s. length s < 2 ^ 32) c) (require read_string c)
string_Written c bytes = Ensures-require read_string c λ s rest e. read_string_sound c bytes e

primitive_type-eq-some :
    (index : ℕ) (t : FieldType)
    → primitive_type index ≡ some t
    → (type_index t ≡ index) × (write_type t ≡ []) × FitsType t
unfolding primitive_type type_index write_type FitsType
primitive_type-eq-some index t e = ground arith

read_case_Written :
    (nested : Reader AggregateType) (index : ℕ) (c : Bytes)
    → ((c : Bytes) → IsBytes c → Ensures (Written write_aggregate FitsAggregate c) (nested c))
    → IsBytes c
    → Ensures
        (λ t rest. (type_index t ≡ index) × Written write_type FitsType c t rest)
        (read_type nested index c)
unfolding read_type read_case type_index write_type FitsType write_aggregate
read_case_Written nested index c h bytes = elim (Option-cases (primitive_type index)) [
  | inr (t, e) ↦
      let (same, empty, fits) = primitive_type-eq-some index t e in
      rw e (holds (same, (rw empty, fits, bytes)))
  | inl e ↦
      rw (e, read_case)
        (Ensures-if (index == 11) _ _ c
          (λ is_string. Ensures-bind (uint_Written 4 c bytes) λ capacity rest w.
            holds (sym ((==_iff index 11).0 is_string), (w.0, omega (arith, w.1), w.2)))
          λ not_string.
            Ensures-if (index == 12) _ _ c
              (λ is_aggregate.
                Ensures-bind (h c bytes)
                  λ agg rest w. holds (sym ((==_iff index 12).0 is_aggregate), w))
              λ other. wrong)
]

-- the count and the fields of an aggregate, read by a loop over the fields
aggregate_Written :
    (read : ℕ → Reader AggregateType) (c : Bytes)
    → ((n : ℕ) (c : Bytes)
        → IsBytes c
        → Ensures
            (λ agg rest. (field_count agg ≡ n) × Written write_fields FitsFields c agg rest)
            (read n c))
    → IsBytes c
    → Ensures (Written write_aggregate FitsAggregate c) ((require (read_uint 4) >>= read) c)
unfolding write_aggregate
aggregate_Written read c h bytes = Ensures-bind (uint_Written 4 c bytes) λ n c₁ w.
    Ensures-map (h n c₁ w.2) λ agg rest v.
      (rw (v.0, append_assoc, ← v.1.0) w.0, (rw v.0 (omega (arith, w.1)), v.1.1), v.1.2)

read_fields-Written :
    (f n : ℕ) (c : Bytes)
    → IsBytes c
    → Ensures
        (λ agg rest. (field_count agg ≡ n) × Written write_fields FitsFields c agg rest)
        (read_fields f n c)
unfolding read_fields field_count write_fields FitsFields
read_fields-Written f zero c bytes = holds (refl, (refl, tt, bytes))
read_fields-Written zero (suc n) c bytes = short
read_fields-Written (suc f) (suc n) c bytes = Ensures-bind (string_Written c bytes) λ name c₁ w₁.
    Ensures-bind (uint_Written 1 c₁ w₁.2) λ index c₂ w₂.
      Ensures-bind
        (read_case_Written (nested_reader f) index c₂
          (λ c' b'. aggregate_Written (read_fields f) c' (read_fields-Written f) b') w₂.2)
        λ type c₃ w₃. Ensures-bind (read_fields-Written f n c₃ w₃.1.2) λ more rest w₄. holds (
          ap suc w₄.0,
          (
            rw (append_assoc, append_assoc, append_assoc, w₃.0, ← w₄.1.0, ← w₃.1.0, ← w₂.0) w₁.0,
            (w₁.1, w₃.1.1, w₄.1.1),
            w₄.1.2,
          ),
        )

read_aggregate-Written :
    (c : Bytes) → IsBytes c → Ensures (Written write_aggregate FitsAggregate c) (read_aggregate c)
unfolding read_aggregate
read_aggregate-Written c bytes =
    aggregate_Written (read_fields (length c)) c (read_fields-Written (length c)) bytes

pub read_schema-Written :
    (c : Bytes) → IsBytes c → Ensures (Written write_schema FitsSchema c) (read_schema c)
unfolding read_schema write_schema check_key
read_schema-Written c bytes = Ensures-bind (read_aggregate-Written c bytes) λ agg c₁ w₁.
    Ensures-bind (uint_Written 4 c₁ w₁.2) λ i rest w₂.
      Ensures-if (leb (field_count agg) i) _ _ rest (λ out. wrong)
        λ in_range. holds (rw (append_assoc, ← w₂.0) w₁.0, (w₁.1, ground arith), w₂.2)
