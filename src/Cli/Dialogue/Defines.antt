-- ===== src/Cli/Dialogue/Defines.antt =====
-- A schema that the client lets its user define is one that a collection can be made from.
use boutique.Common.{
  ℕ, zero, suc, ◌<◌, ◌≡◌, ◌≢◌, refl, inl, inr, Option, none, some, List, [], ◌∷◌, arith, Bytes,
  bytes_eq, Bool-cases,
}
use boutique.Db.Schema.{
  FieldType, AggregateType, Schema, string_type, aggregate_type, no_fields, field, field_type?,
  field_count,
}
use boutique.Db.Layout.{schema_size, schema_offset, aggregate_size, offset}
use boutique.Db.Layout.Offsets.{IsInhabited, AreInhabited, layout_total}
use boutique.Db.Database.{lookup}
use boutique.Db.Storage
use boutique.Db.Collection
use boutique.Db.Collection.{Collection, KeyKind, kind_of_key}
use boutique.Cli.Dialogue.{
  end_line, aggregate_line, primitive_type_names, add_field, Prompt, field_name, type_name,
  subschema_name, capacity, key_name, Answered, asks, threw, defined, on_primitive, on_key,
  on_subschema, on_capacity, on_end, on_line, define_schema,
}

-- Every aggregate in the client's cached schemas has a field.
abbrev pub AreFilled : List (Bytes × Schema) → Type 0
AreFilled [] = Unit
AreFilled ((name, s) ∷ schemas) = IsInhabited (aggregate_type s.fields) × AreFilled schemas

lookup-AreFilled :
    (schemas : List (Bytes × Schema)) (k : Bytes) (s : Schema)
    → AreFilled schemas
    → lookup k schemas ≡ some s
    → IsInhabited (aggregate_type s.fields)
unfolding lookup
lookup-AreFilled [] k s h e = cc
lookup-AreFilled ((j, t) ∷ schemas) k s h e = elim (Bool-cases (bytes_eq j k)) [
  | inl here ↦ let e' = rw here at e in let same : t ≡ s = cc in rw (← same) h.0
  | inr later ↦ lookup-AreFilled schemas k s h.1 (rw later at e)
]

add_field-AreInhabited :
    (agg : AggregateType) (name : Bytes) (type : FieldType)
    → AreInhabited agg
    → IsInhabited type
    → AreInhabited (add_field agg name type)
unfolding add_field IsInhabited
add_field-AreInhabited no_fields name type h h' = (h', tt)
add_field-AreInhabited (field name' type' rest) name type h h' =
    (h.0, add_field-AreInhabited rest name type h.1 h')

-- A schema with a key that is no aggregate, in which every aggregate has a field.
pub record IsDefined (s : Schema) : Type 0 where
  pub inhabited : AreInhabited s.fields
  pub some_field : s.fields ≢ no_fields
  pub key_type : FieldType
  pub has_key : field_type? s.fields s.key_field_index ≡ some key_type
  pub kind : KeyKind
  pub of_kind : kind_of_key key_type ≡ some kind

-- what holds when the key's name is asked for
abbrev IsAsked : AggregateType → Prompt → Type 0
IsAsked agg key_name = agg ≢ no_fields
IsAsked agg _ = Unit

abbrev IsFine : Answered → Type 0
IsFine (asks agg prompt) = AreInhabited agg × IsAsked agg prompt
IsFine threw = Unit
IsFine (defined s) = IsDefined s

on_key-IsFine :
    (agg : AggregateType) (index : ℕ) (type : Option FieldType)
    → AreInhabited agg
    → agg ≢ no_fields
    → field_type? agg index ≡ type
    → IsFine (on_key agg index type)
unfolding on_key kind_of_key boutique.Db.Layout.size
on_key-IsFine agg index none h ne e = (h, ne)
on_key-IsFine agg index (some (aggregate_type sub)) h ne e = (h, ne)
on_key-IsFine agg index (some _) h ne e = record {
  inhabited = h;
  some_field = ne;
  key_type = _;
  has_key = e;
  kind = _;
  of_kind = refl;
}

on_end-IsFine : (agg : AggregateType) → AreInhabited agg → IsFine (on_end agg)
unfolding on_end
on_end-IsFine no_fields h = (h, tt)
on_end-IsFine (field name type rest) h = (h, λ e. cc)

-- no primitive type is an aggregate
IsPrimitive : Option FieldType → Type 0
IsPrimitive none = Unit
IsPrimitive (some (aggregate_type agg)) = ⊥
IsPrimitive (some _) = Unit

lookup-IsPrimitive : (str : Bytes) → IsPrimitive (lookup str primitive_type_names)
unfolding lookup IsPrimitive
lookup-IsPrimitive str = ground arith

on_primitive-IsFine :
    (agg : AggregateType) (name : Bytes) (type : Option FieldType)
    → AreInhabited agg
    → IsPrimitive type
    → IsFine (on_primitive agg name type)
unfolding on_primitive IsPrimitive IsInhabited
on_primitive-IsFine agg name none h p = (h, tt)
on_primitive-IsFine agg name (some (string_type c)) h p = (h, tt)
on_primitive-IsFine agg name (some (aggregate_type sub)) h p = absurd p
on_primitive-IsFine agg name (some _) h p = (add_field-AreInhabited agg name _ h tt, tt)

on_subschema-IsFine :
    (agg : AggregateType) (name : Bytes) (found : Option Schema)
    → AreInhabited agg
    → ((s : Schema) → found ≡ some s → IsInhabited (aggregate_type s.fields))
    → IsFine (on_subschema agg name found)
unfolding on_subschema
on_subschema-IsFine agg name none h sub = (h, tt)
on_subschema-IsFine agg name (some s) h sub =
    (add_field-AreInhabited agg name (aggregate_type s.fields) h (sub s refl), tt)

on_capacity-IsFine :
    (agg : AggregateType) (name : Bytes) (n : Option ℕ)
    → AreInhabited agg
    → IsFine (on_capacity agg name n)
unfolding on_capacity IsInhabited
on_capacity-IsFine agg name none h = tt
on_capacity-IsFine agg name (some n) h = (add_field-AreInhabited agg name (string_type n) h tt, tt)

field_type?-lt :
    (agg : AggregateType) (i : ℕ) (type : FieldType)
    → field_type? agg i ≡ some type
    → i < field_count agg
unfolding field_type? field_count
field_type?-lt no_fields i type e = cc
field_type?-lt (field name type' rest) zero type e = omega arith
field_type?-lt (field name type' rest) (suc i) type e = omega (arith, field_type?-lt rest i type e)

IsDefined-new : (s : Schema) → IsDefined s → (c : Collection) × (Collection.new s ≡ some c)
unfolding Collection.new schema_size schema_offset
IsDefined-new s d =
    let lt = field_type?-lt s.fields s.key_field_index d.key_type d.has_key in
    let ((doc_size, sized), (key_offset, at_offset)) =
      layout_total s.fields s.key_field_index d.some_field d.inhabited lt in
    (
      record {
        schema = s;
        key_offset = key_offset;
        key_kind = d.kind;
        storage = Storage.new doc_size;
        buckets = [];
      },
      rw (sized, at_offset, d.has_key, d.of_kind),
    )

module _ (stoul : Bytes → Option ℕ) (schemas : List (Bytes × Schema))
    (cached : AreFilled schemas) where
  on_line-IsFine :
      (agg : AggregateType) (prompt : Prompt) (str : Bytes)
      → AreInhabited agg
      → IsAsked agg prompt
      → IsFine (on_line stoul schemas agg prompt str)
  unfolding on_line IsInhabited
  on_line-IsFine agg field_name str h asked = elim (Bool-cases (bytes_eq str end_line)) [
    | inl is_end ↦ rw is_end (on_end-IsFine agg h)
    | inr other ↦ rw other (h, tt)
  ]
  on_line-IsFine agg (type_name name) str h asked =
      elim (Bool-cases (bytes_eq str aggregate_line)) [
        | inl is_aggregate ↦ rw is_aggregate (h, tt)
        | inr other ↦ rw other (
            on_primitive-IsFine agg name (lookup str primitive_type_names) h
              (lookup-IsPrimitive str))
      ]
  on_line-IsFine agg (subschema_name name) str h asked =
      on_subschema-IsFine agg name (lookup str schemas) h
        (λ s. lookup-AreFilled schemas str s cached)
  on_line-IsFine agg (capacity name) str h asked = on_capacity-IsFine agg name (stoul str) h
  on_line-IsFine agg key_name str h asked = on_key-IsFine agg _ _ h asked refl

  define_schema-IsDefined :
      (agg : AggregateType) (prompt : Prompt) (lines rest : List Bytes) (s : Schema)
      → AreInhabited agg
      → IsAsked agg prompt
      → define_schema stoul schemas agg prompt lines ≡ some (some (s, rest))
      → IsDefined s
  unfolding define_schema boutique.Cli.Dialogue.after_line
  define_schema-IsDefined agg prompt [] rest s h asked e = cc
  define_schema-IsDefined agg prompt (line ∷ lines) rest s h asked e =
      go (on_line stoul schemas agg prompt line) (on_line-IsFine agg prompt line h asked) refl
        λ agg' prompt'. define_schema-IsDefined agg' prompt' lines rest s
    where
      go :
          (answer : Answered)
          → IsFine answer
          → on_line stoul schemas agg prompt line ≡ answer
          → ((agg' : AggregateType) (prompt' : Prompt)
              → AreInhabited agg'
              → IsAsked agg' prompt'
              → define_schema stoul schemas agg' prompt' lines ≡ some (some (s, rest))
              → IsDefined s)
          → IsDefined s
      go (asks agg' prompt') fine now again = again agg' prompt' fine.0 fine.1 (rw now at e)
      go threw fine now again = let bad = rw now at e in cc
      go (defined s') fine now again =
          let e' = rw now at e in let same : s' ≡ s = cc in rw (← same) fine

  -- Where every aggregate in the cached schemas has a field, a schema that the dialogue ends with has
  -- a key field that is no aggregate, and a collection can be made from it: no assertion of the
  -- layout or of the collection's constructor fails.
  pub define_schema-new :
      (lines rest : List Bytes) (s : Schema)
      → define_schema stoul schemas no_fields field_name lines ≡ some (some (s, rest))
      → (s.key_field_index < field_count s.fields)
        × ((c : Collection) × (Collection.new s ≡ some c))
  unfolding IsInhabited
  define_schema-new lines rest s e =
      let d = define_schema-IsDefined no_fields field_name lines rest s tt tt e in
      (field_type?-lt s.fields s.key_field_index d.key_type d.has_key, IsDefined-new s d)
