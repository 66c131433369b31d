-- ===== src/Protocol/Read/Laws.antt =====
-- Rules for readers: one for each way to build a reader, for each of three properties.
use boutique.Common.{
  ℕ, ◌≤◌, ◌≡◌, refl, Bool, true, false, inl, inr, Option, some, ◌++◌, arith, Bytes, length,
  if◌then◌else◌, Option-cases,
}
use boutique.Protocol.Read.{
  Read, Reader, success, incomplete, invalid, bind, ◌>>=◌, pure, reject, require,
}

-- `P` holds of the value and of the bytes left, if the read succeeded.
pub data Ensures {ℓ κ} {A : Type ℓ} (P : A → Bytes → Type κ) : Read A → Type (ℓ ⊔ κ) where
  holds : {a : A} {rest : Bytes} → P a rest → Ensures P (success a rest)
  short : Ensures P incomplete
  wrong : Ensures P invalid

-- What `more` bytes at the end of the buffer make of an outcome.
abbrev pub Extends {ℓ} : {A : Type ℓ} → Bytes → Read A → Read A → Type ℓ
Extends more (success a rest) x = x ≡ success a (rest ++ more)
Extends more incomplete x = Unit
Extends more invalid x = x ≡ invalid

-- Once `p` has read a value or refused, `q` does so too, whatever bytes follow.
pub record Stable {ℓ} {A : Type ℓ} (p q : Reader A) : Type ℓ where
  pub at : (c more : Bytes) → Extends more (p c) (q (c ++ more))

-- A reader leaves no more than it was given.
pub record Shrinks {ℓ} {A : Type ℓ} (p : Reader A) : Type ℓ where
  pub at : (c : Bytes) → Ensures (λ a rest. length rest ≤ length c) (p c)

-- On buffers of at most `bound` bytes two readers do the same.
pub record Agree {ℓ} {A : Type ℓ} (bound : ℕ) (p q : Reader A) : Type ℓ where
  pub at : (c : Bytes) → length c ≤ bound → p c ≡ q c

module _ {ℓ κ} {A : Type ℓ} {P : A → Bytes → Type κ} where
  pub Ensures-success : {a : A} {rest : Bytes} → Ensures P (success a rest) → P a rest
  Ensures-success (holds h) = h

  pub Ensures-map {κ'} :
      {Q : A → Bytes → Type κ'} {r : Read A}
      → Ensures P r
      → ((a : A) (rest : Bytes) → P a rest → Q a rest)
      → Ensures Q r
  Ensures-map (holds {a} {rest} h) k = holds (k a rest h)
  Ensures-map short k = short
  Ensures-map wrong k = wrong

  pub Ensures-bind {ℓ' κ'} :
      {B : Type ℓ'} {Q : B → Bytes → Type κ'} {r : Read A} {f : A → Reader B}
      → Ensures P r
      → ((a : A) (rest : Bytes) → P a rest → Ensures Q (f a rest))
      → Ensures Q (bind r f)
  Ensures-bind (holds {a} {rest} h) k = k a rest h
  Ensures-bind short k = short
  Ensures-bind wrong k = wrong

  pub Ensures-require :
      (read : Bytes → Option (A × Bytes)) (c : Bytes)
      → ((a : A) (rest : Bytes) → read c ≡ some (a, rest) → P a rest)
      → Ensures P (require read c)
  Ensures-require read c k = elim (Option-cases (read c)) [
    | inl e ↦ rw e short
    | inr ((a, rest), e) ↦ rw e (holds (k a rest e))
  ]

  pub Ensures-if :
      (b : Bool) (p q : Reader A) (c : Bytes)
      → (b ≡ true → Ensures P (p c))
      → (b ≡ false → Ensures P (q c))
      → Ensures P ((if b then p else q) c)
  Ensures-if true p q c hp hq = hp refl
  Ensures-if false p q c hp hq = hq refl

module _ {ℓ} {A : Type ℓ} where
  pub Stable-pure : (a : A) → Stable (pure a) (pure a)
  Stable-pure a = record { at = λ c more. refl }

  pub Stable-reject : Stable {A = A} reject reject
  Stable-reject = record { at = λ c more. refl }

  pub Stable-require :
      (read : Bytes → Option (A × Bytes))
      → ((c more : Bytes) (a : A) (rest : Bytes)
          → read c ≡ some (a, rest)
          → read (c ++ more) ≡ some (a, rest ++ more))
      → Stable (require read) (require read)
  Stable-require read k = record {
    at = λ c more. elim (Option-cases (read c)) [
      | inl e ↦ rw e tt
      | inr ((a, rest), e) ↦ rw (e, k c more a rest e)
    ];
  }

  pub Stable-if :
      (b : Bool) {p p' q q' : Reader A}
      → Stable p p'
      → Stable q q'
      → Stable (if b then p else q) (if b then p' else q')
  Stable-if true hp hq = hp
  Stable-if false hp hq = hq

  pub Stable-bind {κ} :
      {B : Type κ} {p p' : Reader A} {f f' : A → Reader B}
      → Stable p p'
      → ((a : A) → Stable (f a) (f' a))
      → Stable (p >>= f) (p' >>= f')
  Stable-bind {B} {p} {p'} {f} {f'} hp hf = record {
    at = λ c more. go c more (p c) (p' (c ++ more)) (hp.at c more);
  }
    where
      go :
          (c more : Bytes) (r r' : Read A)
          → Extends more r r'
          → Extends more (bind r f) (bind r' f')
      go c more (success a rest) r' e = rw e ((hf a).at rest more)
      go c more incomplete r' e = tt
      go c more invalid r' e = rw e

  pub Shrinks-pure : (a : A) → Shrinks (pure a)
  Shrinks-pure a = record { at = λ c. holds (omega arith) }

  pub Shrinks-reject : Shrinks {A = A} reject
  Shrinks-reject = record { at = λ c. wrong }

  pub Shrinks-require :
      (read : Bytes → Option (A × Bytes))
      → ((c : Bytes) (a : A) (rest : Bytes) → read c ≡ some (a, rest) → length rest ≤ length c)
      → Shrinks (require read)
  Shrinks-require read k = record { at = λ c. Ensures-require read c (k c) }

  pub Shrinks-if :
      (b : Bool) {p q : Reader A} → Shrinks p → Shrinks q → Shrinks (if b then p else q)
  Shrinks-if true hp hq = hp
  Shrinks-if false hp hq = hq

  pub Shrinks-bind {κ} :
      {B : Type κ} {p : Reader A} {f : A → Reader B}
      → Shrinks p
      → ((a : A) → Shrinks (f a))
      → Shrinks (p >>= f)
  Shrinks-bind {p} {f} hp hf = record {
    at = λ c.
        Ensures-bind (hp.at c) λ a rest le. Ensures-map ((hf a).at rest) λ b rest' le'. omega arith;
  }

  pub Agree-refl : (bound : ℕ) (p : Reader A) → Agree bound p p
  Agree-refl bound p = record { at = λ c h. refl }

  pub Agree-if :
      (b : Bool) {bound : ℕ} {p p' q q' : Reader A}
      → Agree bound p p'
      → Agree bound q q'
      → Agree bound (if b then p else q) (if b then p' else q')
  Agree-if true hp hq = hp
  Agree-if false hp hq = hq

  pub Agree-bind {κ} :
      {B : Type κ} {bound : ℕ} {p p' : Reader A} {f f' : A → Reader B}
      → Shrinks p
      → Agree bound p p'
      → ((a : A) → Agree bound (f a) (f' a))
      → Agree bound (p >>= f) (p' >>= f')
  Agree-bind {B} {bound} {p} {p'} {f} {f'} shrinks hp hf = record {
    at = λ c h. rw (← hp.at c h) (go c h (p c) (shrinks.at c));
  }
    where
      go :
          (c : Bytes)
          → length c ≤ bound
          → (r : Read A) → Ensures (λ a rest. length rest ≤ length c) r
          → bind r f ≡ bind r f'
      go c h (success a rest) e = (hf a).at rest (omega (arith, Ensures-success e))
      go c h incomplete e = refl
      go c h invalid e = refl
