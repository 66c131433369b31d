-- ===== src/Io/Socket/Sizes.antt =====
-- Which lengths of a buffer reach the system's calls.
use boutique.Common.{
  ℕ, ◌-◌, ◌%◌, ◌^◌, ◌≤◌, ◌<◌, ◌≡◌, ◌↔◌, ◌⊎◌, ◌∙◌, sym, ap, inl, inr, some, arith, ltb, ltb→lt,
  Bool-cases,
}
use boutique.Core.Serialize.{bind_option-eq-some}
use boutique.Io.Context.{Span}
use boutique.Io.Socket.{Posix, int_size, received, system}

-- the conversion keeps a length
int_size_iff :
    (maxlen : ℕ)
    → maxlen < 2 ^ 64
    → (int_size maxlen ≡ maxlen) ↔ ((maxlen < 2 ^ 31) ⊎ (2 ^ 64 - 2 ^ 31 ≤ maxlen))
unfolding int_size
int_size_iff maxlen small =
    let low = maxlen % 2 ^ 32 in
    elim (Bool-cases (ltb low (2 ^ 31))) [
      | inl is_low ↦
          let lt = ltb→lt low (2 ^ 31) is_low in
          (
            λ e. let e' = rw is_low at e in inl (omega (arith, lt, e')),
            λ h. elim h [
              | inl below ↦ rw is_low (omega (arith, below))
              | inr above ↦ absurd (omega (arith, lt, above, small))
            ],
          )
      | inr is_high ↦
          let ge : 2 ^ 31 ≤ low = ground (arith, is_high) in
          (
            λ e. let e' = rw is_high at e in inr (omega (arith, ge, e')),
            λ h. elim h [
              | inl below ↦ absurd (omega (arith, ge, below))
              | inr above ↦ rw is_high (omega (arith, ge, above, small))
            ],
          )
    ]

-- An operation that is given a length as it is, or as the conversion has it.
seen_iff :
    {S : Type 0} (seen : S → ℕ) (s' : S) (maxlen : ℕ)
    → maxlen < 2 ^ 64
    → seen s' ≡ int_size maxlen
    → (seen s' ≡ maxlen) ↔ ((maxlen < 2 ^ 31) ⊎ (2 ^ 64 - 2 ^ 31 ≤ maxlen))
seen_iff seen s' maxlen small e = (
  λ same. (int_size_iff maxlen small).0 (sym e ∙ same),
  λ fits. e ∙ (int_size_iff maxlen small).1 fits,
)

module _ {S : Type 0} (posix : Posix S) (seen : S → ℕ) (fd : ℕ) (span : Span) (s s' : S)
    (n : ℕ) where
  -- the same of recv as of send, below
  recv-maxlen_iff :
      ((fd buf len : ℕ) (s : S) → seen (posix.recv fd buf len s).0 ≡ len)
      → span.maxlen < 2 ^ 64
      → (system posix).recv fd span s ≡ some (s', n)
      → (seen s' ≡ span.maxlen) ↔ ((span.maxlen < 2 ^ 31) ⊎ (2 ^ 64 - 2 ^ 31 ≤ span.maxlen))
  unfolding system
  recv-maxlen_iff remembers small run =
      let r = posix.recv fd span.buf (int_size span.maxlen) s in
      let (m, got, e) = bind_option-eq-some (received r.1) _ run in
      let same : r.0 ≡ s' = cc in
      seen_iff seen s' span.maxlen small
        (ap seen (sym same) ∙ remembers fd span.buf (int_size span.maxlen) s)

  -- Where the system remembers in `seen` the length that its send was given, and Socket::send returns,
  -- the length of the operation's buffer, which is below 2 ^ 64, is the one that was given exactly when
  -- it is below 2 ^ 31 or at least 2 ^ 64 - 2 ^ 31.
  pub send-maxlen_iff :
      ((fd buf len : ℕ) (s : S) → seen (posix.send fd buf len s).0 ≡ len)
      → span.maxlen < 2 ^ 64
      → (system posix).send fd span s ≡ some (s', n)
      → (seen s' ≡ span.maxlen) ↔ ((span.maxlen < 2 ^ 31) ⊎ (2 ^ 64 - 2 ^ 31 ≤ span.maxlen))
  unfolding system
  send-maxlen_iff remembers small run =
      let r = posix.send fd span.buf (int_size span.maxlen) s in
      let (m, got, e) = bind_option-eq-some (received r.1) _ run in
      let same : r.0 ≡ s' = cc in
      seen_iff seen s' span.maxlen small
        (ap seen (sym same) ∙ remembers fd span.buf (int_size span.maxlen) s)
