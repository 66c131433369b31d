-- ===== src/Core/StreamBuf/Laws.antt =====
-- The stream buffer as a queue of bytes.
use boutique.Common.{
  drop-all, take-whole, ℕ, ◌+◌, ◌-◌, ◌≤◌, ◌≡◌, ◌↔◌, refl, sym, ap, ◌∙◌, true, inl, inr, some, [],
  ◌∷◌, ◌++◌, arith, Bytes, length, drop, length-append, length-drop, drop-append_le, drop-add,
  le→ltb_false, ◌==◌, ==_iff, Bool-cases,
}
use boutique.Core.StreamBuf.{StreamBuf, new, append, consume, size, empty, contents}

pub record IsValid (s : StreamBuf) : Type 0 where
  pub counted : length s.m_buf ≡ s.m_size
  pub used : s.m_used ≤ s.m_size
  pub cleared : s.m_used ≡ s.m_size → s.m_size ≡ 0

length-zero : (xs : Bytes) → length xs ≡ 0 → xs ≡ []
length-zero [] h = refl
length-zero (x ∷ xs) h = absurd (omega arith)

-- all that is behind the bytes used
contents-drop : (s : StreamBuf) → IsValid s → contents s ≡ drop s.m_used s.m_buf
unfolding contents
contents-drop s v =
    take-whole (s.m_size - s.m_used) (drop s.m_used s.m_buf)
      (omega (arith, length-drop s.m_used s.m_buf, v.counted))

pub length-contents : (s : StreamBuf) → IsValid s → length (contents s) ≡ size s
unfolding size
length-contents s v =
    rw (contents-drop s v) (omega (arith, length-drop s.m_used s.m_buf, v.counted))

pub new-IsValid : IsValid new
unfolding new
new-IsValid = record { counted = refl; used = omega arith; cleared = λ e. refl }

append-IsValid :
    (s : StreamBuf) (more : Bytes) → IsValid s → 1 ≤ length more → IsValid (append s more)
unfolding append
append-IsValid s more v pos = record {
  counted = omega (arith, length-append s.m_buf more, v.counted);
  used = omega (arith, v.used);
  cleared = λ e. absurd (omega (arith, v.used));
}

-- At least one byte appended to a well-formed buffer: the bytes come behind those that are there,
-- and the buffer is well formed.
pub append-contents :
    (s : StreamBuf) (more : Bytes)
    → IsValid s
    → 1 ≤ length more
    → IsValid (append s more) × (contents (append s more) ≡ contents s ++ more)
append-contents s more v pos =
    let v' = append-IsValid s more v pos in
    (
      v',
      contents-drop (append s more) v'
          ∙ unfold append in
            drop-append_le s.m_used s.m_buf more (omega (arith, v.used, v.counted))
            ∙ ap (λ t. t ++ more) (sym (contents-drop s v)),
    )

-- Consuming no more than a well-formed buffer has succeeds, takes that many bytes off the front, and
-- leaves a well-formed buffer.
pub consume-contents :
    (s : StreamBuf) (n : ℕ)
    → IsValid s
    → n ≤ size s
    → (s' : StreamBuf) × (consume s n ≡ some s') × IsValid s' × (contents s' ≡ drop n (contents s))
unfolding consume
consume-contents s n v h =
    let len = length-contents s v in
    let fits : s.m_used + n ≤ s.m_size = unfold size in omega (arith, v.used, h) in
    let within = le→ltb_false s.m_size (s.m_used + n) fits in
    elim (Bool-cases (s.m_used + n == s.m_size)) [
      | inl all ↦
          let done : s.m_used + n ≡ s.m_size = (==_iff (s.m_used + n) s.m_size).0 all in
          (
            record { m_size = 0; m_used = 0; m_buf = [] },
            rw (within, all),
            unfold new in new-IsValid,
            rw (drop-all n (contents s) (unfold size in omega (arith, len)))
                (unfold contents size in refl),
          )
      | inr part ↦
          let s' : StreamBuf = record s { m_used = s.m_used + n } in
          let v' : IsValid s' = record {
            counted = v.counted;
            used = fits;
            cleared = λ e. cc ((==_iff (s.m_used + n) s.m_size).1 e);
          } in
          (
            s',
            rw (within, part),
            v',
            rw (contents-drop s' v', contents-drop s v) (drop-add s.m_used n s.m_buf),
          )
    ]

-- A well-formed buffer reports that it is empty exactly when nothing is left to read.
pub empty_iff : (s : StreamBuf) → IsValid s → (empty s ≡ true) ↔ (contents s ≡ [])
unfolding empty size
empty_iff s v =
    let len : length (contents s) ≡ s.m_size - s.m_used = length-contents s v in
    (
      (λ e. length-zero (contents s) (omega (arith, len, (==_iff s.m_size 0).0 e))),
      λ e.
          let gone : s.m_used ≡ s.m_size = omega (arith, len, ap length e, v.used) in
          (==_iff s.m_size 0).1 (v.cleared gone),
    )
