-- ===== src/Io/Context/Runs.antt =====
-- IOContext::run of io/context.cpp, as a sequence of turns.
use boutique.Common.{
  ℕ, zero, suc, ◌≤◌, ◌≡◌, ◌↔◌, refl, sym, ◌∙◌, true, false, inl, inr, none, some, arith, Bool-cases,
  Option-cases,
}
use boutique.Io.Context.{Context, System, Program, turn, run_loop, run}

module _ {IntFn SocketFn S : Type 0} (system : System S) (program : Program IntFn SocketFn S) where
  -- Turns after which a stop is asked for in the last one, and only there.
  pub data Turns : ℕ → Context IntFn SocketFn → S → Context IntFn SocketFn → S → Type 0 where
    last :
        (ctx ctx' : Context IntFn SocketFn) (s s' : S)
        → turn system program ctx s ≡ some (ctx', s')
        → ctx'.m_stop ≡ true
        → Turns 1 ctx s ctx' s'
    further :
        (n : ℕ) (ctx ctx₁ ctx' : Context IntFn SocketFn) (s s₁ s' : S)
        → turn system program ctx s ≡ some (ctx₁, s₁)
        → ctx₁.m_stop ≡ false
        → Turns n ctx₁ s₁ ctx' s'
        → Turns (suc n) ctx s ctx' s'

  run_loop-stop :
      (fuel : ℕ) (ctx : Context IntFn SocketFn) (s : S)
      → ctx.m_stop ≡ true
      → run_loop system program fuel ctx s ≡ some (some (ctx, s))
  unfolding run_loop
  run_loop-stop zero ctx s stop = rw stop refl
  run_loop-stop (suc fuel) ctx s stop = rw stop refl

  run_loop-turn :
      (fuel : ℕ) (ctx ctx₁ : Context IntFn SocketFn) (s s₁ : S)
      → ctx.m_stop ≡ false
      → turn system program ctx s ≡ some (ctx₁, s₁)
      → run_loop system program (suc fuel) ctx s ≡ run_loop system program fuel ctx₁ s₁
  unfolding run_loop
  run_loop-turn fuel ctx ctx₁ s s₁ on went = rw (went, on) refl

  run_loop-fails :
      (fuel : ℕ) (ctx : Context IntFn SocketFn) (s : S)
      → ctx.m_stop ≡ false
      → turn system program ctx s ≡ none
      → run_loop system program (suc fuel) ctx s ≡ some none
  unfolding run_loop
  run_loop-fails fuel ctx s on failed = rw (failed, on) refl

  Turns-run_loop :
      (n fuel : ℕ) (ctx ctx' : Context IntFn SocketFn) (s s' : S)
      → Turns n ctx s ctx' s'
      → n ≤ fuel
      → ctx.m_stop ≡ false
      → run_loop system program fuel ctx s ≡ some (some (ctx', s'))
  Turns-run_loop n zero _ _ _ _ (last ctx ctx' s s' went stop) h on = absurd (omega (arith, h))
  Turns-run_loop n zero _ _ _ _ (further n' ctx ctx₁ ctx' s s₁ s' went go_on later) h on =
      absurd (omega (arith, h))
  Turns-run_loop n (suc fuel) _ _ _ _ (last ctx ctx' s s' went stop) h on =
      run_loop-turn fuel ctx ctx' s s' on went ∙ run_loop-stop fuel ctx' s' stop
  Turns-run_loop n (suc fuel) _ _ _ _ (further n' ctx ctx₁ ctx' s s₁ s' went go_on later) h on =
      run_loop-turn fuel ctx ctx₁ s s₁ on went
      ∙ Turns-run_loop n' fuel ctx₁ ctx' s₁ s' later (omega (arith, h)) go_on

  run_loop-Turns :
      (fuel : ℕ) (ctx ctx' : Context IntFn SocketFn) (s s' : S)
      → ctx.m_stop ≡ false
      → run_loop system program fuel ctx s ≡ some (some (ctx', s'))
      → (n : ℕ) × (n ≤ fuel) × Turns n ctx s ctx' s'
  unfolding run_loop
  run_loop-Turns zero ctx ctx' s s' on done = let bad = rw on at done in cc
  run_loop-Turns (suc fuel) ctx ctx' s s' on done =
      elim (Option-cases (turn system program ctx s)) [
        | inl failed ↦ let bad = sym (run_loop-fails fuel ctx s on failed) ∙ done in cc
        | inr ((ctx₁, s₁), went) ↦
            let rest = sym (run_loop-turn fuel ctx ctx₁ s s₁ on went) ∙ done in
            elim (Bool-cases ctx₁.m_stop) [
              | inl stop ↦
                  let both = sym (run_loop-stop fuel ctx₁ s₁ stop) ∙ rest in
                  let same : ctx₁ ≡ ctx' = cc in
                  let same_s : s₁ ≡ s' = cc in
                  (1, omega arith, last ctx ctx' s s' (rw (same, same_s) at went) (rw same at stop))
              | inr go_on ↦
                  let (n, h, later) = run_loop-Turns fuel ctx₁ ctx' s₁ s' go_on rest in
                  (suc n, omega (arith, h), further n ctx ctx₁ ctx' s s₁ s' went go_on later)
            ]
      ]

  -- run ends with a context within `fuel` turns exactly where there are no more turns than these, one at
  -- least, that do not fail, in the last of which a stop is asked for, and in no earlier one, and
  -- that end with this context. A stop that was asked for before run does not count.
  pub run-returns_iff :
      (fuel : ℕ) (ctx ctx' : Context IntFn SocketFn) (s s' : S)
      → (run system program fuel ctx s ≡ some (some (ctx', s')))
        ↔ ((n : ℕ) × (n ≤ fuel) × Turns n (record ctx { m_stop = false }) s ctx' s')
  unfolding run
  run-returns_iff fuel ctx ctx' s s' = (
    λ done. run_loop-Turns fuel (record ctx { m_stop = false }) ctx' s s' refl done,
    λ t. Turns-run_loop t.0 fuel (record ctx { m_stop = false }) ctx' s s' t.2 t.1 refl,
  )
