-- ===== src/Io/Transfer/Laws.antt =====
-- A buffer is sent or received whole and in order, whatever pieces the system takes or gives.
use boutique.Common.{
  false, ℕ, zero, suc, ◌+◌, ◌-◌, ◌%◌, ◌^◌, ◌≤◌, ◌<◌, ◌≡◌, ◌↔◌, refl, sym, ap, ◌∙◌, List, [], ◌∷◌,
  ◌++◌, arith, Bytes, take, drop, ◌==◌, if◌then◌else◌,
}
use boutique.Io.Transfer.{Next, finished, queued, on_result, start, drive}

minus_zero : (n : ℕ) → n - 0 ≡ n
minus_zero n = omega arith

-- `left` bytes of `len` are not done yet.
unfoldable pub state : ℕ → ℕ → Next
state len left =
    if left == 0
    then finished (len % 2 ^ 32)
    else queued (record { buf = len - left; maxlen = left })
        (record { orig_len = len; m_buf = len - left; m_len = left })

-- the results that a system gives: none is more than what is left
abbrev pub AreTaken : ℕ → List ℕ → Type 0
AreTaken left [] = Unit
AreTaken left (res ∷ results) = (res ≤ left) × AreTaken (left - res) results

abbrev pub total : List ℕ → ℕ
total [] = 0
total (res ∷ results) = res + total results

on_result-state :
    (len left res : ℕ)
    → len < 2 ^ 64
    → left ≤ len
    → res ≤ left
    → on_result (record { orig_len = len; m_buf = len - left; m_len = left }) res
      ≡ state len (left - res)
unfolding on_result state
on_result-state len left res small h taken =
    let rest : (left + 2 ^ 64 - res) % 2 ^ 64 ≡ left - res = omega arith in
    let place : (len - left) + res ≡ len - (left - res) = omega arith in rw (rest, place)

state-more :
    (len left : ℕ)
    → 1 ≤ left
    → state len left
      ≡ queued
          (record { buf = len - left; maxlen = left })
          (record { orig_len = len; m_buf = len - left; m_len = left })
unfolding state
state-more len left h = let more : (left == 0) ≡ false = ground arith in rw more

total-none : (results : List ℕ) → AreTaken 0 results → total results ≡ 0
total-none [] h = refl
total-none (res ∷ results) h =
    let e : res ≡ 0 = omega (arith, h.0) in omega (arith, e, total-none results (rw e at h.1))

total-le : (left : ℕ) (results : List ℕ) → AreTaken left results → total results ≤ left
total-le left [] h = omega arith
total-le left (res ∷ results) h = omega (arith, h.0, total-le (left - res) results h.1)

-- the bytes of `bytes` that the operations send or fill, in order
unfoldable pub moved : Bytes → Next → List ℕ → Bytes
moved bytes (finished res) results = []
moved bytes (queued span h) [] = []
moved bytes (queued span h) (res ∷ results) =
    take res (drop span.buf bytes) ++ moved bytes (on_result h res) results

drive-state_done : (len : ℕ) (results : List ℕ) → drive (state len 0) results ≡ state len 0
unfolding state drive
drive-state_done len results = refl

drive-state :
    (len left : ℕ) (results : List ℕ)
    → len < 2 ^ 64
    → left ≤ len
    → AreTaken left results
    → drive (state len left) results ≡ state len (left - total results)
unfolding drive
drive-state len zero results small h taken =
    rw (total-none results taken) (drive-state_done len results)
drive-state len (suc left) [] small h taken =
    rw (state-more len (suc left) (omega arith))
      (sym (state-more len (suc left) (omega arith)) ∙ ap (state len) (sym (minus_zero (suc left))))
drive-state len (suc left) (res ∷ results) small h taken =
    ap (λ n. drive n (res ∷ results)) (state-more len (suc left) (omega arith))
    ∙ (ap (λ n. drive n results) (on_result-state len (suc left) res small h taken.0)
        ∙ (drive-state len (suc left - res) results small (omega arith) taken.1
            ∙ ap (state len) (omega arith)))

start-state : (len : ℕ) → len < 2 ^ 64 → start len ≡ state len len
unfolding start
start-state len small =
    let e : len - len ≡ 0 = omega arith in
    rw e at (on_result-state len len 0 small (omega arith) (omega arith))
    ∙ ap (state len) (minus_zero len)

state-finished : (len left : ℕ) → state len left ≡ finished (len % 2 ^ 32) → left ≡ 0
unfolding state
state-finished len zero e = refl
state-finished len (suc left) e = cc (state-more len (suc left) (omega arith))

state-nothing : (len : ℕ) → state len 0 ≡ finished (len % 2 ^ 32)
unfolding state
state-nothing len = refl

-- However the system takes a buffer of `len` bytes, when it has taken `total results` of them what is
-- queued is the rest of the buffer, at its place, and when it has taken all of them the function is
-- called with the length as an int. No result is more than what was asked for.
pub drive-start :
    (len : ℕ) (results : List ℕ)
    → len < 2 ^ 64
    → AreTaken len results
    → drive (start len) results ≡ state len (len - total results)
drive-start len results small taken =
    rw (start-state len small) (drive-state len len results small (omega arith) taken)

-- res_fn is called as soon as the whole buffer is taken, and no sooner.
pub drive-eq-finished_iff :
    (len : ℕ) (results : List ℕ)
    → len < 2 ^ 64
    → AreTaken len results
    → (drive (start len) results ≡ finished (len % 2 ^ 32)) ↔ (total results ≡ len)
drive-eq-finished_iff len results small taken =
    let whole = drive-start len results small taken in
    let le = total-le len results taken in
    (
      λ e. let none_left = state-finished len (len - total results) (sym whole ∙ e) in omega arith,
      λ all.
          let none_left : len - total results ≡ 0 = omega arith in
          whole ∙ (ap (state len) none_left ∙ state-nothing len),
    )
