-- ===== src/Io/Context/Queues.antt =====
-- The queues of a turn of the event loop: the flags of the copies, and the order in which what is
-- left and what is new are put together.
use boutique.Common.{
  ℕ, ◌≡◌, refl, ap, ◌∙◌, Bool, true, false, inl, inr, Option, some, List, [], ◌∷◌, ◌++◌,
  append_assoc, append-nil, if◌then◌else◌, Bool-cases, Option-cases,
}
use boutique.Core.Serialize.{bind_option}
use boutique.Io.Context.{Op, Context, Request, perform, perform_all, dispatch, incomplete_of}

-- No queued operation is marked complete.
abbrev pub ArePending : {Arg Fn : Type 0} → List (Op Arg Fn) → Type 0
ArePending [] = Unit
ArePending (op ∷ ops) = (op.complete ≡ false) × ArePending ops

pub record IsQueued {IntFn SocketFn : Type 0} (ctx : Context IntFn SocketFn) : Type 0 where
  pub recv : ArePending ctx.m_recv
  pub send : ArePending ctx.m_send
  pub accept : ArePending ctx.m_accept
  pub wait : ArePending ctx.m_wait

-- the operations whose descriptors are not ready, in order
unfoldable pub waiting : {Arg Fn : Type 0} → (ℕ → Bool) → List (Op Arg Fn) → List (Op Arg Fn)
waiting is_set [] = []
waiting is_set (op ∷ ops) = if is_set op.fd then waiting is_set ops else op ∷ waiting is_set ops

waiting-ArePending :
    {Arg Fn : Type 0} (is_set : ℕ → Bool) (ops : List (Op Arg Fn))
    → ArePending ops
    → ArePending (waiting is_set ops)
unfolding waiting
waiting-ArePending is_set [] h = h
waiting-ArePending is_set (op ∷ ops) h = elim (Bool-cases (is_set op.fd)) [
  | inl ready ↦ rw ready (waiting-ArePending is_set ops h.1)
  | inr idle ↦ rw idle (h.0, waiting-ArePending is_set ops h.1)
]

ArePending-append :
    {Arg Fn : Type 0} (ops : List (Op Arg Fn)) (op : Op Arg Fn)
    → ArePending ops
    → op.complete ≡ false
    → ArePending (ops ++ op ∷ [])
ArePending-append [] op h e = (e, tt)
ArePending-append (x ∷ ops) op h e = (h.0, ArePending-append ops op h.1 e)

-- the copy of a queue when its loop is done
unfoldable pub marked : {Arg Fn : Type 0} → (ℕ → Bool) → List (Op Arg Fn) → List (Op Arg Fn)
marked is_set [] = []
marked is_set (op ∷ ops) =
    (if is_set op.fd then record op { complete = true } else op) ∷ marked is_set ops

module _ {IntFn SocketFn S Arg Fn : Type 0} where
  -- The ready operations of a queue are performed in order, and their functions called, each once;
  -- what the functions ask of the context is put together.
  unfoldable pub serve :
      (Op Arg Fn → S → Option (S × List (Request IntFn SocketFn)))
      → (ℕ → Bool)
      → List (Op Arg Fn)
      → S
      → Option (S × List (Request IntFn SocketFn))
  serve act is_set [] s = some (s, [])
  serve act is_set (op ∷ ops) s =
      if is_set op.fd
      then (bind_option (act op s)
          λ r. bind_option (serve act is_set ops r.0) λ rest. some (rest.0, r.1 ++ rest.1))
      else serve act is_set ops s

pub incomplete_of-marked :
    {Arg Fn : Type 0} (is_set : ℕ → Bool) (ops : List (Op Arg Fn))
    → ArePending ops
    → incomplete_of (marked is_set ops) ≡ waiting is_set ops
unfolding incomplete_of marked waiting
incomplete_of-marked is_set [] h = refl
incomplete_of-marked is_set (op ∷ ops) h = elim (Bool-cases (is_set op.fd)) [
  | inl ready ↦ rw (ready, incomplete_of-marked is_set ops h.1)
  | inr idle ↦ rw (idle, h.0, incomplete_of-marked is_set ops h.1)
]

pub perform_all-append :
    {IntFn SocketFn : Type 0} (rs qs : List (Request IntFn SocketFn)) (ctx : Context IntFn SocketFn)
    → perform_all (rs ++ qs) ctx ≡ perform_all qs (perform_all rs ctx)
unfolding perform_all
perform_all-append [] qs ctx = refl
perform_all-append (r ∷ rs) qs ctx = perform_all-append rs qs (perform r ctx)

dispatch-serve :
    {IntFn SocketFn S Arg Fn : Type 0}
    (act : Op Arg Fn → S → Option (S × List (Request IntFn SocketFn))) (is_set : ℕ → Bool)
    (ops : List (Op Arg Fn)) (ctx : Context IntFn SocketFn) (s : S)
    → dispatch act is_set ops ctx s
      ≡ bind_option (serve act is_set ops s) λ r. some (marked is_set ops, perform_all r.1 ctx, r.0)
unfolding dispatch serve marked perform_all
dispatch-serve act is_set [] ctx s = refl
dispatch-serve act is_set (op ∷ ops) ctx s = elim (Bool-cases (is_set op.fd)) [
  | inl ready ↦ elim (Option-cases (act op s)) [
    | inl failed ↦ rw (ready, failed)
    | inr (r, done) ↦
        rw (ready, done, dispatch-serve act is_set ops (perform_all r.1 ctx) r.0)
          (elim (Option-cases (serve act is_set ops r.0)) [
            | inl failed ↦ rw failed
            | inr (rest, served) ↦ rw (served, perform_all-append r.1 rest.1 ctx)
          ])
  ]
  | inr idle ↦
      rw (idle, dispatch-serve act is_set ops ctx s)
        (elim (Option-cases (serve act is_set ops s)) [
          | inl failed ↦ rw failed
          | inr (rest, served) ↦ rw served
        ])
]

-- a loop and what follows it, `k`, against the ready operations and what follows them
pub dispatch-then :
    {IntFn SocketFn S Arg Fn B C : Type 0}
    (act : Op Arg Fn → S → Option (S × List (Request IntFn SocketFn))) (is_set : ℕ → Bool)
    (ops : List (Op Arg Fn)) (ctx : Context IntFn SocketFn) (s : S)
    (k : List (Op Arg Fn) × Context IntFn SocketFn × S → Option C)
    (f : S × List (Request IntFn SocketFn) → Option B) (g : B → Option C)
    → ((r : S × List (Request IntFn SocketFn))
        → k (marked is_set ops, perform_all r.1 ctx, r.0) ≡ bind_option (f r) g)
    → bind_option (dispatch act is_set ops ctx s) k
      ≡ bind_option (bind_option (serve act is_set ops s) f) g
dispatch-then act is_set ops ctx s k f g same =
    rw (dispatch-serve act is_set ops ctx s) (elim (Option-cases (serve act is_set ops s)) [
      | inl failed ↦ rw failed
      | inr (r, served) ↦ rw served (same r)
    ])

module _ {IntFn SocketFn : Type 0} where
  -- the queues of `old` before those of `ctx`
  unfoldable pub before : Context IntFn SocketFn → Context IntFn SocketFn → Context IntFn SocketFn
  before old ctx = record ctx {
    m_recv = old.m_recv ++ ctx.m_recv;
    m_send = old.m_send ++ ctx.m_send;
    m_accept = old.m_accept ++ ctx.m_accept;
    m_wait = old.m_wait ++ ctx.m_wait;
  }

  before-perform :
      (old ctx : Context IntFn SocketFn) (r : Request IntFn SocketFn)
      → before old (perform r ctx) ≡ perform r (before old ctx)
  unfolding before perform
  before-perform old ctx (Request.recv fd span fn) = rw append_assoc
  before-perform old ctx (Request.send fd span fn) = rw append_assoc
  before-perform old ctx (Request.accept fd fn) = rw append_assoc
  before-perform old ctx (Request.wait fd fn) = rw append_assoc
  before-perform old ctx Request.halt = refl

  pub before-perform_all :
      (old ctx : Context IntFn SocketFn) (rs : List (Request IntFn SocketFn))
      → before old (perform_all rs ctx) ≡ perform_all rs (before old ctx)
  unfolding perform_all
  before-perform_all old ctx [] = refl
  before-perform_all old ctx (r ∷ rs) =
      before-perform_all old (perform r ctx) rs ∙ ap (perform_all rs) (before-perform old ctx r)

  -- the context without the operations that are ready
  unfoldable pub left_over :
      (ℕ → Bool) → (ℕ → Bool) → Context IntFn SocketFn → Context IntFn SocketFn
  left_over readable writable ctx = record ctx {
    m_recv = waiting readable ctx.m_recv;
    m_send = waiting writable ctx.m_send;
    m_accept = waiting readable ctx.m_accept;
    m_wait = waiting readable ctx.m_wait;
  }

  pub before-cleared :
      (old : Context IntFn SocketFn)
      → before old (record old { m_recv = []; m_send = []; m_accept = []; m_wait = [] }) ≡ old
  unfolding before
  before-cleared old = rw (append-nil, append-nil, append-nil, append-nil)

  perform-IsQueued :
      (ctx : Context IntFn SocketFn) (r : Request IntFn SocketFn)
      → IsQueued ctx
      → IsQueued (perform r ctx)
  unfolding perform
  perform-IsQueued ctx (Request.recv fd span fn) q = record {
    recv = ArePending-append ctx.m_recv _ q.recv refl;
    send = q.send;
    accept = q.accept;
    wait = q.wait;
  }
  perform-IsQueued ctx (Request.send fd span fn) q = record {
    recv = q.recv;
    send = ArePending-append ctx.m_send _ q.send refl;
    accept = q.accept;
    wait = q.wait;
  }
  perform-IsQueued ctx (Request.accept fd fn) q = record {
    recv = q.recv;
    send = q.send;
    accept = ArePending-append ctx.m_accept _ q.accept refl;
    wait = q.wait;
  }
  perform-IsQueued ctx (Request.wait fd fn) q = record {
    recv = q.recv;
    send = q.send;
    accept = q.accept;
    wait = ArePending-append ctx.m_wait _ q.wait refl;
  }
  perform-IsQueued ctx Request.halt q = record {
    recv = q.recv;
    send = q.send;
    accept = q.accept;
    wait = q.wait;
  }

  pub perform_all-IsQueued :
      (rs : List (Request IntFn SocketFn)) (ctx : Context IntFn SocketFn)
      → IsQueued ctx
      → IsQueued (perform_all rs ctx)
  unfolding perform_all
  perform_all-IsQueued [] ctx q = q
  perform_all-IsQueued (r ∷ rs) ctx q =
      perform_all-IsQueued rs (perform r ctx) (perform-IsQueued ctx r q)

  pub left_over-IsQueued :
      (readable writable : ℕ → Bool) (ctx : Context IntFn SocketFn)
      → IsQueued ctx
      → IsQueued (left_over readable writable ctx)
  unfolding left_over
  left_over-IsQueued readable writable ctx q = record {
    recv = waiting-ArePending readable ctx.m_recv q.recv;
    send = waiting-ArePending writable ctx.m_send q.send;
    accept = waiting-ArePending readable ctx.m_accept q.accept;
    wait = waiting-ArePending readable ctx.m_wait q.wait;
  }
