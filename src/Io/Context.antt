-- ===== src/Io/Context.antt =====
-- IOContext, io/context.hpp and io/context.cpp: operations are queued, and each turn of `run` performs
-- those that `select` reports as ready and calls their functions. What the system does is the
-- parameter `System`, and what a queued function does is the parameter `Program`.
pub mod Queues
pub mod Turn
pub mod Runs
use boutique.Common.{
  ℕ, zero, suc, Bool, true, false, Option, none, some, List, [], ◌∷◌, ◌++◌, map, if◌then◌else◌,
}
use boutique.Core.Serialize.{bind_option}

-- `buf` and `maxlen` of an operation
pub record Span : Type 0 where
  pub buf : ℕ
  pub maxlen : ℕ

-- RecvOp and SendOp with a Span, AcceptOp and WaitOp with nothing. The socket or timer is its file
-- descriptor, and `fn` is the IntFn or SocketFn.
pub record Op (Arg Fn : Type 0) : Type 0 where
  pub fd : ℕ
  pub arg : Arg
  pub fn : Fn
  pub complete : Bool

-- the queues
pub record Context (IntFn SocketFn : Type 0) : Type 0 where
  pub m_stop : Bool
  pub m_recv : List (Op Span IntFn)
  pub m_send : List (Op Span IntFn)
  pub m_accept : List (Op (Unit {0}) SocketFn)
  pub m_wait : List (Op (Unit {0}) IntFn)

module _ {IntFn SocketFn : Type 0} where
  unfoldable pub async_recv : ℕ → Span → IntFn → Context IntFn SocketFn → Context IntFn SocketFn
  async_recv fd span fn ctx = record ctx {
    m_recv = ctx.m_recv ++ record { fd = fd; arg = span; fn = fn; complete = false } ∷ [];
  }

  unfoldable pub async_send : ℕ → Span → IntFn → Context IntFn SocketFn → Context IntFn SocketFn
  async_send fd span fn ctx = record ctx {
    m_send = ctx.m_send ++ record { fd = fd; arg = span; fn = fn; complete = false } ∷ [];
  }

  unfoldable pub async_accept : ℕ → SocketFn → Context IntFn SocketFn → Context IntFn SocketFn
  async_accept fd fn ctx = record ctx {
    m_accept = ctx.m_accept ++ record { fd = fd; arg = tt; fn = fn; complete = false } ∷ [];
  }

  unfoldable pub async_wait : ℕ → IntFn → Context IntFn SocketFn → Context IntFn SocketFn
  async_wait fd fn ctx = record ctx {
    m_wait = ctx.m_wait ++ record { fd = fd; arg = tt; fn = fn; complete = false } ∷ [];
  }

  unfoldable pub stop : Context IntFn SocketFn → Context IntFn SocketFn
  stop ctx = record ctx { m_stop = true }

-- What a queued function does to the context: calls of its public operations.
pub data Request (IntFn SocketFn : Type 0) : Type 0 where
  recv : ℕ → Span → IntFn → Request IntFn SocketFn
  send : ℕ → Span → IntFn → Request IntFn SocketFn
  accept : ℕ → SocketFn → Request IntFn SocketFn
  wait : ℕ → IntFn → Request IntFn SocketFn
  halt : Request IntFn SocketFn

module _ {IntFn SocketFn : Type 0} where
  unfoldable pub perform : Request IntFn SocketFn → Context IntFn SocketFn → Context IntFn SocketFn
  unfolding async_recv async_send async_accept async_wait stop
  perform (recv fd span fn) = async_recv fd span fn
  perform (send fd span fn) = async_send fd span fn
  perform (accept fd fn) = async_accept fd fn
  perform (wait fd fn) = async_wait fd fn
  perform halt = stop

  unfoldable pub perform_all :
      List (Request IntFn SocketFn) → Context IntFn SocketFn → Context IntFn SocketFn
  perform_all [] ctx = ctx
  perform_all (r ∷ rs) ctx = perform_all rs (perform r ctx)

-- The system's calls on a state `S`; `none` is an exception. `select` gives the descriptors that it
-- leaves set in read_fds and in write_fds.
pub record System (S : Type 0) : Type 0 where
  pub select : List ℕ → List ℕ → S → S × (ℕ → Bool) × (ℕ → Bool)
  pub recv : ℕ → Span → S → Option (S × ℕ)
  pub send : ℕ → Span → S → Option (S × ℕ)
  pub accept : ℕ → S → Option (S × Option ℕ)
  pub expire_count : ℕ → S → Option (S × ℕ)

-- What the program's functions do on `S`, and what they ask of the context.
pub record Program (IntFn SocketFn S : Type 0) : Type 0 where
  pub call_int : IntFn → ℕ → S → Option (S × List (Request IntFn SocketFn))
  pub call_socket : SocketFn → ℕ → S → Option (S × List (Request IntFn SocketFn))

abbrev pub descriptors : {Arg Fn : Type 0} → List (Op Arg Fn) → List ℕ
descriptors ops = map (λ op. op.fd) ops

-- the loops over one queue, where `act` performs an operation and calls its function
module _ {IntFn SocketFn S Arg Fn : Type 0} where
  unfoldable pub dispatch :
      (Op Arg Fn → S → Option (S × List (Request IntFn SocketFn)))
      → (ℕ → Bool)
      → List (Op Arg Fn)
      → Context IntFn SocketFn
      → S
      → Option (List (Op Arg Fn) × Context IntFn SocketFn × S)
  dispatch act is_set [] ctx s = some ([], ctx, s)
  dispatch act is_set (op ∷ ops) ctx s =
      if is_set op.fd
      then (bind_option (act op s) λ r.
          bind_option (dispatch act is_set ops (perform_all r.1 ctx) r.0)
            λ rest. some (record op { complete = true } ∷ rest.0, rest.1, rest.2))
      else bind_option (dispatch act is_set ops ctx s) λ rest. some (op ∷ rest.0, rest.1, rest.2)

-- remove_if with is_complete, and erase
unfoldable pub incomplete_of : {Arg Fn : Type 0} → List (Op Arg Fn) → List (Op Arg Fn)
incomplete_of [] = []
incomplete_of (op ∷ ops) = if op.complete then incomplete_of ops else op ∷ incomplete_of ops

module _ {IntFn SocketFn S : Type 0} (system : System S) (program : Program IntFn SocketFn S) where
  abbrev pub Result : Type 0
  Result = Option (S × List (Request IntFn SocketFn))

  unfoldable pub on_recv : Op Span IntFn → S → Result
  on_recv op s = bind_option (system.recv op.fd op.arg s) λ r. program.call_int op.fn r.1 r.0

  unfoldable pub on_send : Op Span IntFn → S → Result
  on_send op s = bind_option (system.send op.fd op.arg s) λ r. program.call_int op.fn r.1 r.0

  -- with `assert(opt_socket.has_value())`
  unfoldable pub on_accept : Op (Unit {0}) SocketFn → S → Result
  on_accept op s =
      bind_option (system.accept op.fd s)
        λ r. bind_option r.1 λ socket. program.call_socket op.fn socket r.0

  unfoldable pub on_wait : Op (Unit {0}) IntFn → S → Result
  on_wait op s = bind_option (system.expire_count op.fd s) λ r. program.call_int op.fn r.1 r.0

  -- one round of the `while`
  unfoldable pub turn : Context IntFn SocketFn → S → Option (Context IntFn SocketFn × S)
  turn ctx s =
      let cleared = record ctx { m_recv = []; m_send = []; m_accept = []; m_wait = [] } in
      let read_fds =
        descriptors ctx.m_recv ++ (descriptors ctx.m_accept ++ descriptors ctx.m_wait) in
      let selected = system.select read_fds (descriptors ctx.m_send) s in
      let readable = selected.1 in
      let writable = selected.2 in
      bind_option (dispatch on_recv readable ctx.m_recv cleared selected.0) λ r.
        bind_option (dispatch on_send writable ctx.m_send r.1 r.2) λ w.
          bind_option (dispatch on_accept readable ctx.m_accept w.1 w.2) λ a.
            bind_option (dispatch on_wait readable ctx.m_wait a.1 a.2) λ t.
              let now = t.1 in
              some (
                record now {
                  m_recv = incomplete_of r.0 ++ now.m_recv;
                  m_send = incomplete_of w.0 ++ now.m_send;
                  m_accept = incomplete_of a.0 ++ now.m_accept;
                  m_wait = incomplete_of t.0 ++ now.m_wait;
                },
                t.2,
              )

  -- The `while (!m_stop)`, for at most `fuel` rounds. The outer `none` is that they were not enough.
  unfoldable pub run_loop :
      ℕ → Context IntFn SocketFn → S → Option (Option (Context IntFn SocketFn × S))
  run_loop zero ctx s = if ctx.m_stop then some (some (ctx, s)) else none
  run_loop (suc fuel) ctx s =
      if ctx.m_stop
      then some (some (ctx, s))
      else elim (turn ctx s) [ none ↦ some none | some r ↦ run_loop fuel r.0 r.1 ]

  -- run()
  unfoldable pub run : ℕ → Context IntFn SocketFn → S → Option (Option (Context IntFn SocketFn × S))
  run fuel ctx s = run_loop fuel (record ctx { m_stop = false }) s
