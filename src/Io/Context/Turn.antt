-- ===== src/Io/Context/Turn.antt =====
-- What one turn of the event loop does, without the flags and the copies of the queues.
use boutique.Common.{
  Bool, inl, inr, ℕ, ◌≡◌, refl, sym, ap, ◌∙◌, Option, some, List, [], ◌++◌, Option-cases,
}
use boutique.Core.Serialize.{bind_option}
use boutique.Io.Context.{
  run, Context, Request, perform_all, System, Program, descriptors, incomplete_of, on_recv, on_send,
  on_accept, on_wait, turn,
}
use boutique.Io.Context.Queues.{
  IsQueued, marked, serve, incomplete_of-marked, perform_all-append, dispatch-then, before,
  before-perform_all, before-cleared, perform_all-IsQueued, left_over, left_over-IsQueued,
}

module _ {IntFn SocketFn S : Type 0} (system : System S) (program : Program IntFn SocketFn S) where
  -- The ready operations of all queues: the receives, then the sends, the accepts and the waits.
  unfoldable pub serve_all :
      (ℕ → Bool)
      → (ℕ → Bool)
      → Context IntFn SocketFn
      → S
      → Option (S × List (Request IntFn SocketFn))
  serve_all readable writable ctx s =
      bind_option (serve (on_recv system program) readable ctx.m_recv s) λ r.
        bind_option (serve (on_send system program) writable ctx.m_send r.0) λ w.
          bind_option (serve (on_accept system program) readable ctx.m_accept w.0) λ a.
            bind_option (serve (on_wait system program) readable ctx.m_wait a.0)
              λ t. some (t.0, r.1 ++ (w.1 ++ (a.1 ++ t.1)))

  -- the requests of the four loops, one after another
  perform_loops :
      (ctx : Context IntFn SocketFn) (r w a t : List (Request IntFn SocketFn))
      → perform_all t (perform_all a (perform_all w (perform_all r ctx)))
        ≡ perform_all (r ++ (w ++ (a ++ t))) ctx
  perform_loops ctx r w a t = rw (
    perform_all-append r (w ++ (a ++ t)) ctx,
    perform_all-append w (a ++ t),
    perform_all-append a t,
  )

  left_over-perform :
      (ctx : Context IntFn SocketFn) (readable writable : ℕ → Bool)
      → IsQueued ctx
      → (r w a t : List (Request IntFn SocketFn))
      → (let cleared = record ctx { m_recv = []; m_send = []; m_accept = []; m_wait = [] } in
          let now = perform_all t (perform_all a (perform_all w (perform_all r cleared))) in
          record now {
            m_recv = incomplete_of (marked readable ctx.m_recv) ++ now.m_recv;
            m_send = incomplete_of (marked writable ctx.m_send) ++ now.m_send;
            m_accept = incomplete_of (marked readable ctx.m_accept) ++ now.m_accept;
            m_wait = incomplete_of (marked readable ctx.m_wait) ++ now.m_wait;
          })
        ≡ perform_all (r ++ (w ++ (a ++ t))) (left_over readable writable ctx)
  unfolding left_over before
  left_over-perform ctx readable writable q r w a t =
      let cleared : Context IntFn SocketFn = record ctx {
        m_recv = [];
        m_send = [];
        m_accept = [];
        m_wait = [];
      } in
      let old = left_over readable writable ctx in
      rw
        (
          incomplete_of-marked readable ctx.m_recv q.recv,
          incomplete_of-marked writable ctx.m_send q.send,
          incomplete_of-marked readable ctx.m_accept q.accept,
          incomplete_of-marked readable ctx.m_wait q.wait,
          perform_loops cleared r w a t,
        )
        (before-perform_all old cleared (r ++ (w ++ (a ++ t)))
          ∙ ap (perform_all (r ++ (w ++ (a ++ t)))) (before-cleared old))

  -- Where no queued operation is marked complete, a turn performs each operation whose descriptor is
  -- ready once, in the order of its queue and the receives first, and calls its function with the
  -- result. The other operations stay queued in order, and what the functions ask for is queued
  -- behind them. An exception ends the turn.
  pub turn_lem :
      (ctx : Context IntFn SocketFn) (s s' : S) (readable writable : ℕ → Bool)
      → IsQueued ctx
      → system.select
          (descriptors ctx.m_recv ++ (descriptors ctx.m_accept ++ descriptors ctx.m_wait))
          (descriptors ctx.m_send)
          s
        ≡ (s', readable, writable)
      → turn system program ctx s
        ≡ bind_option
            (serve_all readable writable ctx s')
            λ r. some (perform_all r.1 (left_over readable writable ctx), r.0)
  unfolding turn serve_all
  turn_lem ctx s s' readable writable q selected =
      let cleared : Context IntFn SocketFn = record ctx {
        m_recv = [];
        m_send = [];
        m_accept = [];
        m_wait = [];
      } in
      rw selected (
        dispatch-then _ readable ctx.m_recv cleared s' _ _ _ λ r.
          dispatch-then _ writable ctx.m_send _ r.0 _ _ _ λ w.
            dispatch-then _ readable ctx.m_accept _ w.0 _ _ _ λ a.
              dispatch-then _ readable ctx.m_wait _ a.0 _ _ _ λ t.
                ap (λ c. some (c, t.0)) (left_over-perform ctx readable writable q r.1 w.1 a.1 t.1))

  -- A turn leaves no queued operation marked complete, where none was.
  pub turn-IsQueued :
      (ctx ctx' : Context IntFn SocketFn) (s s' : S)
      → IsQueued ctx
      → turn system program ctx s ≡ some (ctx', s')
      → IsQueued ctx'
  turn-IsQueued ctx ctx' s s' q run =
      let selected =
        system.select
          (descriptors ctx.m_recv ++ (descriptors ctx.m_accept ++ descriptors ctx.m_wait))
          (descriptors ctx.m_send) s in
      let whole = turn_lem ctx s selected.0 selected.1 selected.2 q refl in
      elim (Option-cases (serve_all selected.1 selected.2 ctx selected.0)) [
        | inl failed ↦ let bad = sym run ∙ rw failed at whole in cc
        | inr (r, served) ↦
            let all = sym run ∙ rw served at whole in
            let same : ctx' ≡ perform_all r.1 (left_over selected.1 selected.2 ctx) = cc in
            rw same (perform_all-IsQueued r.1 _ (left_over-IsQueued selected.1 selected.2 ctx q))
      ]
