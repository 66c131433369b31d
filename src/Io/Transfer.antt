-- ===== src/Io/Transfer.antt =====
-- io/helpers.hpp and io/helpers.cpp: async_send_all and async_recv_all go on with what is left of a
-- buffer until nothing is. A pointer into the buffer is its distance from the beginning.
pub mod Laws
use boutique.Common.{ℕ, ◌+◌, ◌-◌, ◌%◌, ◌^◌, List, [], ◌∷◌, ◌==◌, if◌then◌else◌}
use boutique.Io.Context.{Span}

-- RecvHandler and SendHandler: the buffer's length at the beginning, and what is left of it
pub record Handler : Type 0 where
  pub orig_len : ℕ
  pub m_buf : ℕ
  pub m_len : ℕ

-- What a call of a handler ends with: res_fn is called with orig_len as an int, given by its bits as an
-- unsigned number, or the next operation is queued with a new
-- handler.
pub data Next : Type 0 where
  finished : (res : ℕ) → Next
  queued : (span : Span) (handler : Handler) → Next

-- operator()(res), of both handlers. m_len is a std::size_t, and res is not negative.
unfoldable pub on_result : Handler → ℕ → Next
on_result h res =
    let m_len = (h.m_len + 2 ^ 64 - res) % 2 ^ 64 in
    let m_buf = h.m_buf + res in
    if m_len == 0
    then finished (h.orig_len % 2 ^ 32)
    else queued (record { buf = m_buf; maxlen = m_len })
        (record { orig_len = h.orig_len; m_buf = m_buf; m_len = m_len })

-- async_recv_all and async_send_all
unfoldable pub start : ℕ → Next
unfolding on_result
start len = on_result (record { orig_len = len; m_buf = 0; m_len = len }) 0

-- the operations' results, as the event loop gives them
unfoldable pub drive : Next → List ℕ → Next
drive (finished res) results = finished res
drive (queued span h) [] = queued span h
drive (queued span h) (res ∷ results) = drive (on_result h res) results
