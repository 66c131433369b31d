-- ===== src/Io/Socket.antt =====
-- Socket::recv, send and accept of io/socket.cpp, and Timer::expire_count of io/timer.cpp, over the
-- results of the system's calls, which are the parameter `Posix`.
pub mod Sizes
use boutique.Common.{ℕ, ◌+◌, ◌-◌, ◌%◌, ◌^◌, Bool, Option, none, some, List, ltb, if◌then◌else◌}
use boutique.Core.Serialize.{bind_option}
use boutique.Io.Context.{Span, System}

-- The result of a system call: what it returns where that is not negative, errno EWOULDBLOCK or
-- EAGAIN, or another errno. For the read of a timer it is the number that is read.
pub data Call : Type 0 where
  returned : ℕ → Call
  would_block : Call
  failed : Call

-- A std::size_t that is given for an int parameter, which is given for a size_t parameter again.
unfoldable pub int_size : ℕ → ℕ
int_size maxlen =
    let low = maxlen % 2 ^ 32 in if ltb low (2 ^ 31) then low else low + (2 ^ 64 - 2 ^ 32)

-- Socket::recv and Socket::send; `none` is throw_errno
unfoldable pub received : Call → Option ℕ
received (returned r) = some r
received would_block = some 0
received failed = none

-- Socket::accept
unfoldable pub accepted : Call → Option (Option ℕ)
accepted (returned fd) = some (some fd)
accepted would_block = some none
accepted failed = none

-- Timer::expire_count, which returns an int: its bits, as an unsigned number
unfoldable pub expired : Call → Option ℕ
expired (returned expires) = some (expires % 2 ^ 32)
expired would_block = some 0
expired failed = none

-- The system's calls on a state `S`: `recv` and `send` with an address and a size_t.
pub record Posix (S : Type 0) : Type 0 where
  pub select : List ℕ → List ℕ → S → S × (ℕ → Bool) × (ℕ → Bool)
  pub recv : ℕ → ℕ → ℕ → S → S × Call
  pub send : ℕ → ℕ → ℕ → S → S × Call
  pub accept : ℕ → S → S × Call
  pub read : ℕ → S → S × Call

-- what the event loop uses
unfoldable pub system : {S : Type 0} → Posix S → System S
unfolding received accepted expired
system posix = record {
  select = posix.select;
  recv = λ fd span s.
      let r = posix.recv fd span.buf (int_size span.maxlen) s in
      bind_option (received r.1) λ n. some (r.0, n);
  send = λ fd span s.
      let r = posix.send fd span.buf (int_size span.maxlen) s in
      bind_option (received r.1) λ n. some (r.0, n);
  accept =
      λ fd s. let r = posix.accept fd s in bind_option (accepted r.1) λ socket. some (r.0, socket);
  expire_count = λ fd s. let r = posix.read fd s in bind_option (expired r.1) λ n. some (r.0, n);
}
