-- ===== src/Io/Setup.antt =====
-- The constructors of Socket in io/socket.cpp that listen and connect, that of Timer in io/timer.cpp, and
-- set_non_blocking of io/unix_utils.cpp, over the results of the system's calls. A function that throws
-- leaves descriptors open that no object has, since a constructor that throws is not undone by the
-- destructor.
use boutique.Common.{
  ℕ, ◌+◌, ◌-◌, ◌*◌, ◌/◌, ◌%◌, ◌<◌, ◌≡◌, refl, Bool, true, false, Option, none, some, List, [], ◌∷◌,
  arith, ◌==◌, ==_iff, Bool-cases, inl, inr, if◌then◌else◌,
}
use boutique.Io.Socket.{Call, returned, would_block, failed}

pub data Made : Type 0 where
  made : (fd : ℕ) → Made
  threw : (left_open : List ℕ) → Made

-- `if (… < 0) throw_errno(…)`
unfoldable pub or_throw : List ℕ → Call → (ℕ → Made) → Made
or_throw left_open (returned r) f = f r
or_throw left_open would_block f = threw left_open
or_throw left_open failed f = threw left_open

-- Socket(const ListenParams&)
unfoldable pub listen_socket : (socket setsockopt bind listen : Call) → Made
unfolding or_throw
listen_socket socket setsockopt bind listen = or_throw [] socket λ fd.
    or_throw (fd ∷ []) setsockopt
      λ r₁. or_throw (fd ∷ []) bind λ r₂. or_throw (fd ∷ []) listen λ r₃. made fd

-- `res < 0` is not so
unfoldable pub succeeds : Call → Bool
succeeds (returned r) = true
succeeds would_block = false
succeeds failed = false

-- the loop over the addresses
unfoldable pub connects_to : List Call → Bool
unfolding succeeds
connects_to [] = false
connects_to (connect ∷ later) = if succeeds connect then true else connects_to later

-- Socket(const ConnectParams&), where getaddrinfo returns a number and ::connect is called for each
-- address up to the first that it connects to
unfoldable pub connect_socket : (socket : Call) (getaddrinfo : ℕ) (connects : List Call) → Made
unfolding or_throw connects_to
connect_socket socket getaddrinfo connects = or_throw [] socket λ fd.
    if getaddrinfo == 0
    then (if connects_to connects then made fd else threw (fd ∷ []))
    else threw (fd ∷ [])

pub record Timespec : Type 0 where
  pub tv_sec : ℕ
  pub tv_nsec : ℕ

-- to_timespec, for a duration that is not negative
unfoldable pub to_timespec : ℕ → Timespec
to_timespec ns = record { tv_sec = ns / 1000000000; tv_nsec = ns - ns / 1000000000 * 1000000000 }

-- Timer::time_until_expiry, from what timerfd_gettime gives
unfoldable pub time_until_expiry : Timespec → ℕ
time_until_expiry it_value = it_value.tv_sec * 1000000000 + it_value.tv_nsec

-- Timer::reset: what timerfd_settime is called with, the expiration and the interval
unfoldable pub reset : (init_expiration interval : ℕ) → Timespec × Timespec
unfolding to_timespec
reset init_expiration interval = (to_timespec init_expiration, to_timespec interval)

-- Timer(const Params&)
unfoldable pub new_timer : (timerfd_create timerfd_settime : Call) → Made
unfolding or_throw
new_timer timerfd_create timerfd_settime =
    or_throw [] timerfd_create λ fd. or_throw (fd ∷ []) timerfd_settime λ r. made fd

-- O_NONBLOCK
abbrev pub o_nonblock : ℕ
o_nonblock = 2048

unfoldable pub has_flag : ℕ → Bool
has_flag flags = flags / o_nonblock % 2 == 1

-- `flags |= O_NONBLOCK` and `flags &= ~O_NONBLOCK`
unfoldable pub with_flag : Bool → ℕ → ℕ
unfolding has_flag
with_flag true flags = if has_flag flags then flags else flags + o_nonblock
with_flag false flags = if has_flag flags then flags - o_nonblock else flags

-- set_non_blocking, over the calls with F_GETFL and F_SETFL: the flags that are set
unfoldable pub set_non_blocking : Bool → (getfl setfl : Call) → Option ℕ
unfolding with_flag succeeds
set_non_blocking enabled (returned flags) setfl =
    if succeeds setfl then some (with_flag enabled flags) else none
set_non_blocking enabled would_block setfl = none
set_non_blocking enabled failed setfl = none

-- The flags are changed in O_NONBLOCK only.
pub record IsFlagged (enabled : Bool) (flags flags' : ℕ) : Type 0 where
  pub flag : has_flag flags' ≡ enabled
  pub low : flags' % o_nonblock ≡ flags % o_nonblock
  pub high : flags' / (2 * o_nonblock) ≡ flags / (2 * o_nonblock)

with_flag-IsFlagged :
    (enabled : Bool) (flags : ℕ) → IsFlagged enabled flags (with_flag enabled flags)
unfolding with_flag has_flag
with_flag-IsFlagged true flags = elim (Bool-cases (has_flag flags)) [
  | inl set ↦ rw set (record { flag = set; low = refl; high = refl })
  | inr clear ↦
      let bit : flags / 2048 % 2 ≡ 0 = ground (arith, clear) in
      let bit' : (flags + 2048) / 2048 % 2 ≡ 1 = omega (arith, bit) in
      rw clear (record {
        flag = (==_iff ((flags + 2048) / 2048 % 2) 1).1 bit';
        low = omega arith;
        high = omega (arith, bit);
      })
]
with_flag-IsFlagged false flags = elim (Bool-cases (has_flag flags)) [
  | inl set ↦
      let bit : flags / 2048 % 2 ≡ 1 = (==_iff (flags / 2048 % 2) 1).0 set in
      let bit' : (flags - 2048) / 2048 % 2 ≡ 0 = omega (arith, bit) in
      rw set (record {
        flag = ground (arith, bit');
        low = omega (arith, bit);
        high = omega (arith, bit);
      })
  | inr clear ↦ rw clear (record { flag = clear; low = refl; high = refl })
]

-- When set_non_blocking does not throw, the flags that it sets have O_NONBLOCK exactly when it is
-- enabled, and every other bit as it was.
pub set_non_blocking-IsFlagged :
    (enabled : Bool) (flags flags' : ℕ) (setfl : Call)
    → set_non_blocking enabled (returned flags) setfl ≡ some flags'
    → IsFlagged enabled flags flags'
unfolding set_non_blocking
set_non_blocking-IsFlagged enabled flags flags' setfl run = elim (Bool-cases (succeeds setfl)) [
  | inl went ↦
      let same : with_flag enabled flags ≡ flags' = let e = rw went at run in cc in
      rw (← same) (with_flag-IsFlagged enabled flags)
  | inr threw' ↦ let bad = rw threw' at run in cc
]

-- A duration that is split into seconds and nanoseconds is put together again, and has less than a
-- second of nanoseconds, as timerfd_settime demands.
pub time_until_expiry-to_timespec :
    (ns : ℕ) → (time_until_expiry (to_timespec ns) ≡ ns) × ((to_timespec ns).tv_nsec < 1000000000)
unfolding time_until_expiry to_timespec
time_until_expiry-to_timespec ns = (omega arith, omega arith)
