-- ===== src/Core/StreamBuf.antt =====
-- core/streambuf.hpp and core/streambuf.cpp: bytes are appended at the end and consumed at the
-- front. `none` is a failed assertion.
pub mod Laws
use boutique.Common.{
  ℕ, ◌+◌, ◌-◌, Bool, Option, none, some, [], ◌++◌, Bytes, length, take, drop, ltb, ◌==◌,
  if◌then◌else◌,
}

pub record StreamBuf : Type 0 where
  pub m_size : ℕ
  pub m_used : ℕ
  pub m_buf : Bytes

unfoldable pub new : StreamBuf
new = record { m_size = 0; m_used = 0; m_buf = [] }

unfoldable pub append : StreamBuf → Bytes → StreamBuf
append s more = record s { m_size = s.m_size + length more; m_buf = s.m_buf ++ more }

unfoldable pub consume : StreamBuf → ℕ → Option StreamBuf
consume s len =
    if ltb s.m_size (s.m_used + len)
    then none
    else some (
        if s.m_used + len == s.m_size
        then record { m_size = 0; m_used = 0; m_buf = [] }
        else record s { m_used = s.m_used + len })

unfoldable pub size : StreamBuf → ℕ
size s = s.m_size - s.m_used

unfoldable pub empty : StreamBuf → Bool
empty s = s.m_size == 0

-- as_const_buffer(stream): `size()` bytes from `data()`
unfoldable pub contents : StreamBuf → Bytes
unfolding size
contents s = take (size s) (drop s.m_used s.m_buf)
