-- ===== src/Socket.antt =====
-- What a client's socket tells: `recv` with MSG_PEEK | MSG_DONTWAIT and `errno`, and
-- `httpd_req_recv`.
use esp32_wifi_gnss.Prelude.{Bytes, ℤ, pos, Bool, true, false, zero}

pub data Errno : Type 0 where
  eagain : Errno
  ewouldblock : Errno
  other_errno : Errno

-- The result of `recv`, and `errno` behind it.
pub record Peek : Type 0 where
  pub received : ℤ
  pub errno : Errno

-- `received == 0`
abbrev pub is_zero : ℤ → Bool
is_zero (pos zero) = true
is_zero _ = false

-- `errno != EAGAIN && errno != EWOULDBLOCK`
abbrev pub is_hard : Errno → Bool
is_hard other_errno = true
is_hard _ = false

-- The result of `httpd_req_recv`: a timeout, another result that is not positive, or data.
pub data Received : Type 0 where
  timed_out : Received
  closed : Received
  data_in : Bytes → Received
