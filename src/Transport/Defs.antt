-- ===== src/Transport/Defs.antt =====
-- net.c, ssl.c, and wrk.c: the variable `sock`. The system and OpenSSL are parameters: what a call
-- returns is an argument.
use wrkx.Prelude.{
  ℕ, ◌-◌, Bool, true, false, Option, none, some, List, take, ◌==◌, if◌then◌else◌, ℤ, pos, negsuc,
  u64_mod, sub64, codes, equal_bytes,
}
use wrkx.Connection.State.{Status, ok, error, retry, read_eof}

-- `SSL_get_error`
pub data SslError : Type 0 where
  want_read want_write zero_return syscall failure : SslError

-- What a call answers: the number it returns, whether errno is then EAGAIN, and, for OpenSSL's,
-- what `SSL_get_error` says of it.
pub record Answer : Type 0 where
  pub result : ℤ
  pub again : Bool
  pub ssl_error : SslError

-- `(size_t) r`
abbrev pub size_of : ℤ → ℕ
size_of (pos n) = n
size_of (negsuc n) = sub64 (u64_mod - 1) n

-- a connection of its own has nothing more to do
unfoldable pub sock_connect : Answer → Status
sock_connect a = ok

unfoldable pub sock_close : Status
sock_close = ok

-- The status, and the new value of `*n` if it is set.
unfoldable pub sock_read : Answer → Status × Option ℕ
sock_read a = elim a.result [
  | pos n ↦ (if n == 0 then read_eof else ok, some n)
  | negsuc n ↦ (error, some (size_of (negsuc n)))
]

abbrev pub is_failure : ℤ → Bool
is_failure (pos n) = false
is_failure (negsuc n) = n == 0

unfoldable pub sock_write : Answer → Status × Option ℕ
sock_write a =
    if is_failure a.result
    then (if a.again then retry else error, none)
    else (ok, some (size_of a.result))

-- `rc` and the number of `ioctl`
unfoldable pub sock_readable : ℤ → ℤ → ℕ
sock_readable rc n = if is_failure rc then 0 else size_of n

unfoldable pub ssl_status : SslError → Status
ssl_status want_read = retry
ssl_status want_write = retry
ssl_status _ = error

abbrev pub is_positive : ℤ → Bool
is_positive (pos n) = if n == 0 then false else true
is_positive (negsuc n) = false

abbrev pub is_one : ℤ → Bool
is_one (pos n) = n == 1
is_one (negsuc n) = false

unfoldable pub ssl_connect : Answer → Status
unfolding ssl_status
ssl_connect a = if is_one a.result then ok else ssl_status a.ssl_error

unfoldable pub ssl_read : Answer → Status × Option ℕ
unfolding ssl_status
ssl_read a =
    if is_positive a.result then (ok, some (size_of a.result)) else (ssl_status a.ssl_error, none)

unfoldable pub ssl_write : Answer → Status × Option ℕ
unfolding ssl_status
ssl_write a =
    if is_positive a.result then (ok, some (size_of a.result)) else (ssl_status a.ssl_error, none)

-- `SSL_pending` for both numbers
unfoldable pub ssl_readable : ℤ → ℤ → ℕ
ssl_readable pending n = size_of pending

-- `struct sock`; what `close` returns is not looked at.
pub record Sock : Type 0 where
  pub connect : Answer → Status
  pub read : Answer → Status × Option ℕ
  pub write : Answer → Status × Option ℕ
  pub readable : ℤ → ℤ → ℕ

unfoldable pub plain_sock : Sock
unfolding sock_connect sock_read sock_write sock_readable
plain_sock = record {
  connect = sock_connect;
  read = sock_read;
  write = sock_write;
  readable = sock_readable;
}

unfoldable pub ssl_sock : Sock
unfolding ssl_connect ssl_read ssl_write ssl_readable
ssl_sock = record {
  connect = ssl_connect;
  read = ssl_read;
  write = ssl_write;
  readable = ssl_readable;
}

-- `if (!strncmp("https", schema, 5)) { ... }` of `main`
unfoldable pub choose_sock : List ℕ → Sock
unfolding plain_sock ssl_sock
choose_sock schema = if equal_bytes (codes "https") (take 5 schema) then ssl_sock else plain_sock
