-- ===== src/Kernel.antt =====
-- The system calls that util_lib/tcp and util_lib/multicast make: parameters of their models.
-- `W` is the state of the operating system; every call returns what the C function returns, and `errno`
-- is read after it.
pub mod Sample
use core_connect_binary.Base.{ℕ, Bool, true, false, ◌==◌, Option, Bytes, if◌then◌else◌}
use core_connect_binary.Base.Int.{ℤ, pos, negsuc}

-- The values of `errno` that the sources distinguish.
pub data Errno : Type 0 where
  eintr : Errno
  eagain : Errno
  einprogress : Errno
  eisconn : Errno
  other_errno : Errno

abbrev pub is_eintr : Errno → Bool
is_eintr eintr = true
is_eintr eagain = false
is_eintr einprogress = false
is_eintr eisconn = false
is_eintr other_errno = false

abbrev pub is_eagain : Errno → Bool
is_eagain eintr = false
is_eagain eagain = true
is_eagain einprogress = false
is_eagain eisconn = false
is_eagain other_errno = false

abbrev pub is_einprogress : Errno → Bool
is_einprogress eintr = false
is_einprogress eagain = false
is_einprogress einprogress = true
is_einprogress eisconn = false
is_einprogress other_errno = false

abbrev pub is_eisconn : Errno → Bool
is_eisconn eintr = false
is_eisconn eagain = false
is_eisconn einprogress = false
is_eisconn eisconn = true
is_eisconn other_errno = false

-- The options given to `setsockopt`.
pub data SocketOption : Type 0 where
  so_reuseaddr : SocketOption
  so_linger : SocketOption
  so_keepalive : SocketOption
  tcp_nodelay : SocketOption
  tcp_cork : SocketOption
  so_sndbuf : SocketOption
  so_rcvbuf : SocketOption
  so_timestamp : SocketOption
  so_rcvtimeo : SocketOption
  ip_add_membership : SocketOption
  ip_multicast_if : SocketOption
  ip_multicast_loop : SocketOption

-- An option's value: an `int`, or two for `linger`, `timeval` and `ip_mreq`.
pub data OptionValue : Type 0 where
  one_int : ℤ → OptionValue
  two_ints : ℤ → ℤ → OptionValue

-- `struct sockaddr_in`: family, port and address, the last two as they are stored.
pub record SockAddr : Type 0 where
  pub sin_family : ℕ
  pub sin_port : ℕ
  pub sin_addr : ℕ

-- What `select` answered: its result, and the bits of the descriptor in the two sets.
pub record Selected : Type 0 where
  pub count : ℤ
  pub readable : Bool
  pub writable : Bool

-- The answer of a `..._r` lookup: it failed, it returned 0 with no entry (a null result, the entry
-- left as it was), or it returned 0 and filled the entry.
pub data Answer (A : Type 0) : Type 0 where
  lookup_failed : Answer A
  no_entry : Answer A
  entry : A → Answer A

pub record Kernel (W : Type 0) : Type 0 where
  pub errno : W → Errno
  pub o_ndelay : ℕ
  pub close_fd : ℤ → W → ℤ × W
  pub read_fd : ℤ → ℕ → W → (ℤ × Bytes) × W
  pub write_fd : ℤ → Bytes → W → ℤ × W
  pub get_flags : ℤ → W → ℤ × W
  pub put_flags : ℤ → ℕ → W → ℤ × W
  pub setsockopt : ℤ → SocketOption → OptionValue → W → ℤ × W
  pub so_error : ℤ → W → (ℤ × ℤ) × W
  pub socket : W → ℤ × W
  pub socket_dgram : W → ℤ × W
  pub connect_fd : ℤ → SockAddr → W → ℤ × W
  pub select_fd : ℤ → Option ℕ → W → Selected × W
  pub bind_fd : ℤ → SockAddr → W → ℤ × W
  pub listen_fd : ℤ → ℕ → W → ℤ × W
  pub accept_fd : ℤ → W → ℤ × W
  pub getsockname : ℤ → W → Option SockAddr × W
  pub getpeername : ℤ → W → Option SockAddr × W
  pub recvfrom : ℤ → ℕ → W → (ℤ × Bytes) × W
  pub sendto : ℤ → Bytes → SockAddr → W → ℤ × W
  pub inet_aton : Bytes → Option ℕ
  pub inet_ntop : ℕ → Bytes
  pub htons : ℤ → ℕ
  pub ntohs : ℕ → ℕ
  pub gethostbyaddr : ℕ → W → Answer Bytes × W
  pub gethostbyname : Bytes → W → Answer ℕ × W
  pub getservbyport : ℤ → W → Answer Bytes × W
  pub getservbyname : Bytes → W → Answer (ℤ × Bytes) × W

-- `== -1` and `== 0` of a result.
abbrev pub is_minus_one : ℤ → Bool
is_minus_one (pos n) = false
is_minus_one (negsuc n) = n == 0

abbrev pub is_zero : ℤ → Bool
is_zero (pos n) = n == 0
is_zero (negsuc n) = false

abbrev pub is_negative : ℤ → Bool
is_negative (pos n) = false
is_negative (negsuc n) = true

-- `if (call != 0) ret = error; else rest`: the link of the chains of calls.
unfoldable pub check : {W : Type 0} → (W → ℤ × W) → ℕ → (W → ℕ × W) → W → ℕ × W
check call error rest w = let (r, w1) = call w in if is_zero r then rest w1 else (error, w1)
