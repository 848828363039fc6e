-- ===== src/Kernel/Sample.antt =====
-- A small system for the tests: it keeps what is written, and every other call succeeds.
use core_connect_binary.Base.{ℕ, zero, suc, true, false, none, [], ◌∷◌, ◌++◌, length, Bytes}
use core_connect_binary.Base.Int.{ℤ, pos, negsuc, pos_part}
use core_connect_binary.Kernel.{Kernel, Errno, eintr, einprogress, other_errno, lookup_failed}

-- What has been written, the interruptions to come, and `errno`.
pub data World : Type 0 where
  world : Bytes → ℕ → Errno → World

-- Calls are interrupted first; then a call takes at most two bytes.
abbrev pub write_some : Bytes → World → ℤ × World
write_some src (world out (suc n) e) = (negsuc 0, world out n eintr)
write_some [] (world out zero e) = (pos 0, world out zero other_errno)
write_some (b ∷ []) (world out zero e) = (pos 1, world (out ++ b ∷ []) zero other_errno)
write_some (b ∷ c ∷ src) (world out zero e) = (pos 2, world (out ++ b ∷ c ∷ []) zero other_errno)

abbrev pub errno_of : World → Errno
errno_of (world out n e) = e

abbrev pub written : World → Bytes
written (world out n e) = out

abbrev pub pending : World → ℕ
pending (world out n e) = n

abbrev pub in_progress : World → ℤ × World
in_progress (world out n e) = (negsuc 0, world out n einprogress)

abbrev pub test_kernel : Kernel World
test_kernel = record {
  errno = errno_of;
  o_ndelay = 2048;
  close_fd = λ fd w. (pos 0, w);
  read_fd = λ fd n w. ((pos 0, []), w);
  write_fd = λ fd src w. write_some src w;
  get_flags = λ fd w. (pos 2, w);
  put_flags = λ fd flags w. (pos 0, w);
  setsockopt = λ fd option value w. (pos 0, w);
  so_error = λ fd w. ((pos 0, pos 0), w);
  socket = λ w. (pos 5, w);
  socket_dgram = λ w. (pos 6, w);
  connect_fd = λ fd address w. in_progress w;
  select_fd = λ fd timeout w. (record { count = pos 1; readable = false; writable = true }, w);
  bind_fd = λ fd address w. (pos 0, w);
  listen_fd = λ fd backlog w. (pos 0, w);
  accept_fd = λ fd w. (pos 7, w);
  getsockname = λ fd w. (none, w);
  getpeername = λ fd w. (none, w);
  recvfrom = λ fd n w. ((pos 0, []), w);
  sendto = λ fd src address w. (pos (length src), w);
  inet_aton = λ text. none;
  inet_ntop = λ address. [];
  htons = λ n. pos_part n;
  ntohs = λ n. n;
  gethostbyaddr = λ address w. (lookup_failed, w);
  gethostbyname = λ name w. (lookup_failed, w);
  getservbyport = λ port w. (lookup_failed, w);
  getservbyname = λ name w. (lookup_failed, w);
}

abbrev pub quiet : World
quiet = world [] 0 other_errno
