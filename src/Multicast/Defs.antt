-- ===== src/Multicast/Defs.antt =====
-- util_lib/multicast/src/multicast.cpp: the class `multicast`.
-- A method is a function of the object and of the system's state. The two system calls of the kernel
-- that read take the length of the buffer and return what they put into it.
use core_connect_binary.Base.{
  ℕ, ◌-◌, ◌/◌, ◌%◌, Bool, true, false, not, [], ◌==◌, if◌then◌else◌, length, Bytes,
}
use core_connect_binary.Base.Int.{ℤ, pos, negsuc}
use Prim.Native.Nat.{bit_and, bit_or}
use core_connect_binary.Kernel.{
  Kernel, SockAddr, is_minus_one, is_negative, is_eintr, is_eagain, check, so_reuseaddr, so_sndbuf,
  so_rcvbuf, so_timestamp, so_rcvtimeo, ip_add_membership, ip_multicast_if, ip_multicast_loop,
  one_int, two_ints,
}
use core_connect_binary.Multicast.Errors.{
  e_mc_no_error, e_mc_open_already, e_mc_socket, e_mc_closed_already, e_mc_close,
  e_mc_illegal_operation, e_mc_would_block, e_mc_read, e_mc_write, e_mc_short_write,
  e_mc_set_timestamp, e_mc_set_sock_reuse, e_mc_add_membership, e_mc_set_buffer, e_mc_bind,
  e_mc_set_write_interface, e_mc_set_loopback_enabled, e_clear_flags, e_get_flags, e_set_flags,
}

-- `enum open_type` and `enum mode`
pub data OpenType : Type 0 where
  mc_read mc_write : OpenType

pub data Mode : Type 0 where
  synchronous asynchronous : Mode

abbrev pub is_mc_read : OpenType → Bool
is_mc_read mc_read = true
is_mc_read mc_write = false

pub record Multicast : Type 0 where
  pub fd : ℤ
  pub mode : Mode
  pub open_type : OpenType
  pub dst_addr : SockAddr
  pub mcast_ipaddress : Bytes
  pub port : Bytes
  pub rxtx_interface : Bytes

-- The constructor.
unfoldable pub multicast : Multicast
multicast = record {
  fd = negsuc 0;
  mode = synchronous;
  open_type = mc_read;
  dst_addr = record { sin_family = 0; sin_port = 0; sin_addr = 0 };
  mcast_ipaddress = [];
  port = [];
  rxtx_interface = [];
}

-- `inet_addr` and `atoi` of texts, from the C library.
pub record Texts : Type 0 where
  pub inet_addr : Bytes → ℕ
  pub atoi : Bytes → ℤ

module _ {W : Type 0} (k : Kernel W) (texts : Texts) where
  unfoldable pub close : Multicast → W → ℕ × Multicast × W
  close m w =
      if is_minus_one m.fd
      then (e_mc_closed_already, m, w)
      else let (r, w1) = k.close_fd m.fd w in
        if is_minus_one r
        then (e_mc_close, m, w1)
        else (e_mc_no_error, record m { fd = negsuc 0 }, w1)

  -- The calls of `p_open_for_read`, on an object whose `open_type` is `mc_read`.
  unfoldable pub p_open_for_read : ℤ → Multicast → W → ℕ × W
  p_open_for_read sz_buf m =
      let multiaddr = texts.inet_addr m.mcast_ipaddress in
      let interface = texts.inet_addr m.rxtx_interface in
      let src_addr : SockAddr = record {
        sin_family = 2;
        sin_port = k.htons (texts.atoi m.port);
        sin_addr = multiaddr;
      } in
      check (k.setsockopt m.fd so_timestamp (one_int (pos 1))) e_mc_set_timestamp (
        check (k.setsockopt m.fd so_reuseaddr (one_int (pos 1))) e_mc_set_sock_reuse (λ w.
          let (r, w1) =
            k.setsockopt m.fd ip_add_membership (two_ints (pos multiaddr) (pos interface)) w in
          if is_minus_one r
          then (e_mc_add_membership, w1)
          else check (k.setsockopt m.fd so_rcvbuf (one_int sz_buf)) e_mc_set_buffer
              (λ w2.
                let (r1, w3) = k.bind_fd m.fd src_addr w2 in
                if is_minus_one r1 then (e_mc_bind, w3) else (e_mc_no_error, w3))
              w1))

  -- The calls of `p_open_for_write`; the destination is set by `with_destination`.
  unfoldable pub p_open_for_write : ℤ → Multicast → W → ℕ × W
  p_open_for_write sz_buf m w =
      let (r, w1) =
        k.setsockopt m.fd ip_multicast_if (one_int (pos (texts.inet_addr m.rxtx_interface))) w in
      if is_minus_one r
      then (e_mc_set_write_interface, w1)
      else let (r1, w2) = k.setsockopt m.fd ip_multicast_loop (one_int (pos 1)) w1 in
        if is_minus_one r1
        then (e_mc_set_loopback_enabled, w2)
        else check (k.setsockopt m.fd so_sndbuf (one_int sz_buf)) e_mc_set_buffer
            (λ w3. (e_mc_no_error, w3)) w2

  unfoldable pub with_destination : Multicast → Multicast
  with_destination m = record m {
    dst_addr = record {
      sin_family = 2;
      sin_port = k.htons (texts.atoi m.port);
      sin_addr = texts.inet_addr m.mcast_ipaddress;
    };
  }

  -- `p_open_for_read` or `p_open_for_write` with what it changes of the object.
  unfoldable pub p_open : OpenType → ℤ → Multicast → W → ℕ × Multicast × W
  p_open mc_read sz_buf m w =
      let m1 = record m { open_type = mc_read } in
      let (r, w1) = p_open_for_read sz_buf m1 w in (r, m1, w1)
  p_open mc_write sz_buf m w =
      let m1 = record m { open_type = mc_write } in
      let (r, w1) = p_open_for_write sz_buf m1 w in
      (r, if r == e_mc_no_error then with_destination m1 else m1, w1)

  unfoldable pub open_socket :
      OpenType → Bytes → Bytes → Bytes → ℤ → Multicast → W → ℕ × Multicast × W
  open_socket type mcast_ipaddress port rxtx_interface sz_buf m w =
      if not (is_minus_one m.fd)
      then (e_mc_open_already, m, w)
      else let (fd, w1) = k.socket_dgram w in
        if is_minus_one fd
        then (e_mc_socket, record m { fd = fd }, w1)
        else let m1 = record m {
          fd = fd;
          mcast_ipaddress = mcast_ipaddress;
          port = port;
          rxtx_interface = rxtx_interface;
        } in
          let (r, m2, w2) = p_open type sz_buf m1 w1 in
          if r == e_mc_no_error then (r, m2, w2) else let (r1, m3, w3) = close m2 w2 in (r, m3, w3)

  -- `read(buf, buf_len, rx_len)`: result, `rx_len` and what `buf` holds then.
  unfoldable pub read : ℕ → Multicast → W → ℕ × ℕ × Bytes × W
  read buf_len m w =
      if is_minus_one m.fd
      then (e_mc_closed_already, 0, [], w)
      else if not (is_mc_read m.open_type)
      then (e_mc_illegal_operation, 0, [], w)
      else let (answer, w1) = k.recvfrom m.fd buf_len w in
        elim answer.0 [
          | pos n ↦ (e_mc_no_error, n, answer.1, w1)
          | negsuc n ↦
              if is_eintr (k.errno w1)
              then (e_mc_no_error, 0, [], w1)
              else if is_eagain (k.errno w1)
              then (e_mc_would_block, 0, [], w1)
              else (e_mc_read, 0, [], w1)
        ]

  unfoldable pub set_read_timeout : ℕ → Multicast → W → ℕ × W
  set_read_timeout usecs m w =
      if is_minus_one m.fd
      then (e_mc_closed_already, w)
      else if not (is_mc_read m.open_type)
      then (e_mc_illegal_operation, w)
      else check
          (k.setsockopt m.fd so_rcvtimeo (two_ints (pos (usecs / 1000000)) (pos (usecs % 1000000))))
          e_mc_illegal_operation (λ w1. (e_mc_no_error, w1)) w

  unfoldable pub write : Bytes → Multicast → W → ℕ × W
  write buf m w =
      if is_minus_one m.fd
      then (e_mc_closed_already, w)
      else if is_mc_read m.open_type
      then (e_mc_illegal_operation, w)
      else let (n, w1) = k.sendto m.fd buf m.dst_addr w in
        if is_minus_one n
        then (if is_eagain (k.errno w1) then e_mc_would_block else e_mc_write, w1)
        else elim n [
          | negsuc i ↦ (e_mc_short_write, w1)
          | pos i ↦ if i == length buf then (e_mc_no_error, w1) else (e_mc_short_write, w1)
        ]

  unfoldable pub p_set_flags : ℤ → ℕ → W → ℕ × W
  p_set_flags fd flags w =
      let (val, w1) = k.get_flags fd w in
      elim val [
        | negsuc n ↦ (e_get_flags, w1)
        | pos v ↦
            let (r, w2) = k.put_flags fd (bit_or v flags) w1 in
            if is_negative r then (e_set_flags, w2) else (e_mc_no_error, w2)
      ]

  unfoldable pub p_clear_flags : ℤ → ℕ → W → ℕ × W
  p_clear_flags fd flags w =
      let (val, w1) = k.get_flags fd w in
      elim val [
        | negsuc n ↦ (e_get_flags, w1)
        | pos v ↦
            let (r, w2) = k.put_flags fd (v - bit_and v flags) w1 in
            if is_negative r then (e_clear_flags, w2) else (e_mc_no_error, w2)
      ]

  -- The call that `mode` makes for the mode it is given.
  abbrev pub flags_call : Mode → Multicast → W → ℕ × W
  flags_call asynchronous m w = p_set_flags m.fd k.o_ndelay w
  flags_call synchronous m w = p_clear_flags m.fd k.o_ndelay w

  -- The method `mode`.
  unfoldable pub set_mode : Mode → Multicast → W → ℕ × Multicast × W
  set_mode mode_type m w =
      if is_minus_one m.fd
      then (e_mc_closed_already, m, w)
      else let (r, w1) = flags_call mode_type m w in
        (r, if r == e_mc_no_error then record m { mode = mode_type } else m, w1)
