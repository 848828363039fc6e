-- ===== src/Tcp/Connection.antt =====
-- util_lib/tcp/src/tcp_connection.cpp: the class `tcp_connection`.
-- A method is a function of the object and of the system's state. `bytes_rxed` and `bytes_txed` are
-- numbers: the source does not look after their overflow.
use core_connect_binary.Base.{
  ℕ, zero, suc, ◌+◌, ◌-◌, ◌*◌, Bool, true, false, ◌||◌, ◌&&◌, not, Option, none, some, [], ◌∷◌, ltb,
  leb, ◌==◌, if◌then◌else◌, length, drop, Bytes,
}
use core_connect_binary.Base.Int.{ℤ, pos, negsuc, pos_part, ltb_ℤ}
use Prim.Native.Nat.{bit_and, bit_or}
use core_connect_binary.Kernel.{
  Kernel, Errno, lookup_failed, no_entry, entry, is_minus_one, is_zero, is_negative, is_eintr,
  is_eagain, check, so_reuseaddr, so_linger, so_keepalive, tcp_nodelay, tcp_cork, so_sndbuf,
  so_rcvbuf, one_int, two_ints,
}
use core_connect_binary.Tcp.Errors.{
  e_tcp_no_error, e_tcp_already_closed, e_tcp_close_fail, e_tcp_null_ptr, e_tcp_max_read_len,
  e_tcp_read_fail, e_tcp_read_error, e_tcp_max_write_len, e_tcp_would_block, e_tcp_write_fail,
  e_tcp_get_flags, e_tcp_clear_flags, e_tcp_set_flags, e_tcp_set_sock_reuse, e_tcp_set_sock_linger,
  e_tcp_set_sock_kalive, e_tcp_set_disable_nagle, e_tcp_set_sock_tx_buf, e_tcp_set_sock_rx_buf,
  e_tcp_invalid_host_name, e_tcp_host_not_defined, e_tcp_invalid_service_name,
  e_tcp_invalid_service_port, e_tcp_service_not_defined, e_tcp_set_disable_cork,
}

-- `enum connect_mode`
pub data ConnectMode : Type 0 where
  synchronous asynchronous : ConnectMode

-- The members, but for the pointer to the logger, which nothing here uses.
-- The counts of bytes are of type int, of 32 bits: a theorem that adds to one bounds the sum.
pub record TcpConnection : Type 0 where
  pub fd : ℤ
  pub bytes_rxed : ℕ
  pub bytes_txed : ℕ
  pub local_host_name : Bytes
  pub local_host_ip : ℕ
  pub local_port_name : Bytes
  pub local_port_number : ℤ
  pub remote_host_name : Bytes
  pub remote_host_ip : ℕ
  pub remote_port_name : Bytes
  pub remote_port_number : ℤ
  pub mode : ConnectMode
  pub sz_rx_buf : ℤ
  pub sz_tx_buf : ℤ

-- The size of a buffer that the constructor takes over.
unfoldable pub clamped_size : ℤ → ℤ
clamped_size size = if ltb_ℤ size (pos 1024) || ltb_ℤ (pos 8388608) size then pos 1024 else size

-- The constructor, but for the name of the local host, which `set_host_info` sets.
unfoldable pub tcp_connection : ℤ → ℤ → TcpConnection
tcp_connection sz_rx_buf sz_tx_buf = record {
  fd = negsuc 0;
  bytes_rxed = 0;
  bytes_txed = 0;
  local_host_name = [];
  local_host_ip = 0;
  local_port_name = [];
  local_port_number = negsuc 0;
  remote_host_name = [];
  remote_host_ip = 0;
  remote_port_name = [];
  remote_port_number = negsuc 0;
  mode = synchronous;
  sz_rx_buf = clamped_size sz_rx_buf;
  sz_tx_buf = clamped_size sz_tx_buf;
}

-- What `write_data` leaves: its result, `actual_len`, the object and the system.
pub record Written (W : Type 0) : Type 0 where
  pub ret : ℕ
  pub actual_len : ℕ
  pub connection : TcpConnection
  pub world : W

abbrev pub is_digit : ℕ → Bool
is_digit c = leb b'0' c && leb c b'9'

-- `atoi` of a text that starts with a digit, `n` being read already. The source does not look after
-- overflow.
unfoldable pub atoi : ℕ → Bytes → ℕ
atoi n [] = n
atoi n (c ∷ cs) = if is_digit c then atoi (n * 10 + (c - b'0')) cs else n

-- "Unknown"
abbrev pub unknown : Bytes
unknown = b'U' ∷ b'n' ∷ b'k' ∷ b'n' ∷ b'o' ∷ b'w' ∷ b'n' ∷ []

-- Name and number, or name and address, that a lookup sets.
pub record Found (N : Type 0) : Type 0 where
  pub ret : ℕ
  pub name : Bytes
  pub number : N

-- The three ways a round of `write_data`'s loop can go.
pub data WriteTurn : Type 0 where
  wrote : ℕ → WriteTurn
  interrupted : WriteTurn
  failed : ℕ → WriteTurn

-- The conditions of that loop, on the result of `write` and on `errno`.
unfoldable pub write_turn : ℤ → Errno → WriteTurn
write_turn write_len errno =
    if ltb_ℤ (pos 0) write_len
    then wrote (pos_part write_len)
    else if is_eintr errno
    then interrupted
    else if is_eagain errno
    then failed e_tcp_would_block
    else failed e_tcp_write_fail

module _ {W : Type 0} (k : Kernel W) where
  unfoldable pub close : TcpConnection → W → ℕ × TcpConnection × W
  close c w =
      if is_minus_one c.fd
      then (e_tcp_already_closed, c, w)
      else let (r, w1) = k.close_fd c.fd w in
        if is_zero r
        then (e_tcp_no_error, record c { fd = negsuc 0 }, w1)
        else (e_tcp_close_fail, c, w1)

  -- `read_data(data, max_len, actual_len)`; `none` is a null `data`. The data that is read is the third
  -- component.
  unfoldable pub read_data : Bool → ℤ → TcpConnection → W → ℕ × ℕ × Bytes × TcpConnection × W
  read_data data_is_null max_len c w =
      if data_is_null then (e_tcp_null_ptr, 0, [], c, w) else elim max_len [
        | negsuc n ↦ (e_tcp_max_read_len, 0, [], c, w)
        | pos n ↦
            if n == 0
            then (e_tcp_max_read_len, 0, [], c, w)
            else if is_minus_one c.fd
            then (e_tcp_already_closed, 0, [], c, w)
            else let (answer, w1) = k.read_fd c.fd n w in
              elim answer.0 [
                | pos len ↦ if len == 0 then (e_tcp_read_fail, 0, [], c, w1) else (
                  e_tcp_no_error,
                  len,
                  answer.1,
                  record c { bytes_rxed = c.bytes_rxed + len },
                  w1,
                )
                | negsuc m ↦
                    if m == 0
                    then if is_eintr (k.errno w1)
                      then (e_tcp_no_error, 0, [], c, w1)
                      else if is_eagain (k.errno w1)
                      then (e_tcp_would_block, 0, [], c, w1)
                      else (e_tcp_read_error, 0, [], c, w1)
                    else (e_tcp_no_error, 0, [], c, w1)
              ]
      ]

  unfoldable pub p_set_flags : ℤ → ℕ → W → ℕ × W
  p_set_flags fd flags w =
      let (val, w1) = k.get_flags fd w in
      elim val [
        | negsuc n ↦ (e_tcp_get_flags, w1)
        | pos v ↦
            let (r, w2) = k.put_flags fd (bit_or v flags) w1 in
            if is_negative r then (e_tcp_set_flags, w2) else (e_tcp_no_error, w2)
      ]

  -- `val & ~flags` is `val` less the flags that it has.
  unfoldable pub p_clear_flags : ℤ → ℕ → W → ℕ × W
  p_clear_flags fd flags w =
      let (val, w1) = k.get_flags fd w in
      elim val [
        | negsuc n ↦ (e_tcp_get_flags, w1)
        | pos v ↦
            let (r, w2) = k.put_flags fd (v - bit_and v flags) w1 in
            if is_negative r then (e_tcp_clear_flags, w2) else (e_tcp_no_error, w2)
      ]

  unfoldable pub set_mode : ConnectMode → TcpConnection → W → ℕ × TcpConnection × W
  set_mode mode c w =
      let c1 = record c { mode = mode } in
      if is_minus_one c1.fd then (e_tcp_no_error, c1, w) else elim mode [
        | asynchronous ↦ let (r, w1) = p_set_flags c1.fd k.o_ndelay w in (r, c1, w1)
        | synchronous ↦ let (r, w1) = p_clear_flags c1.fd k.o_ndelay w in (r, c1, w1)
      ]

  -- The loop of `write_data`, for at most `fuel` rounds: `src` is what is still to be written.
  -- The state that is left without fuel is `none`.
  unfoldable pub write_loop : ℕ → Bytes → ℕ → TcpConnection → W → Option (Written W)
  write_loop fuel [] actual_len c w =
      some (record { ret = e_tcp_no_error; actual_len = actual_len; connection = c; world = w })
  write_loop zero (b ∷ src) actual_len c w = none
  write_loop (suc fuel) (b ∷ src) actual_len c w =
      let (r, w1) = k.write_fd c.fd (b ∷ src) w in
      elim (write_turn r (k.errno w1)) as (λ t. Option (Written W)) [
        | wrote n ↦
            write_loop fuel (drop n (b ∷ src)) (actual_len + n)
              (record c { bytes_txed = c.bytes_txed + n }) w1
        | interrupted ↦ write_loop fuel (b ∷ src) actual_len c w1
        | failed error ↦
            some (record { ret = error; actual_len = actual_len; connection = c; world = w1 })
      ]

  -- `write_data(data, len, actual_len)`: its data is the `len` bytes, or `none` for a null pointer.
  unfoldable pub write_data : ℕ → Option Bytes → TcpConnection → W → Option (Written W)
  write_data fuel none c w =
      some (record { ret = e_tcp_null_ptr; actual_len = 0; connection = c; world = w })
  write_data fuel (some bytes) c w =
      if length bytes == 0
      then some (record { ret = e_tcp_max_write_len; actual_len = 0; connection = c; world = w })
      else if is_minus_one c.fd
      then some (record { ret = e_tcp_already_closed; actual_len = 0; connection = c; world = w })
      else write_loop fuel bytes 0 c w

  unfoldable pub set_linger_option : Bool → TcpConnection → W → Bool × W
  set_linger_option enabled c w =
      if is_minus_one c.fd
      then (false, w)
      else let (r, w1) =
          k.setsockopt c.fd so_linger (two_ints (if enabled then pos 0 else pos 1) (pos 0)) w in
        (is_zero r, w1)

  unfoldable pub p_set_socket_options : TcpConnection → W → ℕ × W
  p_set_socket_options c =
      check (k.setsockopt c.fd so_reuseaddr (one_int (pos 1))) e_tcp_set_sock_reuse (λ w.
        let (linger, w1) = set_linger_option true c w in
        if not linger
        then (e_tcp_set_sock_linger, w1)
        else check (k.setsockopt c.fd so_keepalive (one_int (pos 1))) e_tcp_set_sock_kalive
            (check (k.setsockopt c.fd tcp_nodelay (one_int (pos 1))) e_tcp_set_disable_nagle (
              check (k.setsockopt c.fd tcp_cork (one_int (pos 0))) e_tcp_set_disable_cork (
                check (k.setsockopt c.fd so_sndbuf (one_int c.sz_tx_buf)) e_tcp_set_sock_tx_buf (
                  check (k.setsockopt c.fd so_rcvbuf (one_int c.sz_rx_buf)) e_tcp_set_sock_rx_buf
                    (λ w2. (e_tcp_no_error, w2))))))
            w1)

  -- `pri_set_host_info`. An entry that is missing leaves `he` as it was, not initialised: `none`.
  unfoldable pub pri_set_host_info : Bytes → W → Option (Found ℕ) × W
  pri_set_host_info host w =
      if length host == 0
      then (some (record { ret = e_tcp_invalid_host_name; name = []; number = 0 }), w)
      else elim (k.inet_aton host) [
        | some ip ↦
            let (answer, w1) = k.gethostbyaddr ip w in
            elim answer [
              | entry name ↦ (some (record { ret = e_tcp_no_error; name = name; number = ip }), w1)
              | no_entry ↦ (none, w1)
              | lookup_failed ↦
                  (some (record { ret = e_tcp_no_error; name = unknown; number = ip }), w1)
            ]
        | none ↦
            let (answer, w1) = k.gethostbyname host w in
            elim answer [
              | entry ip ↦ (some (record { ret = e_tcp_no_error; name = host; number = ip }), w1)
              | no_entry ↦ (none, w1)
              | lookup_failed ↦
                  (some (record { ret = e_tcp_host_not_defined; name = []; number = 0 }), w1)
            ]
      ]

  -- `pri_set_port_info`. An entry that is missing leaves `se` zero, and its null name is assigned to a
  -- `std::string`: `none`.
  unfoldable pub pri_set_port_info : Bytes → W → Option (Found ℤ) × W
  pri_set_port_info [] w =
      (some (record { ret = e_tcp_invalid_service_name; name = []; number = negsuc 0 }), w)
  pri_set_port_info (c ∷ cs) w =
      if is_digit c
      then (let port_number = atoi 0 (c ∷ cs) in
          if port_number == 0 || ltb 65535 port_number
          then (
            some (record { ret = e_tcp_invalid_service_port; name = []; number = pos port_number }),
            w,
          )
          else let (answer, w1) = k.getservbyport (pos port_number) w in
            elim answer [
              | entry name ↦ (
                some (record { ret = e_tcp_no_error; name = name; number = pos port_number }),
                w1,
              )
              | no_entry ↦ (none, w1)
              | lookup_failed ↦ (
                some (record { ret = e_tcp_no_error; name = unknown; number = pos port_number }),
                w1,
              )
            ])
      else let (answer, w1) = k.getservbyname (c ∷ cs) w in
        elim answer [
          | entry e ↦ (some (record { ret = e_tcp_no_error; name = e.1; number = e.0 }), w1)
          | no_entry ↦ (none, w1)
          | lookup_failed ↦
              (some (record { ret = e_tcp_service_not_defined; name = []; number = negsuc 0 }), w1)
        ]
