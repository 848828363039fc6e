-- ===== src/Tcp/Client.antt =====
-- util_lib/tcp/src/tcp_client.cpp: the class `tcp_client`.
-- The lookups of `p_set_local_port_info` are not modelled: they fill in names for reference only, and
-- no descriptor and no result depends on them.
use core_connect_binary.Base.{ℕ, ◌||◌, ◌&&◌, not, Option, none, some, ◌==◌, if◌then◌else◌}
use core_connect_binary.Base.Int.{ℤ, pos, negsuc}
use core_connect_binary.Kernel.{
  Kernel, SockAddr, is_minus_one, is_zero, is_eagain, is_einprogress, is_eisconn,
}
use core_connect_binary.Tcp.Errors.{
  e_tcp_no_error, e_tcp_socket, e_tcp_connect_failed, e_tcp_select_failed, e_tcp_connect_timeout,
  e_tcp_connect_error, e_tcp_conn_in_progress, e_tcp_already_connected,
}
use core_connect_binary.Tcp.Connection.{
  TcpConnection, synchronous, asynchronous, tcp_connection, close, p_set_flags, p_clear_flags,
  p_set_socket_options,
}

pub record TcpClient : Type 0 where
  pub base : TcpConnection
  pub timeout : ℕ
  pub connect_addr : SockAddr

-- The constructor.
unfoldable pub tcp_client : ℤ → ℤ → TcpClient
tcp_client sz_rx_buf sz_tx_buf = record {
  base = tcp_connection sz_rx_buf sz_tx_buf;
  timeout = 0;
  connect_addr = record { sin_family = 0; sin_port = 0; sin_addr = 0 };
}

-- `AF_INET`
abbrev pub af_inet : ℕ
af_inet = 2

-- `m_fd` of the client.
abbrev pub client_fd : TcpClient → ℤ
client_fd t = let b = t.base in b.fd

abbrev pub with_fd : ℤ → TcpClient → TcpClient
with_fd fd t = record t { base = record t.base { fd = fd } }

-- A result, the object and the system after a call.
abbrev pub Step : Type 0 → Type 0
Step W = ℕ × TcpClient × W

-- A result, the connection that is handed out, the object and the system.
abbrev pub Made : Type 0 → Type 0
Made W = ℕ × Option TcpConnection × TcpClient × W

-- The second half of `connect`.
unfoldable pub hand_over : {W : Type 0} → Step W → Made W
hand_over (r, t, w) =
    if r == e_tcp_no_error then (r, some t.base, with_fd (negsuc 0) t, w) else (r, none, t, w)

module _ {W : Type 0} (k : Kernel W) where
  unfoldable pub set_timeout : ℤ → TcpClient → ℕ × TcpClient
  set_timeout timeout t =
      if not (is_minus_one (client_fd t)) then (e_tcp_already_connected, t) else elim timeout [
        | negsuc n ↦ (e_tcp_no_error, record t { timeout = 0 })
        | pos n ↦ (e_tcp_no_error, record t { timeout = n })
      ]

  unfoldable pub p_set_connect_addr : TcpClient → TcpClient
  p_set_connect_addr t =
      let b = t.base in
      record t {
        connect_addr = record {
          sin_family = af_inet;
          sin_port = k.htons b.remote_port_number;
          sin_addr = b.remote_host_ip;
        };
      }

  -- `close()` of the base class, its result dropped.
  unfoldable pub close_client : TcpClient → W → TcpClient × W
  close_client t w = let (r, c, w1) = close k t.base w in (record t { base = c }, w1)

  -- The wait of `p_connect_block` for a connection that is in progress.
  unfoldable pub await_connected : TcpClient → W → ℕ × W
  await_connected t w =
      let fd = client_fd t in
      let (s, w1) = k.select_fd fd (if t.timeout == 0 then none else some t.timeout) w in
      if is_minus_one s.count
      then (e_tcp_select_failed, w1)
      else if is_zero s.count
      then (e_tcp_connect_timeout, w1)
      else if s.readable || s.writable
      then (let (answer, w2) = k.so_error fd w1 in
          if is_minus_one answer.0 || not (is_zero answer.1)
          then (e_tcp_connect_error, w2)
          else (e_tcp_no_error, w2))
      else (e_tcp_select_failed, w1)

  -- `::connect` and what `p_connect_block` makes of it.
  unfoldable pub start_connect : TcpClient → W → ℕ × W
  start_connect t w =
      let (n, w1) = k.connect_fd (client_fd t) t.connect_addr w in
      if is_zero n
      then (e_tcp_no_error, w1)
      else if is_minus_one n && not (is_einprogress (k.errno w1))
      then (e_tcp_connect_failed, w1)
      else await_connected t w1

  -- The first calls that both kinds of `connect` make on the new socket.
  unfoldable pub prepare : TcpClient → W → ℕ × W
  prepare t w =
      let (r, w1) = p_set_socket_options k t.base w in
      if r == e_tcp_no_error then p_set_flags k (client_fd t) k.o_ndelay w1 else (r, w1)

  -- The chain of `p_connect_block` up to the call of `p_clear_flags`.
  unfoldable pub connect_chain : TcpClient → W → ℕ × W
  connect_chain t w =
      if is_minus_one (client_fd t)
      then (e_tcp_socket, w)
      else let (r, w1) = prepare t w in if r == e_tcp_no_error then start_connect t w1 else (r, w1)

  unfoldable pub p_connect_block : TcpClient → W → Step W
  p_connect_block t w =
      let (fd, w1) = k.socket w in
      let t1 = with_fd fd (p_set_connect_addr t) in
      let (r, w2) = connect_chain t1 w1 in
      let (r1, w3) = p_clear_flags k (client_fd t1) k.o_ndelay w2 in
      if r == e_tcp_no_error then (r1, t1, w3) else let (t2, w4) = close_client t1 w3 in (r, t2, w4)

  -- The first part of `p_connect_non_block`: a socket if there is none.
  unfoldable pub open_socket : TcpClient → W → Step W
  open_socket t w =
      if is_minus_one (client_fd t)
      then (let (fd, w1) = k.socket w in
          let t1 = with_fd fd (p_set_connect_addr t) in
          if is_minus_one fd
          then (e_tcp_socket, t1, w1)
          else let (r, w2) = prepare t1 w1 in (r, t1, w2))
      else (e_tcp_no_error, t, w)

  -- `::connect` and what `p_connect_non_block` makes of it.
  unfoldable pub try_connect : TcpClient → W → ℕ × W
  try_connect t w =
      let (n, w1) = k.connect_fd (client_fd t) t.connect_addr w in
      if is_zero n || is_eisconn (k.errno w1)
      then (e_tcp_no_error, w1)
      else if is_einprogress (k.errno w1) || is_eagain (k.errno w1)
      then (e_tcp_conn_in_progress, w1)
      else (e_tcp_connect_failed, w1)

  -- The end of `p_connect_non_block`: the socket is closed on an error.
  unfoldable pub settle : TcpClient → ℕ × W → Step W
  settle t (r, w) =
      if r == e_tcp_no_error || r == e_tcp_conn_in_progress
      then (r, t, w)
      else let (t1, w1) = close_client t w in (r, t1, w1)

  unfoldable pub p_connect_non_block : TcpClient → W → Step W
  p_connect_non_block t w =
      let (r, t1, w1) = open_socket t w in
      settle t1 (if r == e_tcp_no_error then try_connect t1 w1 else (r, w1))

  -- `connect(p)`: with its result, the new connection that it hands out.
  unfoldable pub connect : TcpClient → W → Made W
  connect t w =
      let b = t.base in
      elim b.mode as (λ m. Made W) [
        | synchronous ↦ hand_over (p_connect_block t w)
        | asynchronous ↦ hand_over (p_connect_non_block t w)
      ]
