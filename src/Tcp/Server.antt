-- ===== src/Tcp/Server.antt =====
-- util_lib/tcp/src/tcp_server.cpp: the class `tcp_server`.
-- `p_set_remote_host_port_info` is not modelled: it fills in names for reference only, and no
-- descriptor and no result depends on it.
use core_connect_binary.Base.{
  ℕ, Bool, true, false, ◌&&◌, not, Option, none, some, ◌==◌, ltb, if◌then◌else◌,
}
use core_connect_binary.Base.Int.{ℤ, pos, negsuc, ltb_ℤ}
use core_connect_binary.Kernel.{Kernel, SockAddr, is_minus_one, is_eagain, check}
use core_connect_binary.Tcp.Errors.{
  e_tcp_no_error, e_tcp_socket, e_tcp_bind_failed, e_tcp_listen_fail, e_tcp_accept_failed,
  e_tcp_listen_in_progress,
}
use core_connect_binary.Tcp.Connection.{
  TcpConnection, ConnectMode, synchronous, asynchronous, tcp_connection, close, p_set_flags,
  p_set_socket_options,
}

pub record TcpServer : Type 0 where
  pub base : TcpConnection
  pub listen_addr : SockAddr
  pub accept_fd : ℤ
  pub backlog : ℕ

-- The constructor.
unfoldable pub tcp_server : ℤ → ℤ → TcpServer
tcp_server sz_rx_buf sz_tx_buf = record {
  base = tcp_connection sz_rx_buf sz_tx_buf;
  listen_addr = record { sin_family = 0; sin_port = 0; sin_addr = 0 };
  accept_fd = negsuc 0;
  backlog = 1;
}

abbrev pub af_inet : ℕ
af_inet = 2

-- `m_fd` of the server.
abbrev pub server_fd : TcpServer → ℤ
server_fd s = let b = s.base in b.fd

abbrev pub with_fd : ℤ → TcpServer → TcpServer
with_fd fd s = record s { base = record s.base { fd = fd } }

abbrev pub Step : Type 0 → Type 0
Step W = ℕ × TcpServer × W

-- A result, the connection that is handed out, the object and the system.
abbrev pub Made : Type 0 → Type 0
Made W = ℕ × Option TcpConnection × TcpServer × W

-- The second half of `listen`.
unfoldable pub hand_over : {W : Type 0} → Step W → Made W
hand_over (r, s, w) =
    if r == e_tcp_no_error
    then (r, some (record s.base { fd = s.accept_fd }), record s { accept_fd = negsuc 0 }, w)
    else (r, none, s, w)

unfoldable pub set_backlog : ℕ → TcpServer → TcpServer
set_backlog backlog s =
    if is_minus_one (server_fd s) && ltb 0 backlog && ltb backlog 200
    then record s { backlog = backlog }
    else s

module _ {W : Type 0} (k : Kernel W) where
  -- `INADDR_ANY` is 0 in either byte order.
  unfoldable pub p_set_listen_addr : TcpServer → TcpServer
  p_set_listen_addr s =
      let b = s.base in
      record s {
        listen_addr = record {
          sin_family = af_inet;
          sin_port = k.htons b.local_port_number;
          sin_addr = 0;
        };
      }

  unfoldable pub close_server : TcpServer → W → TcpServer × W
  close_server s w = let (r, c, w1) = close k s.base w in (record s { base = c }, w1)

  -- `::bind` and `::listen` at the end of the opening of the listening socket.
  unfoldable pub bind_and_listen : TcpServer → W → ℕ × W
  bind_and_listen s =
      check (k.bind_fd (server_fd s) s.listen_addr) e_tcp_bind_failed
        (check (k.listen_fd (server_fd s) s.backlog) e_tcp_listen_fail (λ w. (e_tcp_no_error, w)))

  -- The chain of calls on a new listening socket in `p_listen_block` (`no_wait` false) and
  -- `p_listen_non_block` (`no_wait` true).
  unfoldable pub listener_chain : Bool → TcpServer → W → ℕ × W
  listener_chain no_wait s w =
      let (r, w1) = p_set_socket_options k s.base w in
      if not (r == e_tcp_no_error)
      then (r, w1)
      else let (r1, w2) =
          if no_wait then p_set_flags k (server_fd s) k.o_ndelay w1 else (e_tcp_no_error, w1) in
        if not (r1 == e_tcp_no_error) then (r1, w2) else bind_and_listen s w2

  -- The opening of the listening socket, if there is none.
  unfoldable pub open_listener : Bool → TcpServer → W → Step W
  open_listener no_wait s w =
      if not (is_minus_one (server_fd s))
      then (e_tcp_no_error, s, w)
      else let (fd, w1) = k.socket w in
        let s1 = with_fd fd s in
        if is_minus_one fd
        then (e_tcp_socket, s1, w1)
        else let s2 = p_set_listen_addr s1 in
          let (r, w2) = listener_chain no_wait s2 w1 in (r, s2, w2)

  unfoldable pub p_listen_block : TcpServer → W → Step W
  p_listen_block s w =
      let (r, s1, w1) = open_listener false s w in
      if not (r == e_tcp_no_error)
      then (let (s2, w2) = close_server s1 w1 in (r, s2, w2))
      else let (a, w2) = k.accept_fd (server_fd s1) w1 in
        let s2 = record s1 { accept_fd = a } in
        if is_minus_one a
        then (let (s3, w3) = close_server s2 w2 in (e_tcp_accept_failed, s3, w3))
        else (e_tcp_no_error, s2, w2)

  -- `EWOULDBLOCK` is `EAGAIN`.
  unfoldable pub p_listen_non_block : TcpServer → W → Step W
  p_listen_non_block s w =
      let (r, s1, w1) = open_listener true s w in
      if not (r == e_tcp_no_error)
      then (let (s2, w2) = close_server s1 w1 in (r, s2, w2))
      else let (a, w2) = k.accept_fd (server_fd s1) w1 in
        let s2 = record s1 { accept_fd = a } in
        if ltb_ℤ (pos 0) a
        then (e_tcp_no_error, s2, w2)
        else if is_eagain (k.errno w2)
        then (e_tcp_listen_in_progress, s2, w2)
        else let (s3, w3) = close_server s2 w2 in (e_tcp_accept_failed, s3, w3)

  -- `listen(p)`: with its result, the new connection that it hands out.
  abbrev pub listen_in : ConnectMode → TcpServer → W → Made W
  listen_in synchronous s w = hand_over (p_listen_block s w)
  listen_in asynchronous s w = hand_over (p_listen_non_block s w)

  unfoldable pub listen : TcpServer → W → Made W
  listen s w = let b = s.base in listen_in b.mode s w
