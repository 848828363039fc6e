-- ===== src/Tcp/Connect.antt =====
-- util_lib/tcp/src/tcp_client.cpp: what `connect` does with the descriptor of the client.
use core_connect_binary.Base.{
  ℕ, ◌≡◌, ◌≢◌, refl, ap, ◌⊎◌, inl, inr, true, false, none, some, arith, Bool-cases, ◌==◌, ==_iff,
  ==_false,
}
use core_connect_binary.Base.Int.{ℤ}
use core_connect_binary.Kernel.{Kernel, is_minus_one, is_zero}
use core_connect_binary.Tcp.Errors.{
  e_tcp_no_error, e_tcp_socket, e_tcp_conn_in_progress, e_tcp_clear_flags, e_tcp_get_flags,
}
use core_connect_binary.Tcp.Connection.{
  TcpConnection, synchronous, asynchronous, close, p_clear_flags,
}
use core_connect_binary.Tcp.Client.{
  TcpClient, client_fd, with_fd, Step, close_client, connect_chain, settle, p_connect_block,
  open_socket, try_connect, p_connect_non_block, connect, hand_over, Made, p_set_connect_addr,
}

-- The last call of the system was a `close` of `fd` that failed.
abbrev pub CloseFails : {W : Type 0} → Kernel W → ℤ → W → Type 0
CloseFails {W} k fd after =
    (w : W) × (is_zero (k.close_fd fd w).0 ≡ false) × ((k.close_fd fd w).1 ≡ after)

-- The ends of a call of `connect`.
module _ {W : Type 0} where
  -- The connection was made: it owns an open descriptor, and the client has none left.
  abbrev pub HandedOver : Made W → Type 0
  HandedOver m =
      (m.0 ≡ e_tcp_no_error)
      × ((c : TcpConnection) × (m.1 ≡ some c) × (is_minus_one c.fd ≡ false))
      × (is_minus_one (client_fd m.2) ≡ true)

  -- It failed, and the client has no descriptor left, or the last thing done was to close it, which
  -- failed.
  abbrev pub CleanedUp : Kernel W → Made W → Type 0
  CleanedUp k m =
      (m.0 ≢ e_tcp_no_error)
      × (m.1 ≡ none)
      × ((is_minus_one (client_fd m.2) ≡ true) ⊎ CloseFails k (client_fd m.2) m.3)

  -- It is in progress, on a descriptor that the client keeps.
  abbrev pub InProgress : Made W → Type 0
  InProgress m =
      (m.0 ≡ e_tcp_conn_in_progress) × (m.1 ≡ none) × (is_minus_one (client_fd m.2) ≡ false)

  -- The connection was made, but the flags could not be reset: the client keeps the open descriptor.
  abbrev pub LeftOpen : Made W → Type 0
  LeftOpen m =
      ((m.0 ≡ e_tcp_get_flags) ⊎ (m.0 ≡ e_tcp_clear_flags))
      × (m.1 ≡ none)
      × (is_minus_one (client_fd m.2) ≡ false)

  hand_over-ok :
      (s : Step W)
      → s.0 ≡ e_tcp_no_error
      → is_minus_one (client_fd s.1) ≡ false
      → HandedOver (hand_over s)
  unfolding hand_over
  hand_over-ok s ok opened = rw ok (refl, (_, refl, opened), refl)

  hand_over-error : (s : Step W) → s.0 ≢ e_tcp_no_error → hand_over s ≡ (s.0, none, s.1, s.2)
  unfolding hand_over
  hand_over-error s err = rw (==_false err) refl

module _ {W : Type 0} (k : Kernel W) where
  close_client-closed :
      (t : TcpClient) (w : W)
      → let (t1, w1) = close_client k t w in
        (is_minus_one (client_fd t1) ≡ true) ⊎ CloseFails k (client_fd t1) w1
  unfolding close_client close
  close_client-closed t w = elim (Bool-cases (is_minus_one (client_fd t))) [
    | inl closed ↦ rw closed (inl closed)
    | inr opened ↦ elim (Bool-cases (is_zero (k.close_fd (client_fd t) w).0)) [
      | inl done ↦ rw (opened, done) (inl refl)
      | inr fails ↦ rw (opened, fails) (inr (w, fails, refl))
    ]
  ]

  p_clear_flags-error :
      (fd : ℤ) (flags : ℕ) (w : W)
      → let r = (p_clear_flags k fd flags w).0 in
        (r ≡ e_tcp_no_error) ⊎ ((r ≡ e_tcp_get_flags) ⊎ (r ≡ e_tcp_clear_flags))
  unfolding p_clear_flags
  p_clear_flags-error fd flags w = ground arith

  connect_chain-opened :
      (t : TcpClient) (w : W)
      → (connect_chain k t w).0 ≡ e_tcp_no_error
      → is_minus_one (client_fd t) ≡ false
  unfolding connect_chain
  connect_chain-opened t w ok = ground arith

  -- The three ways `p_connect_block` can end, of `connect`'s point of view.
  p_connect_block-ends :
      (t : TcpClient) (w : W)
      → let m = hand_over (p_connect_block k t w) in HandedOver m ⊎ (CleanedUp k m ⊎ LeftOpen m)
  unfolding p_connect_block
  p_connect_block-ends t w =
      let (fd, w1) = k.socket w in
      let t1 = with_fd fd (p_set_connect_addr k t) in
      let chain = connect_chain k t1 w1 in
      let cleared = p_clear_flags k fd k.o_ndelay chain.1 in
      elim (Bool-cases (chain.0 == e_tcp_no_error)) [
        | inl ok ↦
            let opened = connect_chain-opened t1 w1 ((==_iff chain.0 0).0 ok) in
            rw ok (elim (p_clear_flags-error fd k.o_ndelay chain.1) [
              | inl fine ↦ inl (hand_over-ok (cleared.0, t1, cleared.1) fine opened)
              | inr err ↦ inr (
                  inr (
                    rw
                      (hand_over-error (cleared.0, t1, cleared.1)
                        (λ z. elim err [
                          | inl g ↦ omega (arith, z, g)
                          | inr g ↦ omega (arith, z, g)
                        ]))
                      (err, refl, opened)))
            ])
        | inr err ↦
            let closed = close_client k t1 cleared.1 in
            let wrong : chain.0 ≢ e_tcp_no_error = λ z. absurd (ground (arith, err, z)) in
            rw (err, hand_over-error (chain.0, closed.0, closed.1) wrong)
              (inr (inl (wrong, refl, close_client-closed t1 cleared.1)))
      ]

  pick_block :
      (t : TcpClient) (w : W)
      → (let b = t.base in b.mode) ≡ synchronous
      → connect k t w ≡ hand_over (p_connect_block k t w)
  unfolding connect
  pick_block t w sync =
      ap
        (λ m. elim m as (λ m. Made W) [
          | synchronous ↦ hand_over (p_connect_block k t w)
          | asynchronous ↦ hand_over (p_connect_non_block k t w)
        ])
        sync

  -- In waiting mode, `connect` hands out an open connection and is left without one; or it fails
  -- and is left without one, or with a descriptor whose close, the last call of the system, failed;
  -- or it fails with an error of `p_clear_flags` and keeps the open descriptor.
  pub connect-synchronous :
      (t : TcpClient) (w : W)
      → (let b = t.base in b.mode) ≡ synchronous
      → let m = connect k t w in HandedOver m ⊎ (CleanedUp k m ⊎ LeftOpen m)
  connect-synchronous t w sync = rw (pick_block t w sync) (p_connect_block-ends t w)

  pick_non_block :
      (t : TcpClient) (w : W)
      → (let b = t.base in b.mode) ≡ asynchronous
      → connect k t w ≡ hand_over (p_connect_non_block k t w)
  unfolding connect
  pick_non_block t w async =
      ap
        (λ m. elim m as (λ m. Made W) [
          | synchronous ↦ hand_over (p_connect_block k t w)
          | asynchronous ↦ hand_over (p_connect_non_block k t w)
        ])
        async

  open_socket-opened :
      (t : TcpClient) (w : W)
      → ((open_socket k t w).0 ≡ e_tcp_socket)
        ⊎ (is_minus_one (client_fd (open_socket k t w).1) ≡ false)
  unfolding open_socket
  open_socket-opened t w = elim (Bool-cases (is_minus_one (client_fd t))) [
    | inl closed ↦ rw closed (elim (Bool-cases (is_minus_one (k.socket w).0)) [
      | inl refused ↦ rw refused (inl refl)
      | inr opened ↦ rw opened (inr opened)
    ])
    | inr opened ↦ rw opened (inr opened)
  ]

  settle-ends :
      (t : TcpClient) (r : ℕ) (w : W)
      → (r ≡ e_tcp_socket) ⊎ (is_minus_one (client_fd t) ≡ false)
      → let m = hand_over (settle k t (r, w)) in HandedOver m ⊎ (CleanedUp k m ⊎ InProgress m)
  unfolding settle
  settle-ends t r w h = elim (Bool-cases (r == e_tcp_no_error)) [
    | inl ok ↦
        let r0 = (==_iff r 0).0 ok in
        rw ok (
          inl (
            hand_over-ok (r, t, w) r0
              (elim h [ inl e ↦ absurd (omega (arith, e, r0)) | inr opened ↦ opened ])))
    | inr err ↦
        let wrong : r ≢ e_tcp_no_error = λ z. absurd (ground (arith, err, z)) in
        rw err (elim (Bool-cases (r == e_tcp_conn_in_progress)) [
          | inl waiting ↦
              let r1 = (==_iff r 9010).0 waiting in
              rw (waiting, hand_over-error (r, t, w) wrong)
                (inr (
                  inr (
                    r1,
                    refl,
                    elim h [ inl e ↦ absurd (omega (arith, e, r1)) | inr opened ↦ opened ],
                  )))
          | inr other ↦
              let closed = close_client k t w in
              rw (other, hand_over-error (r, closed.0, closed.1) wrong)
                (inr (inl (wrong, refl, close_client-closed t w)))
        ])
  ]

  -- In no-wait mode, `connect` hands out an open connection and is left without one; or it fails
  -- and is left without one, or with a descriptor whose close, the last call of the system, failed;
  -- or it reports that the connection is in progress and keeps the open descriptor for the next
  -- call.
  pub connect-asynchronous :
      (t : TcpClient) (w : W)
      → (let b = t.base in b.mode) ≡ asynchronous
      → let m = connect k t w in HandedOver m ⊎ (CleanedUp k m ⊎ InProgress m)
  unfolding p_connect_non_block
  connect-asynchronous t w async =
      let (r, t1, w1) = open_socket k t w in
      rw (pick_non_block t w async) (elim (Bool-cases (r == e_tcp_no_error)) [
        | inl ok ↦
            let r0 = (==_iff r 0).0 ok in
            let tried = try_connect k t1 w1 in
            rw ok (
              settle-ends t1 tried.0 tried.1 (elim (open_socket-opened t w) [
                | inl e ↦ absurd (omega (arith, e, r0))
                | inr opened ↦ inr opened
              ]))
        | inr err ↦ rw err (settle-ends t1 r w1 (open_socket-opened t w))
      ])
