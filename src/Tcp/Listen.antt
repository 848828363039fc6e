-- ===== src/Tcp/Listen.antt =====
-- util_lib/tcp/src/tcp_server.cpp: what `listen` does with the two descriptors of the server.
use core_connect_binary.Base.{
  ℕ, ◌≡◌, ◌≢◌, refl, ap, ◌⊎◌, inl, inr, Bool, true, false, none, some, arith, Bool-cases, ◌==◌,
  ==_iff, ==_false,
}
use core_connect_binary.Base.Int.{ℤ, pos, negsuc, ltb_ℤ}
use core_connect_binary.Kernel.{Kernel, is_minus_one, is_eagain, is_zero}
use core_connect_binary.Tcp.Errors.{e_tcp_no_error, e_tcp_accept_failed, e_tcp_listen_in_progress}
use core_connect_binary.Tcp.Connection.{TcpConnection, synchronous, asynchronous, close}
use core_connect_binary.Tcp.Connect.{CloseFails}
use core_connect_binary.Tcp.Server.{
  TcpServer, server_fd, Step, close_server, open_listener, p_listen_block, p_listen_non_block,
  listen, listen_in, hand_over, Made, p_set_listen_addr,
}

-- The ends of a call of `listen`.
module _ {W : Type 0} where
  -- A connection was accepted: it owns the accepted descriptor, which the server has given up; the
  -- server goes on listening.
  abbrev pub Accepted : Made W → Type 0
  Accepted m =
      (m.0 ≡ e_tcp_no_error)
      × ((c : TcpConnection) × (m.1 ≡ some c) × (is_minus_one c.fd ≡ false))
      × ((let s = m.2 in is_minus_one s.accept_fd) ≡ true)
      × (is_minus_one (server_fd m.2) ≡ false)

  -- It failed: the listening descriptor is closed, or the last thing done was to close it, which
  -- failed; the accepted descriptor is what it was, or not positive.
  abbrev pub Closed : Kernel W → TcpServer → Made W → Type 0
  Closed k before m =
      (m.0 ≢ e_tcp_no_error)
      × (m.1 ≡ none)
      × ((is_minus_one (server_fd m.2) ≡ true) ⊎ CloseFails k (server_fd m.2) m.3)
      × (let s = m.2 in (s.accept_fd ≡ before.accept_fd) ⊎ (ltb_ℤ (pos 0) s.accept_fd ≡ false))

  -- Nobody has connected yet, the accepted descriptor is not positive, and the server goes on
  -- listening.
  abbrev pub Listening : Made W → Type 0
  Listening m =
      (m.0 ≡ e_tcp_listen_in_progress)
      × (m.1 ≡ none)
      × (is_minus_one (server_fd m.2) ≡ false)
      × ((let s = m.2 in ltb_ℤ (pos 0) s.accept_fd) ≡ false)

  hand_over-error : (s : Step W) → s.0 ≢ e_tcp_no_error → hand_over s ≡ (s.0, none, s.1, s.2)
  unfolding hand_over
  hand_over-error s err = rw (==_false err) refl

  hand_over-ok :
      (s : Step W)
      → s.0 ≡ e_tcp_no_error
      → (let t = s.1 in is_minus_one t.accept_fd) ≡ false
      → is_minus_one (server_fd s.1) ≡ false
      → Accepted (hand_over s)
  unfolding hand_over
  hand_over-ok s ok accepted opened = rw ok (refl, (_, refl, accepted), refl, opened)

positive-open : (a : ℤ) → ltb_ℤ (pos 0) a ≡ true → is_minus_one a ≡ false
positive-open (pos n) h = refl
positive-open (negsuc n) h = absurd (ground (arith, h))

minus_one-negative : (a : ℤ) → is_minus_one a ≡ true → ltb_ℤ (pos 0) a ≡ false
minus_one-negative (pos n) h = absurd (ground (arith, h))
minus_one-negative (negsuc n) h = ground arith

module _ {W : Type 0} (k : Kernel W) where
  close_server-closed :
      (s : TcpServer) (w : W)
      → let (s1, w1) = close_server k s w in
        (is_minus_one (server_fd s1) ≡ true) ⊎ CloseFails k (server_fd s1) w1
  unfolding close_server close
  close_server-closed s w = elim (Bool-cases (is_minus_one (server_fd s))) [
    | inl closed ↦ rw closed (inl closed)
    | inr opened ↦ elim (Bool-cases (is_zero (k.close_fd (server_fd s) w).0)) [
      | inl done ↦ rw (opened, done) (inl refl)
      | inr fails ↦ rw (opened, fails) (inr (w, fails, refl))
    ]
  ]

  close_server-accept_fd :
      (s : TcpServer) (w : W) → (let (s1, w1) = close_server k s w in s1.accept_fd) ≡ s.accept_fd
  unfolding close_server
  close_server-accept_fd s w = refl

  open_listener-accept_fd :
      (no_wait : Bool) (s : TcpServer) (w : W)
      → (let (r, s1, w1) = open_listener k no_wait s w in s1.accept_fd) ≡ s.accept_fd
  unfolding open_listener p_set_listen_addr
  open_listener-accept_fd no_wait s w = ground arith

  -- A failed step is closed and handed over as a failure.
  close_server-Closed :
      (before : TcpServer) (r : ℕ) (s : TcpServer) (w : W)
      → r ≢ e_tcp_no_error
      → (s.accept_fd ≡ before.accept_fd) ⊎ (ltb_ℤ (pos 0) s.accept_fd ≡ false)
      → let (s1, w1) = close_server k s w in Closed k before (hand_over (r, s1, w1))
  unfolding close_server
  close_server-Closed before r s w err accepted =
      let (s1, w1) = close_server k s w in
      rw (hand_over-error (r, s1, w1) err) (err, refl, close_server-closed s w, accepted)

  open_listener-opened :
      (no_wait : Bool) (s : TcpServer) (w : W)
      → (open_listener k no_wait s w).0 ≡ e_tcp_no_error
      → is_minus_one (server_fd (open_listener k no_wait s w).1) ≡ false
  unfolding open_listener p_set_listen_addr
  open_listener-opened no_wait s w ok = elim (Bool-cases (is_minus_one (server_fd s))) [
    | inl closed ↦ elim (Bool-cases (is_minus_one (k.socket w).0)) [
      | inl refused ↦ absurd (ground (arith, closed, refused, ok))
      | inr opened ↦ rw (closed, opened) opened
    ]
    | inr opened ↦ rw opened opened
  ]

  p_listen_block-ends :
      (s : TcpServer) (w : W)
      → let m = hand_over (p_listen_block k s w) in Accepted m ⊎ Closed k s m
  unfolding p_listen_block
  p_listen_block-ends s w =
      let (r, s1, w1) = open_listener k false s w in
      elim (Bool-cases (r == e_tcp_no_error)) [
        | inr err ↦ rw err (
            inr (
              close_server-Closed s r s1 w1 (λ z. absurd (ground (arith, err, z)))
                (inl (open_listener-accept_fd false s w))))
        | inl ok ↦
            let r0 = (==_iff r 0).0 ok in
            let (a, w2) = k.accept_fd (server_fd s1) w1 in
            rw ok (elim (Bool-cases (is_minus_one a)) [
              | inl refused ↦ rw refused (
                  inr (
                    close_server-Closed s e_tcp_accept_failed (record s1 { accept_fd = a }) w2
                      (omega arith) (inr (minus_one-negative a refused))))
              | inr accepted ↦ rw accepted (
                  inl (
                    hand_over-ok (e_tcp_no_error, record s1 { accept_fd = a }, w2) refl accepted
                      (open_listener-opened false s w r0)))
            ])
      ]

  p_listen_non_block-ends :
      (s : TcpServer) (w : W)
      → let m = hand_over (p_listen_non_block k s w) in Accepted m ⊎ (Closed k s m ⊎ Listening m)
  unfolding p_listen_non_block
  p_listen_non_block-ends s w =
      let (r, s1, w1) = open_listener k true s w in
      elim (Bool-cases (r == e_tcp_no_error)) [
        | inr err ↦ rw err (
            inr (
              inl (
                close_server-Closed s r s1 w1 (λ z. absurd (ground (arith, err, z)))
                  (inl (open_listener-accept_fd true s w)))))
        | inl ok ↦
            let opened = open_listener-opened true s w ((==_iff r 0).0 ok) in
            let (a, w2) = k.accept_fd (server_fd s1) w1 in
            let s2 = record s1 { accept_fd = a } in
            rw ok (elim (Bool-cases (ltb_ℤ (pos 0) a)) [
              | inl got ↦
                  rw got
                    (inl (hand_over-ok (e_tcp_no_error, s2, w2) refl (positive-open a got) opened))
              | inr none_yet ↦ rw none_yet (elim (Bool-cases (is_eagain (k.errno w2))) [
                | inl waiting ↦
                    rw (waiting, hand_over-error (e_tcp_listen_in_progress, s2, w2) (omega arith))
                      (inr (inr (refl, refl, opened, none_yet)))
                | inr failed ↦ rw failed (
                    inr (
                      inl (
                        close_server-Closed s e_tcp_accept_failed s2 w2 (omega arith)
                          (inr none_yet))))
              ])
            ])
      ]

  -- In waiting mode, `listen` hands out the accepted connection and goes on listening; or it fails
  -- and has no listening descriptor, or one whose close, the last call of the system, failed, and
  -- the accepted descriptor is what it was, or not positive.
  pub listen-synchronous :
      (s : TcpServer) (w : W)
      → (let b = s.base in b.mode) ≡ synchronous
      → let m = listen k s w in Accepted m ⊎ Closed k s m
  unfolding listen
  listen-synchronous s w sync = rw (ap (λ m. listen_in k m s w) sync) (p_listen_block-ends s w)

  -- In no-wait mode, `listen` hands out the accepted connection, gives up its descriptor and goes
  -- on listening; or it fails and has no listening descriptor, or one whose close, the last call of
  -- the system, failed, and the accepted descriptor is what it was, or not positive; or it reports
  -- that nobody has connected yet and goes on listening, with an accepted descriptor that is not
  -- positive.
  pub listen-asynchronous :
      (s : TcpServer) (w : W)
      → (let b = s.base in b.mode) ≡ asynchronous
      → let m = listen k s w in Accepted m ⊎ (Closed k s m ⊎ Listening m)
  unfolding listen
  listen-asynchronous s w async =
      rw (ap (λ m. listen_in k m s w) async) (p_listen_non_block-ends s w)
