-- ===== src/Client/Started.antt =====
-- src/binary_gateway_load_test_client.cpp: how the start of the client ends.
use core_connect_binary.Base.{
  ℕ, zero, suc, ◌≡◌, ◌≢◌, ◌⊎◌, inl, inr, refl, ap, true, false, Option, none, some, Bytes,
  ignore_ret, arith,
}
use core_connect_binary.Kernel.{Kernel}
use core_connect_binary.Tcp.WriteData.{IsPosix}
use core_connect_binary.Tcp.Connection.{TcpConnection, ConnectMode, synchronous, asynchronous}
use core_connect_binary.Tcp.Client.{
  TcpClient, Step, Made, hand_over, connect, p_connect_block, p_connect_non_block,
}
use core_connect_binary.Client.Session.{Client}
use core_connect_binary.Client.Json.{Json}
use core_connect_binary.Client.Requests.{Frames, Stale, process_a_logon}
use core_connect_binary.Client.Watch.{enough_fuel, tcp_write-Wrote}
use core_connect_binary.Client.Start.{
  Engine, start_timers, add_fd, fd_added, connected, initialise_task,
}

-- Without an error there is a connection to hand out.
hand_over-none : {W : Type 0} (s : Step W) → (hand_over s).1 ≡ none → (hand_over s).0 ≢ 0
unfolding hand_over
hand_over-none (zero, t, w) h = cc
hand_over-none (suc r, t, w) h = λ q. grind (arith, q)

by_mode-none :
    {W : Type 0} (m : ConnectMode) (a b : Step W)
    → let made = elim m as (λ m. Made W) [
      | synchronous ↦ hand_over a
      | asynchronous ↦ hand_over b
    ] in
      made.1 ≡ none → made.0 ≢ 0
by_mode-none synchronous a b = hand_over-none a
by_mode-none asynchronous a b = hand_over-none b

connect-none :
    {W : Type 0} (k : Kernel W) (t : TcpClient) (w : W)
    → (connect k t w).1 ≡ none
    → (connect k t w).0 ≢ 0
unfolding connect
connect-none k t w =
    by_mode-none (let b = t.base in b.mode) (p_connect_block k t w) (p_connect_non_block k t w)

module _ {W : Type 0} (k : Kernel W) (p : IsPosix k) (ev_terminate : W → ℕ × W) (e : Engine W)
    {D V : Type 0} (j : Json D V) (frames : Frames) (stale : Stale) (id : ℕ) (password : Bytes)
    (tcpc : TcpClient) where
  abbrev fuel : Bytes → W → ℕ
  fuel = enough_fuel k p ev_terminate

  -- Connected without an error, or not connected with one.
  abbrev pub Started : Option (ℕ × Client W) → Type 0
  Started o =
      (ret : ℕ) × (m : Client W) × (o ≡ some (ret, m))
      × (((ret ≡ 0) × (m.tcp_connected ≡ true)) ⊎ ((ret ≢ 0) × (m.tcp_connected ≡ false)))

  fd_added-Started :
      (ret : ℕ) (c : Client W)
      → c.tcp_connected ≡ false
      → Started (fd_added e j frames stale k ev_terminate fuel id password tcpc ret c)
  unfolding fd_added process_a_logon ignore_ret
  fd_added-Started zero c off =
      let (ret, m, ends, wrote) =
        tcp_write-Wrote k p ev_terminate (frames.logon id password)
          (record c { tcp_connected = true }) in
      (0, m, ap ignore_ret ends, inl (refl, ap (λ x. x.tcp_connected) wrote))
  fd_added-Started (suc ret) c off = (suc ret, c, refl, inr ((λ q. absurd (omega (arith, q))), off))

  connected-Started :
      (ret : ℕ) (o : Option TcpConnection) (c : Client W)
      → c.tcp_connected ≡ false
      → (o ≡ none → ret ≢ 0)
      → Started (connected e j frames stale k ev_terminate fuel id password tcpc ret o c)
  unfolding connected
  connected-Started ret none c off h = (ret, c, refl, inr (h refl, off))
  connected-Started ret (some con) c off h =
      let (r, w) = add_fd e con c.world in
      fd_added-Started r (record c { con = con; world = w }) off

  -- Over a system whose write does what POSIX says, with fuel for every byte and interruption, once the
  -- texts of the settings are read as numbers and the address is set, whatever the other calls and the
  -- event engine answer: the start of a client that is not connected returns; it returns no error and the
  -- client is connected, or it returns an error and the client is not connected.
  pub initialise_task-Started :
      (c : Client W)
      → c.tcp_connected ≡ false
      → Started (initialise_task e j frames stale k ev_terminate fuel id password tcpc c)
  unfolding initialise_task
  initialise_task-Started c off =
      let w0 = start_timers e c.world in
      let (ret, made, t, w) = connect k tcpc w0 in
      connected-Started ret made (record c { world = w }) off (connect-none k tcpc w0)
