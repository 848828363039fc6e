-- ===== src/Client/Start.antt =====
-- src/binary_gateway_load_test_client.cpp: the start of the client, and its events. The event engine is a
-- parameter; the `tcp_client`, which is used nowhere else, has its host and port set. The seed of `rand()`
-- and the calibration of the cycle counter are left out.
use core_connect_binary.Base.{ℕ, zero, suc, true, Option, none, some, Bytes, Bool}
use core_connect_binary.Base.Int.{ℤ}
use core_connect_binary.Kernel.{Kernel}
use core_connect_binary.Tcp.Connection.{TcpConnection}
use core_connect_binary.Tcp.Client.{TcpClient, connect}
use core_connect_binary.Client.Timers.{
  Timer, tmr_idle, tmr_random_no_timer, SettingsEvent, fsm_settings, process_random_no,
}
use core_connect_binary.Client.Session.{NewOrderRequest, NewOrderResponse, Client}
use core_connect_binary.Client.Sending.{process_idle_tmr, process_load_tmr}
use core_connect_binary.Client.Receiving.{Message, tcp_read}
use core_connect_binary.Client.Json.{Json}
use core_connect_binary.Client.Requests.{Frames, Stale, process_a_logon}
use core_connect_binary.Client.Console.{
  Console, m_latency_done, write_latency_file, on_client, console_read,
}

-- The calls of the event engine: a continuous timer for an event of the class (a number of `enum events`),
-- and a descriptor watched for data or exceptions.
pub record Engine (W : Type 0) : Type 0 where
  pub tmr_add : Timer → ℕ → ℕ → W → ℕ × W
  pub add_read : ℤ → W → ℕ × W
  pub add_except : ℤ → W → ℕ × W

module _ {W : Type 0} (e : Engine W) where
  -- The timers of the start; that of the load settings has the identifier of the idle timer.
  unfoldable pub start_timers : W → W
  start_timers w =
      let w1 = (e.tmr_add tmr_idle 1 3000000 w).1 in
      let w2 = (e.tmr_add tmr_random_no_timer 18 1000000 w1).1 in
      (e.tmr_add tmr_idle 14 5000000 w2).1

  unfoldable pub then_except : ℕ → ℤ → W → ℕ × W
  then_except zero fd w = e.add_except fd w
  then_except (suc ret) fd w = (suc ret, w)

  unfoldable pub add_fd : TcpConnection → W → ℕ × W
  add_fd con w = let (ret, w1) = e.add_read con.fd w in then_except ret con.fd w1

  module _ {D V : Type 0} (j : Json D V) (frames : Frames) (stale : Stale) (k : Kernel W)
      (ev_terminate : W → ℕ × W) (fuel : Bytes → W → ℕ) (id : ℕ) (password : Bytes)
      (tcpc : TcpClient) where
    unfoldable pub fd_added : ℕ → Client W → Option (ℕ × Client W)
    fd_added zero c =
        process_a_logon j frames stale k ev_terminate fuel id password
          (record c { tcp_connected = true })
    fd_added (suc ret) c = some (suc ret, c)

    unfoldable pub connected : ℕ → Option TcpConnection → Client W → Option (ℕ × Client W)
    connected ret none c = some (ret, c)
    connected ret (some con) c =
        let (r, w) = add_fd con c.world in fd_added r (record c { con = con; world = w })

    unfoldable pub initialise_task : Client W → Option (ℕ × Client W)
    initialise_task c =
        let (ret, made, t, w) = connect k tcpc (start_timers c.world) in
        connected ret made (record c { world = w })

-- The events that the client handles; a number that `rand()` gives comes with its event.
pub data Event : Type 0 where
  startup idle_tmr load_tmr read exception write_latency other_event : Event
  settings_tmr : SettingsEvent → Event
  random_number : ℕ → Event
  console_input : Bytes → Event

-- The handlers that return a client and no result return `E_ev_no_error`.
unfoldable pub fine : {W : Type 0} → Option (Client W) → Option (ℕ × Client W)
fine none = none
fine (some c) = some (0, c)

module _ {W D V : Type 0} (e : Engine W) (j : Json D V) (frames : Frames) (stale : Stale)
    (k : Kernel W) (ev_terminate : W → ℕ × W) (fuel : Bytes → W → ℕ) (id : ℕ) (password : Bytes)
    (tcpc : TcpClient) (heartbeat : Bytes) (as_response : NewOrderRequest → NewOrderResponse)
    (decode : Bytes → Message) (tmr_load_add : ℕ → W → ℕ × W) (opens : W → Bool) (rounds : ℕ) where
  unfoldable pub fsm_initialise : Event → Console W → Option (ℕ × Console W)
  fsm_initialise startup s =
      on_client s (initialise_task e j frames stale k ev_terminate fuel id password tcpc s.client)
  fsm_initialise idle_tmr s =
      on_client s (fine (process_idle_tmr k ev_terminate fuel heartbeat s.client))
  fsm_initialise load_tmr s = on_client s (
      fine (
        process_load_tmr k ev_terminate fuel frames.new_order as_response tmr_load_add rounds
          s.client))
  fsm_initialise (settings_tmr event) s =
      let c = s.client in on_client s (some (0, record c { load = fsm_settings event c.load }))
  fsm_initialise (random_number n) s =
      let c = s.client in on_client s (some (0, record c { load = process_random_no n c.load }))
  fsm_initialise read s = on_client s (some (tcp_read decode k ev_terminate s.client))
  fsm_initialise exception s = some (0, s)
  fsm_initialise write_latency s =
      let c = s.client in m_latency_done s (write_latency_file (opens c.world) rounds s.m_latency)
  fsm_initialise other_event s = some (0, s)
  fsm_initialise (console_input buf) s =
      console_read j stale frames k ev_terminate fuel tmr_load_add opens rounds buf s
