-- ===== src/Sample/Start.antt =====
-- src/sample_test_client_moonx.cpp: the start of the client, and its events. The event engine is a
-- parameter; the two `tcp_client` objects, which are used nowhere else, have their hosts and ports
-- set. The seed of `rand()` and the calibration of the cycle counter are left out.
use core_connect_binary.Base.{ℕ, zero, suc, Bool, true, false, Option, none, some, [], ◌∷◌, Bytes}
use core_connect_binary.Base.Int.{ℤ, pos}
use core_connect_binary.Kernel.{Kernel}
use core_connect_binary.Latency.Defs.{Latency, set_display_range, calc_file}
use core_connect_binary.Framer.Defs.{generic_framer}
use core_connect_binary.Tcp.Connection.{TcpConnection}
use core_connect_binary.Tcp.Client.{TcpClient, connect}
use core_connect_binary.Sample.Session.{Last, Sample}
use core_connect_binary.Sample.Prompts.{Cin}
use core_connect_binary.Sample.Sending.{process_a_logon, process_idle_tmr}
use core_connect_binary.Sample.Console.{console_read}
use core_connect_binary.Sample.Receiving.{tcp_read, tcp_read_mdg}

-- What a descriptor is watched for, and the event that it gives.
pub data FdType : Type 0 where
  ev_fd_type_read ev_fd_type_except : FdType

pub data FdEvent : Type 0 where
  ev_tcp_read ev_tcp_exception ev_tcp_read_mdg ev_tcp_exception_mdg : FdEvent

-- The calls of the event engine: the idle timer, a watched descriptor, and a command sent to itself.
pub record Engine (W : Type 0) : Type 0 where
  pub tmr_add_idle : W → ℕ × W
  pub fd_add : ℤ → FdType → FdEvent → W → ℕ × W
  pub send_input : Bytes → W → W

-- The events that the client handles.
pub data Event : Type 0 where
  startup idle_tmr read read_mdg exception write_latency other_event : Event
  console_input : Bytes → Event

abbrev pub latency_done : {W : Type 0} → Sample W → Option Latency → Option (ℕ × Sample W)
latency_done c none = none
latency_done c (some l) = some (0, record c { latency = l })

-- `write_latency_file`, but for what it writes; `opens` tells whether the file does, and `rounds` is for
-- the loop of `calc`.
unfoldable pub write_latency_file : {W : Type 0} → Bool → ℕ → Sample W → Option (ℕ × Sample W)
write_latency_file opens rounds c =
    latency_done c (calc_file opens rounds true (set_display_range (pos 5) c.latency))

-- The constructor, on what the members hold that it leaves alone: the connections, the tag, the latencies
-- and the last requests. `storage` is what `new` returns for the framer's buffers.
unfoldable pub sample_test_client_moonx :
    {W : Type 0} → (ℕ → Bytes) → TcpConnection → TcpConnection → ℕ → Latency → Last → W → Sample W
sample_test_client_moonx storage con mdg_con user_tag latency last w = record {
  con = con;
  mdg_con = mdg_con;
  framer = generic_framer storage 2 1024;
  world = w;
  tcp_connected = false;
  tcp_rx_idle_count = 0;
  tcp_tx_idle_count = 0;
  user_tag = user_tag;
  session = record { user_tags = []; logon_response = false; idle_count = 0 };
  latency = latency;
  last = last;
}

module _ {W : Type 0} (e : Engine W) where
  unfoldable pub add_except : ℕ → ℤ → W → ℕ × W
  add_except zero fd w = e.fd_add fd ev_fd_type_except ev_tcp_exception w
  add_except (suc ret) fd w = (suc ret, w)

  -- Both connections are watched for the same two events.
  unfoldable pub add_fd : TcpConnection → W → ℕ × W
  add_fd con w =
      let (ret, w1) = e.fd_add con.fd ev_fd_type_read ev_tcp_read w in add_except ret con.fd w1

  unfoldable pub mdg_added : ℕ → Sample W → Sample W
  mdg_added zero c = record c { tcp_connected = true }
  mdg_added (suc ret) c = c

  unfoldable pub mdg_made : Option TcpConnection → Sample W → Sample W
  mdg_made none c = c
  mdg_made (some con) c =
      let (ret, w) = add_fd con c.world in mdg_added ret (record c { mdg_con = con; world = w })

  unfoldable pub show_menu : Bool → Sample W → Sample W
  show_menu true c = record c { world = e.send_input (b'?' ∷ []) c.world }
  show_menu false c = c

  module _ (k : Kernel W) (ev_terminate : W → ℕ × W) (fuel : Bytes → W → ℕ) where
    unfoldable pub start_mdg : TcpClient → Sample W → Sample W
    start_mdg mdg_tcpc c =
        let (ret, made, t, w) = connect k mdg_tcpc c.world in mdg_made made (record c { world = w })

    -- The second half of `initialise_task`; it returns `E_ev_no_error`.
    unfoldable pub then_mdg : TcpClient → Option (ℕ × Sample W) → Option (ℕ × Sample W)
    then_mdg mdg_tcpc none = none
    then_mdg mdg_tcpc (some (ret, c)) =
        let d = start_mdg mdg_tcpc c in some (0, show_menu d.tcp_connected d)

    module _ (gateway_client_id : ℕ) (password : Bytes) (tcpc mdg_tcpc : TcpClient) where
      unfoldable pub gateway_added : ℕ → Sample W → Option (ℕ × Sample W)
      gateway_added zero c =
          process_a_logon k ev_terminate fuel gateway_client_id password
            (record c { tcp_connected = true })
      gateway_added (suc ret) c = some (suc ret, c)

      unfoldable pub gateway_made : Option TcpConnection → Sample W → Option (ℕ × Sample W)
      gateway_made none c = some (0, c)
      gateway_made (some con) c =
          let (ret, w) = add_fd con c.world in gateway_added ret (record c { con = con; world = w })

      unfoldable pub initialise_task : Sample W → Option (ℕ × Sample W)
      initialise_task c =
          let (idle, w) = e.tmr_add_idle c.world in
          let (ret, made, t, w1) = connect k tcpc w in
          then_mdg mdg_tcpc (gateway_made made (record c { world = w1 }))

      unfoldable pub fsm_initialise :
          Bytes → Cin W → (W → W) → (W → Bool) → ℕ → Event → Sample W → Option (ℕ × Sample W)
      fsm_initialise behind cin get_instruments opens rounds startup c = initialise_task c
      fsm_initialise behind cin get_instruments opens rounds idle_tmr c =
          process_idle_tmr k ev_terminate fuel c
      fsm_initialise behind cin get_instruments opens rounds read c =
          some (tcp_read behind k ev_terminate c)
      fsm_initialise behind cin get_instruments opens rounds read_mdg c =
          some (tcp_read_mdg behind k ev_terminate c)
      fsm_initialise behind cin get_instruments opens rounds exception c = some (0, c)
      fsm_initialise behind cin get_instruments opens rounds write_latency c =
          write_latency_file (opens c.world) rounds c
      fsm_initialise behind cin get_instruments opens rounds other_event c = some (0, c)
      fsm_initialise behind cin get_instruments opens rounds (console_input buf) c =
          console_read k ev_terminate fuel cin get_instruments buf c
