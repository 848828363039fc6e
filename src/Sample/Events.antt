-- ===== src/Sample/Events.antt =====
-- src/sample_test_client_moonx.cpp: the client over a sequence of events.
use core_connect_binary.Base.{
  ℕ, zero, suc, ◌≡◌, refl, ap, ◌∙◌, Bool, true, false, Option, none, some, List, [], ◌∷◌, Bytes,
  length, arith,
}
use core_connect_binary.Kernel.{Kernel}
use core_connect_binary.Framer.Defs.{GenericFramer, generic_framer}
use core_connect_binary.Framer.Streams.{generic_framer-IsFramer}
use core_connect_binary.Latency.Defs.{Latency}
use core_connect_binary.Tcp.Connection.{TcpConnection}
use core_connect_binary.Tcp.Client.{TcpClient, connect}
use core_connect_binary.Tcp.WriteData.{IsPosix}
use core_connect_binary.Sample.Session.{Last, Sample}
use core_connect_binary.Sample.Prompts.{Cin}
use core_connect_binary.Sample.Sending.{process_a_logon}
use core_connect_binary.Sample.Returns.{enough_fuel, console_read-Ended}
use core_connect_binary.Sample.Start.{
  Engine, Event, startup, idle_tmr, read, read_mdg, exception, write_latency, other_event,
  console_input, write_latency_file, sample_test_client_moonx, add_fd, mdg_added, mdg_made,
  show_menu, start_mdg, then_mdg, gateway_added, gateway_made, initialise_task, fsm_initialise,
}
use core_connect_binary.Latency.Defs.{calc_file}
use core_connect_binary.Sample.Steps.{
  IsReady, Done, Same, Done-Same, Same-Ended, tcp_read-IsReady, tcp_read_mdg-IsReady, ignored-Same,
  idle-Same,
}

two_streams :
    (storage : ℕ → Bytes) → (let f = generic_framer storage 2 1024 in f.number_of_streams) ≡ 2
unfolding generic_framer
two_streams storage = refl

-- A change of the client that does not touch its framer.
module _ {W : Type 0} (e : Engine W) where
  mdg_added-framer : (ret : ℕ) (c : Sample W) → (mdg_added e ret c).framer ≡ c.framer
  unfolding mdg_added
  mdg_added-framer zero c = refl
  mdg_added-framer (suc ret) c = refl

  mdg_made-framer : (o : Option TcpConnection) (c : Sample W) → (mdg_made e o c).framer ≡ c.framer
  unfolding mdg_made
  mdg_made-framer none c = refl
  mdg_made-framer (some con) c = mdg_added-framer (add_fd e con c.world).0 _

  show_menu-framer : (b : Bool) (c : Sample W) → (show_menu e b c).framer ≡ c.framer
  unfolding show_menu
  show_menu-framer true c = refl
  show_menu-framer false c = refl

  module _ (k : Kernel W) (p : IsPosix k) (ev_terminate : W → ℕ × W) where
    abbrev fuel : Bytes → W → ℕ
    fuel = enough_fuel k p ev_terminate

    then_mdg-Same :
        (mdg_tcpc : TcpClient) (f : GenericFramer) (o : Option (ℕ × Sample W))
        → Same f o
        → Same f (then_mdg e k ev_terminate fuel mdg_tcpc o)
    unfolding then_mdg start_mdg
    then_mdg-Same mdg_tcpc f o (ret, m, ends, same) =
        let (r, made, t, w) = connect k mdg_tcpc m.world in
        let d = mdg_made e made (record m { world = w }) in
        (
          0,
          show_menu e d.tcp_connected d,
          ap (then_mdg e k ev_terminate fuel mdg_tcpc) ends,
          show_menu-framer d.tcp_connected d ∙ mdg_made-framer made (record m { world = w }) ∙ same,
        )

    module _ (id : ℕ) (password : Bytes) (tcpc mdg_tcpc : TcpClient) where
      gateway_added-Same :
          (ret : ℕ) (c : Sample W)
          → Same c.framer (gateway_added e k ev_terminate fuel id password tcpc mdg_tcpc ret c)
      unfolding gateway_added process_a_logon
      gateway_added-Same zero c =
          ignored-Same k p ev_terminate _ (record c { tcp_connected = true })
      gateway_added-Same (suc ret) c = (suc ret, c, refl, refl)

      gateway_made-Same :
          (o : Option TcpConnection) (c : Sample W)
          → Same c.framer (gateway_made e k ev_terminate fuel id password tcpc mdg_tcpc o c)
      unfolding gateway_made
      gateway_made-Same none c = (0, c, refl, refl)
      gateway_made-Same (some con) c =
          let (ret, w) = add_fd e con c.world in
          gateway_added-Same ret (record c { con = con; world = w })

      initialise_task-Same :
          (c : Sample W)
          → Same c.framer (initialise_task e k ev_terminate fuel id password tcpc mdg_tcpc c)
      unfolding initialise_task
      initialise_task-Same c =
          let (idle, w) = e.tmr_add_idle c.world in
          let (ret, made, t, w1) = connect k tcpc w in
          then_mdg-Same mdg_tcpc c.framer _ (gateway_made-Same made (record c { world = w1 }))

      module _ (behind : Bytes) (cin : Cin W) (get_instruments : W → W) (opens : W → Bool)
          (rounds : ℕ) (shut : (w : W) → opens w ≡ false) where
        fsm_initialise-Done :
            (max : ℕ) (event : Event) (c : Sample W)
            → IsReady max c.framer
            → Done max (
                fsm_initialise e k ev_terminate fuel id password tcpc mdg_tcpc behind cin
                  get_instruments opens rounds event c)
        unfolding fsm_initialise write_latency_file calc_file
        fsm_initialise-Done max startup c v = Done-Same max c.framer _ v (initialise_task-Same c)
        fsm_initialise-Done max idle_tmr c v =
            Done-Same max c.framer _ v (idle-Same k p ev_terminate c)
        fsm_initialise-Done max read c v =
            (_, _, refl, tcp_read-IsReady behind max k ev_terminate c v)
        fsm_initialise-Done max read_mdg c v =
            (_, _, refl, tcp_read_mdg-IsReady behind max k ev_terminate c v)
        fsm_initialise-Done max exception c v = (0, c, refl, v)
        fsm_initialise-Done max write_latency c v =
            (_, _, ap (λ b. write_latency_file b rounds c) (shut c.world), v)
        fsm_initialise-Done max other_event c v = (0, c, refl, v)
        fsm_initialise-Done max (console_input buf) c v =
            Done-Same max c.framer _ v
              (Same-Ended c _ (console_read-Ended k p ev_terminate cin get_instruments buf c))

        abbrev and_then : Option (ℕ × Sample W) → (Sample W → Option (Sample W)) → Option (Sample W)
        and_then none f = none
        and_then (some (ret, c)) f = f c

        -- The events one after the other.
        abbrev pub run_events : List Event → Sample W → Option (Sample W)
        run_events [] c = some c
        run_events (event ∷ events) c =
            and_then
              (fsm_initialise e k ev_terminate fuel id password tcpc mdg_tcpc behind cin
                get_instruments opens rounds event c)
              (λ d. run_events events d)

        -- From a client with a valid framer of two streams, any sequence of events is handled to its
        -- end, and the framer is valid again, with its two streams.
        run_events-Done :
            (max : ℕ) (events : List Event) (c : Sample W)
            → IsReady max c.framer
            → (m : Sample W) × (run_events events c ≡ some m) × IsReady max m.framer
        run_events-Done max [] c v = (c, refl, v)
        run_events-Done max (event ∷ events) c v =
            let (ret, d, ends, w) = fsm_initialise-Done max event c v in
            let (m, rest, u) = run_events-Done max events d w in
            (m, ap (λ o. and_then o (λ d. run_events events d)) ends ∙ rest, u)

        -- Over a system whose write does what POSIX says, with fuel for every byte and interruption, when
        -- `new` returns buffers of the requested size, and with connection objects in place of the null
        -- pointers that stand there until a connection is made: from the constructor on, any sequence of
        -- events - the start, timers, data of both connections whatever it is, commands of the console -
        -- is handled to its end, each handler returning if the file for the latencies does not open, and the framer is then valid for frames of 1024
        -- bytes, with its two streams.
        pub run_events-sample_test_client_moonx :
            (storage : ℕ → Bytes) (con mdg_con : TcpConnection) (user_tag : ℕ) (latency : Latency)
            (last : Last) (w : W) (events : List Event)
            → ((n : ℕ) → length (storage n) ≡ n)
            → (m : Sample W) × (run_events events
                  (sample_test_client_moonx storage con mdg_con user_tag latency last w)
                ≡ some m)
              × IsReady 1024 m.framer
        unfolding sample_test_client_moonx
        run_events-sample_test_client_moonx storage con mdg_con user_tag latency last w events
              sized =
            run_events-Done 1024 events
              (sample_test_client_moonx storage con mdg_con user_tag latency last w)
              (generic_framer-IsFramer storage 2 1024 sized (omega arith), two_streams storage)
