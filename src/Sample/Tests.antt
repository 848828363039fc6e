-- ===== src/Sample/Tests.antt =====
-- Runs of the sample client.
use core_connect_binary.Base.{
  ℕ, ◌≡◌, refl, true, false, some, List, [], ◌∷◌, map, arith, replicate, length-replicate,
  get_elem?, Bytes,
}
use core_connect_binary.Base.Int.{pos}
use core_connect_binary.Kernel.{Kernel, other_errno}
use core_connect_binary.Kernel.Sample.{World, world, test_kernel}
use core_connect_binary.Tcp.Sample.{test_kernel-IsPosix}
use core_connect_binary.Tcp.Connection.{tcp_connection, read_data}
use core_connect_binary.Tcp.Client.{tcp_client}
use core_connect_binary.Sample.Start.{
  Engine, Event, sample_test_client_moonx, startup, idle_tmr, read, read_mdg, console_input,
}
use core_connect_binary.Sample.Steps.{IsReady}
use core_connect_binary.Sample.Events.{run_events, run_events-sample_test_client_moonx}
use core_connect_binary.Framer.Defs.{StreamControl, GenericFramer, hdr1}
use core_connect_binary.Framer.Refine.{IsValid}
use core_connect_binary.Framer.Frames.{frames}
use core_connect_binary.Api.Layout.{num}
use core_connect_binary.Api.Messages.{ses_not}
use core_connect_binary.Api.Frames.{binary_frames}
use core_connect_binary.Sample.Session.{Last, Sample}
use core_connect_binary.Sample.Prompts.{Cin}
use core_connect_binary.Sample.Console.{console_read}
use core_connect_binary.Sample.Returns.{enough_fuel, Ended, console_read-Ended}
use core_connect_binary.Sample.Receiving.{process_rx_frame, parsed, tcp_read_mdg}
use core_connect_binary.Sample.Dispatch.{
  Answer, logon_answer, order_answer, other_answer, sent, noted_all, parsed-noted_all,
  tcp_read_mdg-kept,
}

abbrev stream : StreamControl
stream = record {
  max_rx_frame_length = 1024;
  rx_frame_state = hdr1;
  rx_len = 0;
  required_len = 0;
  rx_buf = replicate 1024 0;
}

stream-IsValid : IsValid 1024 stream
stream-IsValid = record {
  stored = record { limit = refl; buffer = refl; least = omega arith; small = omega arith };
  counted = tt;
}

abbrev last : Last
last = record {
  new_order = record {
    user_id = 0;
    user_tag = 0;
    order_instrument_id = 0;
    order_type = 0;
    order_time_in_force = 0;
    order_side = 0;
    order_execution_type = 0;
    order_quantity = 0;
    order_disclosed_quantity = 0;
    order_price = 0;
    market_price_protection_ticks = 0;
    order_trigger_price = 0;
    trigger_on = 0;
  };
  modify_order = record {
    user_id = 0;
    user_tag = 0;
    exchange_order_id = 0;
    order_quantity_remaining = 0;
    order_type = 0;
    order_time_in_force = 0;
    order_execution_type = 0;
    order_quantity = 0;
    order_disclosed_quantity = 0;
    order_price = 0;
    market_price_protection_ticks = 0;
    order_trigger_price = 0;
    trigger_on = 0;
  };
  cancel_order = record { user_id = 0; user_tag = 0; exchange_order_id = 0 };
  cancel_all_orders = record { user_id = 0; user_tag = 0; cancel_gtc = 0 };
  modify_leverage = record { user_id = 0; user_tag = 0; instrument_id = 0; leverage = 0 };
  working_orders = record { user_id = 0; user_tag = 0 };
  fill = record { user_id = 0; user_tag = 0 };
}

abbrev sample : Sample World
sample = record {
  con = record (tcp_connection (pos 8192) (pos 8192)) { fd = pos 5 };
  mdg_con = record (tcp_connection (pos 8192) (pos 8192)) { fd = pos 6 };
  framer = record { sc = stream ∷ stream ∷ []; number_of_streams = 2 };
  world = world [] 1 other_errno;
  tcp_connected = true;
  tcp_rx_idle_count = 0;
  tcp_tx_idle_count = 0;
  user_tag = 77;
  session = record { user_tags = 5 ∷ 6 ∷ []; logon_response = false; idle_count = 3 };
  latency = record {
    counters = λ i. 0;
    under = 0;
    over = 0;
    total_count = 0;
    total_time = pos 0;
    display_range = 50;
  };
  last = last;
}

abbrev end_loop : World → ℕ × World
end_loop w = (0, w)

-- Every number is 3, every character y.
abbrev answers : Cin World
answers = record { read_ulong = λ w. (3, w); read_long = λ w. (3, w); read_char = λ w. (b'y', w) }

abbrev messages : List Answer
messages =
    logon_answer 0 1000
    ∷ order_answer 3 6 40 41 0 1001
    ∷ other_answer ses_not 511 (num 1 ∷ num 2 ∷ [])
    ∷ []

parsed-noted_all_example :
    (f : GenericFramer) × (parsed
        (1 ∷ [])
        test_kernel
        end_loop
        0
        (binary_frames (process_rx_frame (1 ∷ [])) 0 (map sent messages))
        sample
      ≡ (0, record sample { framer = f; session = noted_all messages sample.session }))
parsed-noted_all_example =
    parsed-noted_all (1 ∷ []) test_kernel end_loop 1024 stream sample messages (omega arith) refl
      stream-IsValid refl (omega arith)
      (
        omega arith,
        (
          omega arith,
          ((omega arith, λ e. absurd (omega (arith, e)), λ e. absurd (omega (arith, e))), tt),
        ),
      )

noted :
    noted_all messages sample.session
    ≡ record { user_tags = 5 ∷ []; logon_response = true; idle_count = 0 }
noted = refl

abbrev mdg_bytes : Bytes
mdg_bytes = frames (process_rx_frame []) 0 1 ((6 ∷ 0 ∷ 1 ∷ []) ∷ [])

-- A frame of the market data comes in.
abbrev mdg_kernel : Kernel World
mdg_kernel = record test_kernel { read_fd = λ fd n w. ((pos 5, mdg_bytes), w) }

mdg_reads :
    read_data mdg_kernel false (pos 32768) sample.mdg_con sample.world
    ≡ (0, 5, mdg_bytes, record sample.mdg_con { bytes_rxed = 5 }, sample.world)
unfolding read_data tcp_connection
mdg_reads = refl

tcp_read_mdg-kept_example :
    (f : GenericFramer) × (tcp_read_mdg [] mdg_kernel end_loop sample ≡ (
      0,
      record sample {
        mdg_con = record sample.mdg_con { bytes_rxed = 5 };
        world = sample.world;
        tcp_rx_idle_count = 0;
        framer = f;
      },
    ))
    × (get_elem? f.sc 0 ≡ some stream)
tcp_read_mdg-kept_example =
    tcp_read_mdg-kept [] mdg_kernel end_loop 1024 stream sample ((6 ∷ 0 ∷ 1 ∷ []) ∷ []) 5
      (record sample.mdg_con { bytes_rxed = 5 }) sample.world mdg_reads (omega arith) refl
      stream-IsValid refl (omega arith, omega arith, omega arith, tt)

console_read-Ended_example : Ended sample (
    console_read test_kernel end_loop
      (enough_fuel test_kernel test_kernel-IsPosix end_loop)
      answers
      (λ w. w)
      (b'3' ∷ [])
      sample)
console_read-Ended_example =
    console_read-Ended test_kernel test_kernel-IsPosix end_loop answers (λ w. w) (b'3' ∷ []) sample

abbrev engine : Engine World
engine = record {
  tmr_add_idle = λ w. (0, w);
  fd_add = λ fd type event w. (0, w);
  send_input = λ buf w. w;
}

abbrev events : List Event
events = startup ∷ idle_tmr ∷ read ∷ console_input (b'4' ∷ []) ∷ read_mdg ∷ []

run_events-sample_test_client_moonx_example :
    (m : Sample World) × (run_events engine test_kernel test_kernel-IsPosix end_loop 513
        (b'p' ∷ [])
        (tcp_client (pos 8192) (pos 8192))
        (tcp_client (pos 8192) (pos 8192))
        []
        answers
        (λ w. w)
        (λ w. false)
        10
        (λ w. refl)
        events
        (sample_test_client_moonx
          (λ n. replicate n 0)
          sample.con
          sample.mdg_con
          77
          sample.latency
          last
          sample.world)
      ≡ some m)
    × IsReady 1024 m.framer
run_events-sample_test_client_moonx_example =
    run_events-sample_test_client_moonx engine test_kernel test_kernel-IsPosix end_loop 513
      (b'p' ∷ []) (tcp_client (pos 8192) (pos 8192)) (tcp_client (pos 8192) (pos 8192)) [] answers
      (λ w. w) (λ w. false) 10 (λ w. refl) (λ n. replicate n 0) sample.con sample.mdg_con 77
      sample.latency last sample.world events (λ n. length-replicate n 0)
