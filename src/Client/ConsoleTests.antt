-- ===== src/Client/ConsoleTests.antt =====
-- Runs of the console of the load test client.
use Prim.Native.String.{String}
use core_connect_binary.Base.{
  ℕ, ◌≡◌, refl, false, Option, none, some, List, [], ◌∷◌, take, if◌then◌else◌, Bytes, arith,
  le_bytes, c_string, true,
}
use core_connect_binary.Base.Int.{pos}
use core_connect_binary.Kernel.Sample.{World, test_kernel}
use core_connect_binary.Tcp.Sample.{test_kernel-IsPosix}
use core_connect_binary.Client.Json.{Json, member_or}
use core_connect_binary.Client.Session.{Client, NewOrderRequest}
use core_connect_binary.Client.Timers.{
  load_settings_timer, load_settings_timer_mediumops, load_settings_timer_highops,
}
use core_connect_binary.Client.Levels.{Active, fsm_run, medium_run, high_run}
use core_connect_binary.Client.Structures.{is_text, kind, structure}
use core_connect_binary.Client.Fields.{fields, total, structure-fields}
use core_connect_binary.Client.Setup.{settings_of, load_of, interval_of}
use core_connect_binary.Client.Loaded.{load_of-Active}
use core_connect_binary.Client.Requests.{Frames, Stale}
use core_connect_binary.Client.Watch.{enough_fuel}
use core_connect_binary.Client.Console.{Console, console_read}
use core_connect_binary.Client.Commands.{ConsoleEnded, console_read-ConsoleEnded}
use core_connect_binary.Latency.Defs.{Latency, million}
use core_connect_binary.Tcp.Client.{tcp_client}
use core_connect_binary.Client.Start.{Engine, initialise_task}
use core_connect_binary.Client.Started.{Started, initialise_task-Started}
use core_connect_binary.Client.Tests.{load, client, end_loop}

-- Values are a number and a text, documents lists.
abbrev Val : Type 0
Val = ℕ × Bytes

abbrev Doc : Type 0
Doc = List (String × Val)

abbrev find : Doc → String → Option Val
find [] key = none
find ((name, v) ∷ ms) key = if is_text name key then some v else find ms key

abbrev logon : Doc
logon =
    ("MessageLength", (26, []))
    ∷ ("MessageType", (0, []))
    ∷ ("GatewayClientID", (513, []))
    ∷ ("Password", (0, b'p' ∷ b'w' ∷ []))
    ∷ []

abbrev json : Json Doc Val
json = record {
  parse = λ text. some logon;
  find_member = find;
  members = λ doc. doc;
  get_int = λ v. v.0;
  get_int64 = λ v. v.0;
  get_uint = λ v. v.0;
  get_uint64 = λ v. v.0;
  get_string = λ v. v.1;
}

structure-fields_example :
    (take (structure json (some logon)).1 (structure json (some logon)).0 ≡ fields json logon)
    × ((structure json (some logon)).1 ≡ total json logon)
unfolding kind
structure-fields_example = structure-fields json logon (omega arith) (omega arith)

logon_fields :
    fields json logon
    ≡ 26 ∷ 0 ∷ 0 ∷ 0 ∷ 1 ∷ 2 ∷ 0 ∷ 0 ∷ 0 ∷ 0 ∷ 0 ∷ 0 ∷ b'p' ∷ b'w' ∷ 0 ∷ 0 ∷ 0 ∷ 0 ∷ 0 ∷ 0 ∷ 0 ∷ 0
      ∷ 0 ∷ 0 ∷ 0 ∷ 0 ∷ 0 ∷ 0 ∷ []
unfolding kind le_bytes c_string
logon_fields = refl

abbrev test : Doc
test = ("NumberInBatch", (20, [])) ∷ ("MediumOps", (70, [])) ∷ []

load_of-Active_example :
    let es =
      load_settings_timer ∷ load_settings_timer_highops ∷ load_settings_timer_mediumops ∷ [] in
    Active
      (medium_run es false)
      (high_run es false)
      (settings_of json test)
      1000
      (fsm_run es (load_of json test load))
unfolding interval_of member_or
load_of-Active_example =
    load_of-Active json test load
      (load_settings_timer ∷ load_settings_timer_highops ∷ load_settings_timer_mediumops ∷ []) refl
      refl refl refl refl

abbrev frames : Frames
frames = record {
  logon = λ id password. 26 ∷ 0 ∷ id ∷ password;
  logoff = 2 ∷ 0 ∷ 1 ∷ 0 ∷ [];
  new_order = λ r. 2 ∷ 0 ∷ r.user_id ∷ r.user_tag ∷ [];
  modify_order = λ r. 2 ∷ 0 ∷ r.user_id ∷ r.user_tag ∷ [];
  cancel_order = λ r. 2 ∷ 0 ∷ r.user_id ∷ r.user_tag ∷ [];
  cancel_all_orders = λ r. 2 ∷ 0 ∷ r.user_id ∷ r.user_tag ∷ [];
  working_orders = λ r. 2 ∷ 0 ∷ r.user_id ∷ r.user_tag ∷ [];
  fill = λ r. 2 ∷ 0 ∷ r.user_id ∷ r.user_tag ∷ [];
}

abbrev order : NewOrderRequest
order = record {
  user_id = 1;
  user_tag = 2;
  order_instrument_id = 3;
  order_type = 0;
  order_side = 0;
  order_quantity = 0;
  order_disclosed_quantity = 0;
  trigger_on = 0;
  order_price = 0;
  order_trigger_price = 0;
  order_time_in_force = 0;
  market_price_protection_ticks = 0;
  order_execution_type = 0;
}

abbrev stale : Stale
stale = record {
  new_order = order;
  modify_order = record {
    user_id = 0;
    user_tag = 0;
    exchange_order_id = 0;
    order_quantity_remaining = 0;
    order_type = 0;
    order_time_in_force = 0;
    order_execution_type = 0;
    order_quantity = 0;
    order_disclosed_quantity = 0;
    order_price = 0;
    market_price_protection_ticks = 0;
    order_trigger_price = 0;
    trigger_on = 0;
  };
  cancel_order = record { user_id = 0; user_tag = 0; exchange_order_id = 0 };
  cancel_all_orders = record { user_id = 0; user_tag = 0; cancel_gtc = 0 };
  working_orders = record { user_id = 0; user_tag = 0 };
  fill = record { user_id = 0; user_tag = 0 };
}

abbrev latency : Latency
latency = record {
  counters = λ i. 0;
  under = 0;
  over = 0;
  total_count = 1;
  total_time = pos 0;
  display_range = 50;
}

abbrev console : Console World
console = record { client = client; m_latency = latency; latency = latency; bulk = [] }

abbrev timer : ℕ → World → ℕ × World
timer usecs w = (0, w)

console_read-ConsoleEnded_example : ConsoleEnded console (
    console_read json stale frames test_kernel end_loop
      (enough_fuel test_kernel test_kernel-IsPosix end_loop)
      timer
      (λ w. true)
      million
      (b'j' ∷ b'{' ∷ b'}' ∷ [])
      console)
console_read-ConsoleEnded_example =
    console_read-ConsoleEnded test_kernel test_kernel-IsPosix end_loop json frames stale timer
      (λ w. true) (b'j' ∷ b'{' ∷ b'}' ∷ []) console (omega arith) (omega arith)

abbrev new_client : Client World
new_client = record client { tcp_connected = false }

abbrev engine : Engine World
engine = record {
  tmr_add = λ timer event usecs w. (0, w);
  add_read = λ fd w. (0, w);
  add_except = λ fd w. (1017, w);
}

initialise_task-Started_example :
    Started test_kernel test_kernel-IsPosix end_loop engine json frames stale 513
      (b'p' ∷ [])
      (tcp_client (pos 8192) (pos 8192))
      (initialise_task engine json frames stale test_kernel end_loop
        (enough_fuel test_kernel test_kernel-IsPosix end_loop)
        513
        (b'p' ∷ [])
        (tcp_client (pos 8192) (pos 8192))
        new_client)
initialise_task-Started_example =
    initialise_task-Started test_kernel test_kernel-IsPosix end_loop engine json frames stale 513
      (b'p' ∷ []) (tcp_client (pos 8192) (pos 8192)) new_client refl
