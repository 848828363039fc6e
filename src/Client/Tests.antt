-- ===== src/Client/Tests.antt =====
-- Runs of the client.
use core_connect_binary.Base.{
  ℕ, refl, true, false, List, [], ◌∷◌, Bytes, replicate, ◌==◌, if◌then◌else◌,
}
use core_connect_binary.Base.Int.{pos}
use core_connect_binary.Kernel.{other_errno}
use core_connect_binary.Kernel.Sample.{World, world}
use core_connect_binary.Tcp.Connection.{tcp_connection}
use core_connect_binary.Framer.Defs.{StreamControl, hdr1}
use core_connect_binary.Client.Timers.{
  Load, LoadSettings, load_settings_timer, load_settings_timer_mediumops,
  load_settings_timer_highops,
}
use core_connect_binary.Client.Levels.{Active, fsm_run, medium_run, high_run, fsm_run-Active}
use core_connect_binary.Client.Session.{NewOrderRequest, NewOrderResponse, Client}
use core_connect_binary.Client.Receiving.{Message, new_order_response, other_message}

abbrev pub settings : LoadSettings
settings = record {
  low_ops = 10;
  low_ops_duration = 1;
  low_ops_interval = 2;
  medium_ops = 50;
  medium_ops_duration = 3;
  medium_ops_interval = 4;
  high_ops = 200;
  high_ops_duration = 5;
  high_ops_interval = 6;
}

abbrev pub load : Load
load = record {
  settings = settings;
  low_timer_state = 0;
  medium_timer_state = 0;
  high_timer_state = 0;
  number_in_batch = 10;
  tmr_interval_msecs = 1000;
  timers = [];
}

load-Active : Active false false settings 1000 load
load-Active = record {
  low_off = refl;
  medium_on = refl;
  high_on = refl;
  same_settings = refl;
  same_interval = refl;
  batch = refl;
}

fsm_run-Active_example :
    let es =
      load_settings_timer ∷ load_settings_timer_highops ∷ load_settings_timer_mediumops ∷ [] in
    Active (medium_run es false) (high_run es false) settings 1000 (fsm_run es load)
fsm_run-Active_example =
    fsm_run-Active
      (load_settings_timer ∷ load_settings_timer_highops ∷ load_settings_timer_mediumops ∷ []) false
      false settings 1000 load load-Active

abbrev pub stream : StreamControl
stream = record {
  max_rx_frame_length = 8;
  rx_frame_state = hdr1;
  rx_len = 0;
  required_len = 0;
  rx_buf = replicate 8 0;
}

abbrev pub quiet : World
quiet = world [] 1 other_errno

abbrev pub client : Client World
client = record {
  con = record (tcp_connection (pos 8192) (pos 8192)) { fd = pos 5 };
  framer = record { sc = stream ∷ []; number_of_streams = 1 };
  world = quiet;
  tcp_connected = true;
  tcp_rx_idle_count = 4;
  tcp_tx_idle_count = 0;
  idle_count = 0;
  load = load;
  number_to_send = 3;
  number_users = 2;
  start_user_id = 7;
  user_tag = 100;
  counter = 0;
  orders = record { user_tags = 99 ∷ []; stats = record { ord_stats = []; req = []; res = [] } };
}

-- The end of the event loop is a byte of value 255 in front of what was written.
abbrev pub end_loop : World → ℕ × World
end_loop (world out n e) = (0, world (255 ∷ out) n e)

abbrev beat : Bytes
beat = 2 ∷ 0 ∷ 9 ∷ 9 ∷ []

abbrev encode : NewOrderRequest → Bytes
encode r = 2 ∷ 0 ∷ r.user_tag ∷ r.order_instrument_id ∷ []

abbrev as_response : NewOrderRequest → NewOrderResponse
as_response r = record { user_tag = r.user_tag; status_id = 0 }

abbrev decode : Bytes → Message
decode [] = other_message
decode (kind ∷ []) = other_message
decode (kind ∷ tag ∷ rest) =
    if kind == 3
    then new_order_response (record { user_tag = tag; status_id = 0 })
    else other_message

abbrev payloads : List Bytes
payloads = (3 ∷ 99 ∷ []) ∷ (4 ∷ 4 ∷ 4 ∷ []) ∷ []
