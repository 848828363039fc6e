-- ===== src/Client/Console.antt =====
-- src/binary_gateway_load_test_client.cpp: the commands of the console. The reply of each is its result,
-- always that of `E_ev_no_error` but for `Q`.
use core_connect_binary.Base.{
  ℕ, true, Option, none, some, List, [], ◌∷◌, ◌++◌, if◌then◌else◌, Bytes, is_command, Bool,
}
use core_connect_binary.Base.Int.{pos}
use core_connect_binary.Kernel.{Kernel}
use core_connect_binary.Latency.Defs.{Latency, set_display_range, calc_file}
use core_connect_binary.Client.Json.{Json, member_or, document}
use core_connect_binary.Client.Session.{NewOrderRequest, Client}
use core_connect_binary.Client.Sending.{terminate}
use core_connect_binary.Client.Structures.{process_json_structures}
use core_connect_binary.Client.Setup.{process_a_new_order}
use core_connect_binary.Client.Requests.{
  Frames, Stale, bulk_request, process_a_modify_order, process_a_cancel_order,
  process_a_cancel_all_orders, process_working_orders, process_get_fills, process_a_logoff,
}

-- The client with its latencies and the global object `x` of latencies, and the threads of `write_bulk_new_orders` that were
-- started: the order and the number of loops of each.
pub record Console (W : Type 0) : Type 0 where
  pub client : Client W
  pub m_latency : Latency
  pub latency : Latency
  pub bulk : List (NewOrderRequest × ℕ)

-- `check_set`, but for its output.
unfoldable pub check_set : {W : Type 0} → Client W → Client W
check_set c = let o = c.orders in record c { orders = record o { user_tags = [] } }

-- `do_latency` and `write_latency_file`, but for what they write; `opens` tells whether the file does, and
-- `rounds` is for the loop of `calc`.
unfoldable pub do_latency : Bool → ℕ → Latency → Option Latency
do_latency opens rounds l = calc_file opens rounds true l

unfoldable pub write_latency_file : Bool → ℕ → Latency → Option Latency
write_latency_file opens rounds l = calc_file opens rounds true (set_display_range (pos 5) l)

abbrev pub latency_done : {W : Type 0} → Console W → Option Latency → Option (ℕ × Console W)
latency_done s none = none
latency_done s (some l) = some (0, record s { latency = l })

abbrev pub m_latency_done : {W : Type 0} → Console W → Option Latency → Option (ℕ × Console W)
m_latency_done s none = none
m_latency_done s (some l) = some (0, record s { m_latency = l })

-- A command for the client alone.
unfoldable pub on_client : {W : Type 0} → Console W → Option (ℕ × Client W) → Option (ℕ × Console W)
on_client s none = none
on_client s (some (ret, c)) = some (ret, record s { client = c })

module _ {D V : Type 0} (j : Json D V) (stale : Stale) where
  unfoldable pub start_bulk : {W : Type 0} → Option D → Console W → Console W
  start_bulk none s = s
  start_bulk (some doc) s = record s {
    bulk = s.bulk ++ (bulk_request j stale.new_order doc, member_or j 1 "Loops" doc) ∷ [];
  }

  unfoldable pub process_a_new_order_bulk : {W : Type 0} → Bytes → Console W → Console W
  process_a_new_order_bulk buf s = start_bulk (document j buf) s

  module _ (frames : Frames) {W : Type 0} (k : Kernel W) (ev_terminate : W → ℕ × W)
      (fuel : Bytes → W → ℕ) (tmr_load_add : ℕ → W → ℕ × W) (opens : W → Bool) (rounds : ℕ) where
    -- `S` and `?` only print, as does an unknown command; the body of `process_a_cancel_replace` is a
    -- comment.
    unfoldable pub console_read : Bytes → Console W → Option (ℕ × Console W)
    console_read buf s =
        if is_command b'Q' buf
        then on_client s (some (terminate k ev_terminate fuel s.client))
        else if is_command b'L' buf
        then on_client s (process_a_logoff j frames stale k ev_terminate fuel s.client)
        else if is_command b'N' buf
        then on_client s (some (0, process_a_new_order j tmr_load_add buf s.client))
        else if is_command b'M' buf
        then on_client s (process_a_modify_order j frames stale k ev_terminate fuel buf s.client)
        else if is_command b'C' buf
        then on_client s (process_a_cancel_order j frames stale k ev_terminate fuel buf s.client)
        else if is_command b'A' buf
        then on_client s
            (process_a_cancel_all_orders j frames stale k ev_terminate fuel buf s.client)
        else if is_command b'R' buf
        then some (0, s)
        else if is_command b'W' buf
        then on_client s (process_working_orders j frames stale k ev_terminate fuel buf s.client)
        else if is_command b'F' buf
        then on_client s (process_get_fills j frames stale k ev_terminate fuel buf s.client)
        else if is_command b'B' buf
        then some (0, process_a_new_order_bulk buf s)
        else if is_command b'Y' buf
        then latency_done s (do_latency (opens (let c = s.client in c.world)) rounds s.latency)
        else if is_command b'V' buf
        then on_client s (some (0, check_set s.client))
        else if is_command b'j' buf
        then on_client s (process_json_structures j k ev_terminate fuel buf s.client)
        else some (0, s)
