-- ===== src/Client/Session.antt =====
-- src/binary_gateway_load_test_client.cpp: the connection to the gateway, the orders that are sent and
-- their responses. Parameters: `k`, the system calls; `ev_terminate` and `tmr_load_add` of the event
-- engine; `encode` and `decode`, the message layouts of binary_gateway_interface_messages.hpp, and
-- `as_response`, an order's bytes read as a response. `fuel` is for the loop of `write_data`. What is
-- logged or printed is left out; the `int`s are numbers.
use core_connect_binary.Base.{
  ℕ, suc, ◌+◌, ◌%◌, ◌^◌, Bool, false, ◌||◌, List, [], ◌∷◌, ◌++◌, ◌==◌, if◌then◌else◌,
}
use core_connect_binary.Framer.Defs.{GenericFramer}
use core_connect_binary.Tcp.Connection.{TcpConnection}
use core_connect_binary.Client.Timers.{Load}

-- `NEW_ORDER_REQUEST`, as far as the client fills it in.
pub record NewOrderRequest : Type 0 where
  pub user_id : ℕ
  pub user_tag : ℕ
  pub order_instrument_id : ℕ
  pub order_type : ℕ
  pub order_side : ℕ
  pub order_quantity : ℕ
  pub order_disclosed_quantity : ℕ
  pub trigger_on : ℕ
  pub order_price : ℕ
  pub order_trigger_price : ℕ
  pub order_time_in_force : ℕ
  pub market_price_protection_ticks : ℕ
  pub order_execution_type : ℕ

-- `NEW_ORDER_RESPONSE`, as far as the client reads it.
pub record NewOrderResponse : Type 0 where
  pub user_tag : ℕ
  pub status_id : ℕ

-- `InstruStats`
pub record InstruStats : Type 0 where
  pub order_type_stats : List (ℕ × ℕ)
  pub order_new_request : ℕ
  pub order_responses : ℕ
  pub order_errors : ℕ

-- `OrderStats`: a map is the list of its keys and values.
pub record OrderStats : Type 0 where
  pub ord_stats : List (ℕ × InstruStats)
  pub req : List (ℕ × NewOrderRequest)
  pub res : List (ℕ × NewOrderResponse)

module _ {A : Type 0} where
  -- `map[key]`, with `default` for a missing one.
  abbrev pub at : A → ℕ → List (ℕ × A) → A
  at default key [] = default
  at default key ((k, v) ∷ es) = if k == key then v else at default key es

  abbrev pub has_key : ℕ → List (ℕ × A) → Bool
  has_key key [] = false
  has_key key ((k, v) ∷ es) = k == key || has_key key es

  -- `map.insert`, which keeps the value of a key that is there.
  abbrev pub insert_new : ℕ → A → List (ℕ × A) → List (ℕ × A)
  insert_new key v es = if has_key key es then es else es ++ (key, v) ∷ []

  -- `f(map[key])` for a key that is there.
  abbrev pub update : ℕ → (A → A) → List (ℕ × A) → List (ℕ × A)
  update key f [] = []
  update key f ((k, v) ∷ es) =
      let rest = update key f es in if k == key then (k, f v) ∷ es else (k, v) ∷ rest

unfoldable pub no_stats : InstruStats
no_stats = record {
  order_type_stats = [];
  order_new_request = 0;
  order_responses = 0;
  order_errors = 0;
}

-- A value-initialised request, which `map[key]` makes.
unfoldable pub no_request : NewOrderRequest
no_request = record {
  user_id = 0;
  user_tag = 0;
  order_instrument_id = 0;
  order_type = 0;
  order_side = 0;
  order_quantity = 0;
  order_disclosed_quantity = 0;
  trigger_on = 0;
  order_price = 0;
  order_trigger_price = 0;
  order_time_in_force = 0;
  market_price_protection_ticks = 0;
  order_execution_type = 0;
}

unfoldable pub count_request : ℕ → InstruStats → InstruStats
count_request order_type s = record s {
  order_new_request = s.order_new_request + 1;
  order_type_stats = update order_type suc (insert_new order_type 0 s.order_type_stats);
}

unfoldable pub count_response : ℕ → InstruStats → InstruStats
count_response status_id s = record s {
  order_responses = s.order_responses + 1;
  order_errors = if status_id == 0 then s.order_errors else s.order_errors + 1;
}

-- The keys of the maps are of type int, of 32 bits: a tag of 64 bits is cut off.
abbrev pub int_key : ℕ → ℕ
int_key n = n % 2 ^ 32

-- `case mt1_new_order_response` of `OrderStats::Set`. `m_nReq[tag]` puts in a request that is missing.
unfoldable pub set_response : NewOrderResponse → OrderStats → OrderStats
set_response r s =
    let requests = insert_new (int_key r.user_tag) no_request s.req in
    let q = at no_request (int_key r.user_tag) requests in
    record {
      ord_stats =
          update (int_key q.order_instrument_id) (count_response r.status_id)
            (insert_new (int_key q.order_instrument_id) no_stats s.ord_stats);
      req = requests;
      res = insert_new (int_key r.user_tag) r s.res;
    }

-- `case mt1_new_order_request`, which falls through: `as_response` is the same message read as a
-- response.
unfoldable pub set_request :
    (NewOrderRequest → NewOrderResponse) → NewOrderRequest → OrderStats → OrderStats
set_request as_response r s = set_response (as_response r) (record s {
  ord_stats =
      update (int_key r.order_instrument_id) (count_request r.order_type)
        (insert_new (int_key r.order_instrument_id) no_stats s.ord_stats);
  req = insert_new (int_key r.user_tag) r s.req;
})

-- `m_user_tags` and `objStats`, which the handlers of messages change.
pub record Orders : Type 0 where
  pub user_tags : List ℕ
  pub stats : OrderStats

pub record Client (W : Type 0) : Type 0 where
  pub con : TcpConnection
  pub framer : GenericFramer
  pub world : W
  pub tcp_connected : Bool
  pub tcp_rx_idle_count : ℕ
  pub tcp_tx_idle_count : ℕ
  pub idle_count : ℕ
  pub load : Load
  pub number_to_send : ℕ
  pub number_users : ℕ
  pub start_user_id : ℕ
  pub user_tag : ℕ
  pub counter : ℕ
  pub orders : Orders

abbrev pub member : ℕ → List ℕ → Bool
member x [] = false
member x (y ∷ ys) = x == y || member x ys

abbrev pub erase : ℕ → List ℕ → List ℕ
erase x [] = []
erase x (y ∷ ys) = let rest = erase x ys in if x == y then ys else y ∷ rest
