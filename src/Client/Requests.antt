-- ===== src/Client/Requests.antt =====
-- src/binary_gateway_load_test_client.cpp: the requests that the console commands send. `f`, the frame on
-- the stack, is not initialised: what it holds before is an argument.
use core_connect_binary.Base.{ℕ, zero, suc, Option, none, some, ignore_ret, Bytes}
use core_connect_binary.Kernel.{Kernel}
use core_connect_binary.Timestamp.Clock.{TimeVal, epoch_usecs}
use core_connect_binary.Api.Structs.{
  ModifyOrderRequest, CancelOrderRequest, CancelAllOrdersRequest, WorkingOrdersRequest, FillRequest,
}
use core_connect_binary.Client.Json.{Json, member_or, member64_or, document}
use core_connect_binary.Client.Session.{NewOrderRequest, Client}
use core_connect_binary.Client.Sending.{tcp_write}

-- The frames of the requests, laid out as binary_gateway_interface_messages.hpp says.
pub record Frames : Type 0 where
  pub logon : ℕ → Bytes → Bytes
  pub logoff : Bytes
  pub new_order : NewOrderRequest → Bytes
  pub modify_order : ModifyOrderRequest → Bytes
  pub cancel_order : CancelOrderRequest → Bytes
  pub cancel_all_orders : CancelAllOrdersRequest → Bytes
  pub working_orders : WorkingOrdersRequest → Bytes
  pub fill : FillRequest → Bytes

-- What the frames on the stack hold before they are filled in.
pub record Stale : Type 0 where
  pub new_order : NewOrderRequest
  pub modify_order : ModifyOrderRequest
  pub cancel_order : CancelOrderRequest
  pub cancel_all_orders : CancelAllOrdersRequest
  pub working_orders : WorkingOrdersRequest
  pub fill : FillRequest

module _ {D V : Type 0} (j : Json D V) where
  unfoldable pub bulk_request : NewOrderRequest → D → NewOrderRequest
  bulk_request f doc = record {
    user_id = member_or j f.user_id "UserID" doc;
    user_tag = member_or j f.user_tag "UserTag" doc;
    order_instrument_id = member_or j f.order_instrument_id "InstrumentID" doc;
    order_type = member_or j f.order_type "OrderType" doc;
    order_side = member_or j f.order_side "Side" doc;
    order_quantity = member_or j f.order_quantity "Quantity" doc;
    order_disclosed_quantity = member_or j f.order_disclosed_quantity "DisclosedQuantity" doc;
    trigger_on = member_or j f.trigger_on "OrdTrig" doc;
    order_price = member_or j f.order_price "Price" doc;
    order_trigger_price = member_or j f.order_trigger_price "TriggerPrice" doc;
    order_time_in_force = member_or j f.order_time_in_force "TIF" doc;
    market_price_protection_ticks =
        member_or j f.market_price_protection_ticks "MarketPriceProtectionTicks" doc;
    order_execution_type = member_or j f.order_execution_type "ExType" doc;
  }

  unfoldable pub modify_request : ModifyOrderRequest → D → ModifyOrderRequest
  modify_request f doc = record {
    user_id = member_or j f.user_id "UserID" doc;
    user_tag = member_or j f.user_tag "UserTag" doc;
    exchange_order_id = member_or j f.exchange_order_id "ExchangeOrderID" doc;
    order_quantity_remaining = member_or j f.order_quantity_remaining "QuantityRemaining" doc;
    order_type = member_or j f.order_type "OrderType" doc;
    order_time_in_force = member_or j f.order_time_in_force "TIF" doc;
    order_execution_type = member_or j f.order_execution_type "ExType" doc;
    order_quantity = member_or j f.order_quantity "Quantity" doc;
    order_disclosed_quantity = member_or j f.order_disclosed_quantity "DisclosedQuantity" doc;
    order_price = member_or j f.order_price "Price" doc;
    market_price_protection_ticks =
        member_or j f.market_price_protection_ticks "MarketPriceProtectionTicks" doc;
    order_trigger_price = member_or j f.order_trigger_price "TriggerPrice" doc;
    trigger_on = f.trigger_on;
  }

  -- The user tag of a cancellation is read as 64 bits.
  unfoldable pub cancel_request : CancelOrderRequest → D → CancelOrderRequest
  cancel_request f doc = record {
    user_id = member_or j f.user_id "UserID" doc;
    user_tag = member64_or j f.user_tag "UserTag" doc;
    exchange_order_id = member_or j f.exchange_order_id "ExchangeOrderID" doc;
  }

  unfoldable pub cancel_all_request : CancelAllOrdersRequest → D → CancelAllOrdersRequest
  cancel_all_request f doc = record {
    user_id = member_or j f.user_id "UserID" doc;
    user_tag = member_or j f.user_tag "UserTag" doc;
    cancel_gtc = member_or j f.cancel_gtc "CancelGTC" doc;
  }

  unfoldable pub working_orders_request : WorkingOrdersRequest → D → WorkingOrdersRequest
  working_orders_request f doc = record {
    user_id = member_or j f.user_id "UserID" doc;
    user_tag = member_or j f.user_tag "UserTag" doc;
  }

  unfoldable pub fill_request : FillRequest → D → FillRequest
  fill_request f doc = record {
    user_id = member_or j f.user_id "UserID" doc;
    user_tag = member_or j f.user_tag "UserTag" doc;
  }

  module _ (frames : Frames) (stale : Stale) {W : Type 0} (k : Kernel W) (ev_terminate : W → ℕ × W)
      (fuel : Bytes → W → ℕ) where
    -- A document is sent as a request; without one, the command's format is printed.
    unfoldable pub send_document : (D → Bytes) → Option D → Client W → Option (ℕ × Client W)
    send_document make none c = some (0, c)
    send_document make (some doc) c = ignore_ret (tcp_write k ev_terminate fuel (make doc) c)

    unfoldable pub process_a_modify_order : Bytes → Client W → Option (ℕ × Client W)
    process_a_modify_order buf =
        send_document (λ d. frames.modify_order (modify_request stale.modify_order d))
          (document j buf)

    unfoldable pub process_a_cancel_order : Bytes → Client W → Option (ℕ × Client W)
    process_a_cancel_order buf =
        send_document (λ d. frames.cancel_order (cancel_request stale.cancel_order d))
          (document j buf)

    unfoldable pub process_a_cancel_all_orders : Bytes → Client W → Option (ℕ × Client W)
    process_a_cancel_all_orders buf =
        send_document (λ d. frames.cancel_all_orders (cancel_all_request stale.cancel_all_orders d))
          (document j buf)

    unfoldable pub process_working_orders : Bytes → Client W → Option (ℕ × Client W)
    process_working_orders buf =
        send_document (λ d. frames.working_orders (working_orders_request stale.working_orders d))
          (document j buf)

    unfoldable pub process_get_fills : Bytes → Client W → Option (ℕ × Client W)
    process_get_fills buf =
        send_document (λ d. frames.fill (fill_request stale.fill d)) (document j buf)

    -- The ID as a number, and a password of at most 16 characters.
    unfoldable pub process_a_logon : ℕ → Bytes → Client W → Option (ℕ × Client W)
    process_a_logon gateway_client_id password c =
        ignore_ret (tcp_write k ev_terminate fuel (frames.logon gateway_client_id password) c)

    unfoldable pub process_a_logoff : Client W → Option (ℕ × Client W)
    process_a_logoff c = ignore_ret (tcp_write k ev_terminate fuel frames.logoff c)

    -- A round of `write_bulk_new_orders`, whatever became of the write.
    unfoldable pub after_bulk :
        (Client W → Option (Client W)) → Option (ℕ × Client W) → Option (Client W)
    after_bulk next none = none
    after_bulk next (some (ret, c)) = next c

    -- `write_bulk_new_orders`, the body of a thread of its own, taken to run alone; `clock` is the answer
    -- of gettimeofday.
    unfoldable pub write_bulk_new_orders :
        (W → TimeVal) → NewOrderRequest → ℕ → Client W → Option (Client W)
    write_bulk_new_orders clock f zero c = some c
    write_bulk_new_orders clock f (suc loops) c =
        after_bulk (λ d. write_bulk_new_orders clock f loops d)
          (tcp_write k ev_terminate fuel
            (frames.new_order (record f { user_tag = epoch_usecs (clock c.world) })) c)
