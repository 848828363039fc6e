-- ===== src/Api/Structs.antt =====
-- api/moonx_binary_api.hpp: the requests as records, with the values that they put in the memory of
-- their structs. The type of a message, which is set when it is sent, is not a field.
use core_connect_binary.Base.{ℕ, List, [], ◌∷◌}
use core_connect_binary.Api.Layout.{Value, num}
use core_connect_binary.Api.Types.{
  code, mt1_new_order_request, mt1_modify_order_request, mt1_cancel_order_request,
  mt1_cancel_all_orders_request, mt1_modify_leverage_request, mt1_working_orders_request,
  mt1_fill_request,
}

pub record NewOrderRequest : Type 0 where
  pub user_id : ℕ
  pub user_tag : ℕ
  pub order_instrument_id : ℕ
  pub order_type : ℕ
  pub order_time_in_force : ℕ
  pub order_side : ℕ
  pub order_execution_type : ℕ
  pub order_quantity : ℕ
  pub order_disclosed_quantity : ℕ
  pub order_price : ℕ
  pub market_price_protection_ticks : ℕ
  pub order_trigger_price : ℕ
  pub trigger_on : ℕ

pub record ModifyOrderRequest : Type 0 where
  pub user_id : ℕ
  pub user_tag : ℕ
  pub exchange_order_id : ℕ
  pub order_quantity_remaining : ℕ
  pub order_type : ℕ
  pub order_time_in_force : ℕ
  pub order_execution_type : ℕ
  pub order_quantity : ℕ
  pub order_disclosed_quantity : ℕ
  pub order_price : ℕ
  pub market_price_protection_ticks : ℕ
  pub order_trigger_price : ℕ
  pub trigger_on : ℕ

pub record CancelOrderRequest : Type 0 where
  pub user_id : ℕ
  pub user_tag : ℕ
  pub exchange_order_id : ℕ

pub record CancelAllOrdersRequest : Type 0 where
  pub user_id : ℕ
  pub user_tag : ℕ
  pub cancel_gtc : ℕ

pub record ModifyLeverageRequest : Type 0 where
  pub user_id : ℕ
  pub user_tag : ℕ
  pub instrument_id : ℕ
  pub leverage : ℕ

pub record WorkingOrdersRequest : Type 0 where
  pub user_id : ℕ
  pub user_tag : ℕ

pub record FillRequest : Type 0 where
  pub user_id : ℕ
  pub user_tag : ℕ

unfoldable pub new_order_values : NewOrderRequest → List Value
new_order_values r =
    num (code mt1_new_order_request)
    ∷ num r.user_id
    ∷ num r.user_tag
    ∷ num r.order_instrument_id
    ∷ num r.order_type
    ∷ num r.order_time_in_force
    ∷ num r.order_side
    ∷ num r.order_execution_type
    ∷ num r.order_quantity
    ∷ num r.order_disclosed_quantity
    ∷ num r.order_price
    ∷ num r.market_price_protection_ticks
    ∷ num r.order_trigger_price
    ∷ num r.trigger_on
    ∷ []

unfoldable pub modify_order_values : ModifyOrderRequest → List Value
modify_order_values r =
    num (code mt1_modify_order_request)
    ∷ num r.user_id
    ∷ num r.user_tag
    ∷ num r.exchange_order_id
    ∷ num r.order_quantity_remaining
    ∷ num r.order_type
    ∷ num r.order_time_in_force
    ∷ num r.order_execution_type
    ∷ num r.order_quantity
    ∷ num r.order_disclosed_quantity
    ∷ num r.order_price
    ∷ num r.market_price_protection_ticks
    ∷ num r.order_trigger_price
    ∷ num r.trigger_on
    ∷ []

unfoldable pub cancel_order_values : CancelOrderRequest → List Value
cancel_order_values r =
    num (code mt1_cancel_order_request)
    ∷ num r.user_id
    ∷ num r.user_tag
    ∷ num r.exchange_order_id
    ∷ []

unfoldable pub cancel_all_orders_values : CancelAllOrdersRequest → List Value
cancel_all_orders_values r =
    num (code mt1_cancel_all_orders_request)
    ∷ num r.user_id
    ∷ num r.user_tag
    ∷ num r.cancel_gtc
    ∷ []

unfoldable pub modify_leverage_values : ModifyLeverageRequest → List Value
modify_leverage_values r =
    num (code mt1_modify_leverage_request)
    ∷ num r.user_id
    ∷ num r.user_tag
    ∷ num r.instrument_id
    ∷ num r.leverage
    ∷ []

unfoldable pub working_orders_values : WorkingOrdersRequest → List Value
working_orders_values r =
    num (code mt1_working_orders_request) ∷ num r.user_id ∷ num r.user_tag ∷ []

unfoldable pub fill_values : FillRequest → List Value
fill_values r = num (code mt1_fill_request) ∷ num r.user_id ∷ num r.user_tag ∷ []
