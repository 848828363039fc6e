-- ===== src/Sample/Prompts.antt =====
-- src/sample_test_client_moonx.cpp and its header: the questions for the fields of a request. `cin` is a
-- parameter: what it makes of the input for a variable of each type, and what is left. A `long` is given
-- by its bits.
use core_connect_binary.Base.{ℕ, zero, suc}
use core_connect_binary.Api.Structs.{
  NewOrderRequest, ModifyOrderRequest, CancelOrderRequest, CancelAllOrdersRequest,
  ModifyLeverageRequest, WorkingOrdersRequest, FillRequest,
}

-- Something that reads the input.
abbrev pub Input : Type 0 → Type 0 → Type 0
Input W A = W → A × W

module _ {W A : Type 0} where
  abbrev pub pure : A → Input W A
  pure a w = (a, w)

infixl 5 ◌>>=◌
abbrev pub ◌>>=◌ : {W A B : Type 0} → Input W A → (A → Input W B) → Input W B
◌>>=◌ m f w = let (a, w') = m w in f a w'

-- `cin >> x` for an `unsigned long`, a `long`, and an `unsigned char` or a `char`, which takes the code of
-- a character.
pub record Cin (W : Type 0) : Type 0 where
  pub read_ulong : Input W ℕ
  pub read_long : Input W ℕ
  pub read_char : Input W ℕ

-- 0 stands for the last value.
unfoldable pub or_default : ℕ → ℕ → ℕ
or_default zero default_val = default_val
or_default (suc n) default_val = suc n

-- `prompt`
unfoldable pub prompt : {W : Type 0} → Input W ℕ → ℕ → Input W ℕ
prompt read default_val = do input ← read; pure (or_default input default_val)

module _ {W : Type 0} (cin : Cin W) where
  -- The second answer, asked for as the user tag, goes to the user ID, too.
  unfoldable pub input_new_order : NewOrderRequest → Input W NewOrderRequest
  input_new_order l = do
    user ← prompt cin.read_ulong l.user_id
    user_id ← prompt cin.read_ulong l.user_tag
    instrument ← prompt cin.read_ulong l.order_instrument_id
    time_in_force ← prompt cin.read_char l.order_type
    side ← prompt cin.read_char l.order_side
    execution_type ← prompt cin.read_char l.order_execution_type
    quantity ← prompt cin.read_ulong l.order_quantity
    disclosed ← prompt cin.read_ulong l.order_disclosed_quantity
    price ← prompt cin.read_long l.order_price
    trigger_price ← prompt cin.read_long l.order_trigger_price
    trigger_on ← prompt cin.read_char l.trigger_on
    pure (record {
      user_id = user_id;
      user_tag = 0;
      order_instrument_id = instrument;
      order_type = 0;
      order_time_in_force = time_in_force;
      order_side = side;
      order_execution_type = execution_type;
      order_quantity = quantity;
      order_disclosed_quantity = disclosed;
      order_price = price;
      market_price_protection_ticks = 0;
      order_trigger_price = trigger_price;
      trigger_on = trigger_on;
    })

  unfoldable pub input_modify_order : ModifyOrderRequest → Input W ModifyOrderRequest
  input_modify_order l = do
    user ← prompt cin.read_ulong l.user_id
    user_id ← prompt cin.read_ulong l.user_tag
    order ← prompt cin.read_ulong l.exchange_order_id
    remaining ← prompt cin.read_ulong l.order_quantity_remaining
    order_type ← prompt cin.read_char l.order_type
    time_in_force ← prompt cin.read_char l.order_time_in_force
    execution_type ← prompt cin.read_char l.order_execution_type
    quantity ← prompt cin.read_ulong l.order_quantity
    disclosed ← prompt cin.read_ulong l.order_disclosed_quantity
    price ← prompt cin.read_long l.order_price
    trigger_price ← prompt cin.read_long l.order_trigger_price
    trigger_on ← prompt cin.read_char l.trigger_on
    pure (record {
      user_id = user_id;
      user_tag = 0;
      exchange_order_id = order;
      order_quantity_remaining = remaining;
      order_type = order_type;
      order_time_in_force = time_in_force;
      order_execution_type = execution_type;
      order_quantity = quantity;
      order_disclosed_quantity = disclosed;
      order_price = price;
      market_price_protection_ticks = 0;
      order_trigger_price = trigger_price;
      trigger_on = trigger_on;
    })

  unfoldable pub input_cancel_order : CancelOrderRequest → Input W CancelOrderRequest
  input_cancel_order l = do
    user ← prompt cin.read_ulong l.user_id
    user_id ← prompt cin.read_ulong l.user_tag
    order ← prompt cin.read_ulong l.exchange_order_id
    pure (record { user_id = user_id; user_tag = 0; exchange_order_id = order })

  unfoldable pub input_cancel_all_orders : CancelAllOrdersRequest → Input W CancelAllOrdersRequest
  input_cancel_all_orders l = do
    user ← prompt cin.read_ulong l.user_id
    user_id ← prompt cin.read_ulong l.user_tag
    pure (record { user_id = user_id; user_tag = 0; cancel_gtc = 0 })

  unfoldable pub input_modify_leverage : ModifyLeverageRequest → Input W ModifyLeverageRequest
  input_modify_leverage l = do
    user ← prompt cin.read_ulong l.user_id
    user_id ← prompt cin.read_ulong l.user_tag
    instrument ← prompt cin.read_ulong l.instrument_id
    leverage ← prompt cin.read_ulong l.leverage
    pure (record {
      user_id = user_id;
      user_tag = 0;
      instrument_id = instrument;
      leverage = leverage;
    })

  unfoldable pub input_working_orders : WorkingOrdersRequest → Input W WorkingOrdersRequest
  input_working_orders l = do
    user ← prompt cin.read_ulong l.user_id
    user_id ← prompt cin.read_ulong l.user_tag
    pure (record { user_id = user_id; user_tag = 0 })

  unfoldable pub input_fill : FillRequest → Input W FillRequest
  input_fill l = do
    user ← prompt cin.read_ulong l.user_id
    user_id ← prompt cin.read_ulong l.user_tag
    pure (record { user_id = user_id; user_tag = 0 })
