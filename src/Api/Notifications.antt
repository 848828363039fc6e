-- ===== src/Api/Notifications.antt =====
-- api/moonx_binary_api.hpp: the messages that the gateway sends by itself.
use core_connect_binary.Base.{List, [], ◌∷◌}
use core_connect_binary.Api.Layout.{Field, slong, uchar, ulong, ushort}

-- `MODIFY_LEVERAGE_NOTIFICATION`
abbrev pub modify_leverage_notification : List Field
modify_leverage_notification =
    ("MessageType", ushort)
    ∷ ("NotificationID", ulong)
    ∷ ("UserID", ulong)
    ∷ ("InstrumentID", ulong)
    ∷ ("Leverage", ulong)
    ∷ ("ExchangeEventID", ulong)
    ∷ ("StatusID", ulong)
    ∷ ("TimeStamp", ulong)
    ∷ []

-- `NEW_ORDER_NOTIFICATION`
abbrev pub new_order_notification : List Field
new_order_notification =
    ("MessageType", ushort)
    ∷ ("UserID", ulong)
    ∷ ("InstrumentID", ulong)
    ∷ ("OrderSide", slong)
    ∷ ("OrderType", slong)
    ∷ ("OrderTimeInForce", slong)
    ∷ ("OrderExecutionType", slong)
    ∷ ("Quantity", slong)
    ∷ ("DisclosedQuantity", slong)
    ∷ ("Price", slong)
    ∷ ("MarketPriceProtectionTicks", slong)
    ∷ ("TriggerPrice", slong)
    ∷ ("OrderTriggerOn", slong)
    ∷ ("ExchangeOrderID", ulong)
    ∷ ("ExchangeEventID", ulong)
    ∷ ("ExchangeStatusID", ulong)
    ∷ ("ExchangeTimeStamp", ulong)
    ∷ []

-- `CANCEL_ORDER_NOTIFICATION`
abbrev pub cancel_order_notification : List Field
cancel_order_notification =
    ("MessageType", ushort)
    ∷ ("UserID", ulong)
    ∷ ("ExchangeOrderID", ulong)
    ∷ ("ExchangeEventID", ulong)
    ∷ ("StatusID", ulong)
    ∷ ("TimeStamp", ulong)
    ∷ []

-- `CANCEL_ALL_ORDERS_NOTIFICATION`
abbrev pub cancel_all_orders_notification : List Field
cancel_all_orders_notification =
    ("MessageType", ushort)
    ∷ ("UserID", ulong)
    ∷ ("TotalNumberOfCancelledOrders", slong)
    ∷ ("ExchangeEventID", ulong)
    ∷ ("ExchangeStatusID", ulong)
    ∷ ("ExchangeTimeStamp", ulong)
    ∷ []

-- `MODIFY_ORDER_NOTIFICATION`
abbrev pub modify_order_notification : List Field
modify_order_notification =
    ("MessageType", ushort)
    ∷ ("UserID", ulong)
    ∷ ("ExchangeOrderID", ulong)
    ∷ ("OrderType", uchar)
    ∷ ("OrderTimeInForce", uchar)
    ∷ ("OrderExecutionType", uchar)
    ∷ ("OrderQuantity", ulong)
    ∷ ("OrderDisclosedQuantity", ulong)
    ∷ ("OrderPrice", slong)
    ∷ ("MarketPriceProtectionTicks", ushort)
    ∷ ("OrderTriggerPrice", slong)
    ∷ ("TriggerOn", uchar)
    ∷ ("ExchangeEventID", ulong)
    ∷ ("StatusID", ulong)
    ∷ ("TimeStamp", ulong)
    ∷ []

-- `FILL_NOTIFICATION`
abbrev pub fill_notification : List Field
fill_notification =
    ("MessageType", ushort)
    ∷ ("UserID", ulong)
    ∷ ("ExchangeOrderID", ulong)
    ∷ ("MatchID", ulong)
    ∷ ("TradeID", ulong)
    ∷ ("FillID", ulong)
    ∷ ("InstrumentID", ulong)
    ∷ ("FillQuantity", ulong)
    ∷ ("FillPrice", slong)
    ∷ ("OrderSide", uchar)
    ∷ ("OrderQuantityRemaining", ulong)
    ∷ ("OrderDisclosedQuantityRemaining", ulong)
    ∷ ("ExchangeEventID", ulong)
    ∷ ("StatusID", ulong)
    ∷ ("TimeStamp", ulong)
    ∷ []

-- `SESSION_NOTIFICATION`
abbrev pub session_notification : List Field
session_notification = ("MessageType", ushort) ∷ ("StatusID", ulong) ∷ ("TimeStamp", ulong) ∷ []

-- `STOP_TRIGGER_NOTIFICATION`
abbrev pub stop_trigger_notification : List Field
stop_trigger_notification =
    ("MessageType", ushort)
    ∷ ("UserID", ulong)
    ∷ ("UserTag", ulong)
    ∷ ("ExchangeOrderID", ulong)
    ∷ ("InstrumentID", ulong)
    ∷ ("OrderTriggerPrice", ulong)
    ∷ ("ExchangeEventID", ulong)
    ∷ ("StatusID", ulong)
    ∷ ("TimeStamp", ulong)
    ∷ []

-- `GATEWAY_CLIENT_LOGOFF_NOTIFICATION`
abbrev pub gateway_client_logoff_notification : List Field
gateway_client_logoff_notification =
    ("MessageType", ushort) ∷ ("StatusID", ulong) ∷ ("TimeStamp", ulong) ∷ []

-- `GATEWAY_CLIENT_NOTIFICATION`
abbrev pub gateway_client_notification : List Field
gateway_client_notification =
    ("MessageType", ushort) ∷ ("UserID", ulong) ∷ ("StatusID", ulong) ∷ ("TimeStamp", ulong) ∷ []

-- `WORKING_ORDER_NOTIFICATION`
abbrev pub working_order_notification : List Field
working_order_notification =
    ("MessageType", ushort)
    ∷ ("UserID", ulong)
    ∷ ("ExchangeOrderID", ulong)
    ∷ ("OrderQuantityRemaining", ulong)
    ∷ ("OrderInstrumentID", ulong)
    ∷ ("OrderType", uchar)
    ∷ ("OrderSide", uchar)
    ∷ ("OrderQuantity", ulong)
    ∷ ("OrderDisclosedQuantity", ulong)
    ∷ ("OrderPrice", slong)
    ∷ ("OrderTriggerPrice", slong)
    ∷ ("OrderTimeInForce", uchar)
    ∷ ("StatusID", ulong)
    ∷ ("TimeStamp", ulong)
    ∷ []
