-- ===== src/Api/Requests.antt =====
-- api/moonx_binary_api.hpp: the header of a frame and the messages to the gateway.
use core_connect_binary.Base.{List, [], ◌∷◌}
use core_connect_binary.Api.Layout.{Field, char_array, slong, uchar, ulong, ushort}

-- `FRAME_HDR`
abbrev pub frame_hdr : List Field
frame_hdr = ("msg_len", ushort) ∷ []

-- `HEARTBEAT`
abbrev pub heartbeat : List Field
heartbeat = ("MessageType", ushort) ∷ []

-- `GATEWAY_CLIENT_LOGON_REQUEST`
abbrev pub gateway_client_logon_request : List Field
gateway_client_logon_request =
    ("MessageType", ushort) ∷ ("GatewayClientID", ulong) ∷ ("Password", char_array 16) ∷ []

-- `GATEWAY_CLIENT_LOGOFF_REQUEST`
abbrev pub gateway_client_logoff_request : List Field
gateway_client_logoff_request = ("MessageType", ushort) ∷ []

-- `NEW_ORDER_REQUEST`
abbrev pub new_order_request : List Field
new_order_request =
    ("MessageType", ushort)
    ∷ ("UserID", ulong)
    ∷ ("UserTag", ulong)
    ∷ ("OrderInstrumentID", ulong)
    ∷ ("OrderType", uchar)
    ∷ ("OrderTimeInForce", uchar)
    ∷ ("OrderSide", uchar)
    ∷ ("OrderExecutionType", uchar)
    ∷ ("OrderQuantity", ulong)
    ∷ ("OrderDisclosedQuantity", ulong)
    ∷ ("OrderPrice", slong)
    ∷ ("MarketPriceProtectionTicks", ushort)
    ∷ ("OrderTriggerPrice", slong)
    ∷ ("TriggerOn", uchar)
    ∷ []

-- `MODIFY_ORDER_REQUEST`
abbrev pub modify_order_request : List Field
modify_order_request =
    ("MessageType", ushort)
    ∷ ("UserID", ulong)
    ∷ ("UserTag", ulong)
    ∷ ("ExchangeOrderID", ulong)
    ∷ ("OrderQuantityRemaining", ulong)
    ∷ ("OrderType", uchar)
    ∷ ("OrderTimeInForce", uchar)
    ∷ ("OrderExecutionType", uchar)
    ∷ ("OrderQuantity", ulong)
    ∷ ("OrderDisclosedQuantity", ulong)
    ∷ ("OrderPrice", slong)
    ∷ ("MarketPriceProtectionTicks", ushort)
    ∷ ("OrderTriggerPrice", slong)
    ∷ ("TriggerOn", uchar)
    ∷ []

-- `MODIFY_LEVERAGE_REQUEST`
abbrev pub modify_leverage_request : List Field
modify_leverage_request =
    ("MessageType", ushort)
    ∷ ("UserID", ulong)
    ∷ ("UserTag", ulong)
    ∷ ("InstrumentID", ulong)
    ∷ ("Leverage", ulong)
    ∷ []

-- `CANCEL_ORDER_REQUEST`
abbrev pub cancel_order_request : List Field
cancel_order_request =
    ("MessageType", ushort)
    ∷ ("UserID", ulong)
    ∷ ("UserTag", ulong)
    ∷ ("ExchangeOrderID", ulong)
    ∷ []

-- `CANCEL_ALL_ORDERS_REQUEST`
abbrev pub cancel_all_orders_request : List Field
cancel_all_orders_request =
    ("MessageType", ushort) ∷ ("UserID", ulong) ∷ ("UserTag", ulong) ∷ ("cancel_gtc", uchar) ∷ []

-- `WORKING_ORDERS_REQUEST`
abbrev pub working_orders_request : List Field
working_orders_request = ("MessageType", ushort) ∷ ("UserID", ulong) ∷ ("UserTag", ulong) ∷ []

-- `FILL_REQUEST`
abbrev pub fill_request : List Field
fill_request = ("MessageType", ushort) ∷ ("UserID", ulong) ∷ ("UserTag", ulong) ∷ []
