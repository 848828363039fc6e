-- ===== src/Api/Responses.antt =====
-- api/moonx_binary_api.hpp: the answers of the gateway.
use core_connect_binary.Base.{List, [], ◌∷◌}
use core_connect_binary.Api.Layout.{Field, slong, ulong, ushort}

-- `GATEWAY_CLIENT_LOGON_RESPONSE`
abbrev pub gateway_client_logon_response : List Field
gateway_client_logon_response =
    ("MessageType", ushort) ∷ ("StatusID", ulong) ∷ ("TimeStamp", ulong) ∷ []

-- `GATEWAY_CLIENT_LOGOFF_RESPONSE`
abbrev pub gateway_client_logoff_response : List Field
gateway_client_logoff_response =
    ("MessageType", ushort) ∷ ("StatusID", slong) ∷ ("TimeStamp", ulong) ∷ []

-- `NEW_ORDER_RESPONSE`
abbrev pub new_order_response : List Field
new_order_response =
    ("MessageType", ushort)
    ∷ ("UserID", ulong)
    ∷ ("UserTag", ulong)
    ∷ ("ExchangeOrderID", ulong)
    ∷ ("ExchangeEventID", ulong)
    ∷ ("StatusID", ulong)
    ∷ ("TimeStamp", ulong)
    ∷ []

-- `MODIFY_ORDER_RESPONSE`
abbrev pub modify_order_response : List Field
modify_order_response =
    ("MessageType", ushort)
    ∷ ("UserID", ulong)
    ∷ ("UserTag", ulong)
    ∷ ("ExchangeOrderID", ulong)
    ∷ ("ExchangeEventID", ulong)
    ∷ ("StatusID", ulong)
    ∷ ("TimeStamp", ulong)
    ∷ []

-- `MODIFY_LEVERAGE_RESPONSE`
abbrev pub modify_leverage_response : List Field
modify_leverage_response =
    ("MessageType", ushort)
    ∷ ("UserID", ulong)
    ∷ ("UserTag", ulong)
    ∷ ("ExchangeEventID", ulong)
    ∷ ("StatusID", ulong)
    ∷ ("TimeStamp", ulong)
    ∷ []

-- `CANCEL_ORDER_RESPONSE`
abbrev pub cancel_order_response : List Field
cancel_order_response =
    ("MessageType", ushort)
    ∷ ("UserID", ulong)
    ∷ ("UserTag", ulong)
    ∷ ("ExchangeOrderID", ulong)
    ∷ ("ExchangeEventID", ulong)
    ∷ ("StatusID", ulong)
    ∷ ("TimeStamp", ulong)
    ∷ []

-- `CANCEL_ALL_ORDERS_RESPONSE`
abbrev pub cancel_all_orders_response : List Field
cancel_all_orders_response =
    ("MessageType", ushort)
    ∷ ("UserID", ulong)
    ∷ ("UserTag", ulong)
    ∷ ("TotalOrdersCanceled", ulong)
    ∷ ("StatusID", ulong)
    ∷ ("TimeStamp", ulong)
    ∷ []

-- `WORKING_ORDERS_RESPONSE`
abbrev pub working_orders_response : List Field
working_orders_response =
    ("MessageType", ushort)
    ∷ ("UserID", ulong)
    ∷ ("UserTag", ulong)
    ∷ ("NumberOfWorkingOrders", ulong)
    ∷ ("StatusID", ulong)
    ∷ ("TimeStamp", ulong)
    ∷ []

-- `FILL_RESPONSE`
abbrev pub fill_response : List Field
fill_response =
    ("MessageType", ushort)
    ∷ ("UserID", ulong)
    ∷ ("UserTag", ulong)
    ∷ ("NumberOfFills", ulong)
    ∷ ("StatusID", ulong)
    ∷ ("TimeStamp", ulong)
    ∷ []
