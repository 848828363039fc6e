-- ===== src/Api/Messages.antt =====
-- api/moonx_binary_api.hpp: the union of the messages, and frames.
use core_connect_binary.Base.{ℕ, List, [], ◌∷◌, ◌++◌, take, Bytes, le_value}
use core_connect_binary.Api.Layout.{Field, size, Value, num, encode}
use core_connect_binary.Api.Requests.{
  frame_hdr, cancel_all_orders_request, cancel_order_request, fill_request,
  gateway_client_logoff_request, gateway_client_logon_request, heartbeat, modify_leverage_request,
  modify_order_request, new_order_request, working_orders_request,
}
use core_connect_binary.Api.Responses.{
  cancel_all_orders_response, cancel_order_response, fill_response, gateway_client_logoff_response,
  gateway_client_logon_response, modify_leverage_response, modify_order_response,
  new_order_response, working_orders_response,
}
use core_connect_binary.Api.Notifications.{
  cancel_order_notification, fill_notification, gateway_client_logoff_notification,
  gateway_client_notification, modify_leverage_notification, modify_order_notification,
  session_notification, stop_trigger_notification, working_order_notification,
}

-- The members of the union `BINARY_INTERFACE_MESSAGES` that are structs.
pub data Member : Type 0 where
  hb gclg_req gclg_res gclo_req gclo_res nos_req nos_res mo_req mo_res co_req co_res cao_req cao_res
        wo_req wo_res fill_req fill_res co_not mo_not fil_not ses_not st_not wo_not gclo_not gc_not
        mlev_req mlev_res mlev_not :
      Member

abbrev pub layout : Member → List Field
layout hb = heartbeat
layout gclg_req = gateway_client_logon_request
layout gclg_res = gateway_client_logon_response
layout gclo_req = gateway_client_logoff_request
layout gclo_res = gateway_client_logoff_response
layout nos_req = new_order_request
layout nos_res = new_order_response
layout mo_req = modify_order_request
layout mo_res = modify_order_response
layout co_req = cancel_order_request
layout co_res = cancel_order_response
layout cao_req = cancel_all_orders_request
layout cao_res = cancel_all_orders_response
layout wo_req = working_orders_request
layout wo_res = working_orders_response
layout fill_req = fill_request
layout fill_res = fill_response
layout co_not = cancel_order_notification
layout mo_not = modify_order_notification
layout fil_not = fill_notification
layout ses_not = session_notification
layout st_not = stop_trigger_notification
layout wo_not = working_order_notification
layout gclo_not = gateway_client_logoff_notification
layout gc_not = gateway_client_notification
layout mlev_req = modify_leverage_request
layout mlev_res = modify_leverage_response
layout mlev_not = modify_leverage_notification

-- `msg_type` of the union: the first two bytes of whatever was stored.
abbrev pub msg_type : Bytes → ℕ
msg_type bytes = le_value (take 2 bytes)

-- `BINARY_FRAME`, with `msg_len` for the size of the struct.
unfoldable pub binary_frame : Member → List Value → Bytes
binary_frame m vs = encode frame_hdr (num (size (layout m)) ∷ []) ++ encode (layout m) vs
