-- ===== src/Api/Types.antt =====
-- api/moonx_binary_api.hpp: the types of the messages.
use core_connect_binary.Base.{ℕ}

-- `enum message_types`
pub data MessageType : Type 0 where
  mt1_gateway_client_logon_request mt1_gateway_client_logoff_request mt1_client_heartbeat
        mt1_new_order_request mt1_modify_order_request mt1_cancel_order_request
        mt1_cancel_all_orders_request mt1_cancel_replace_order_request mt1_working_orders_request
        mt1_fill_request mt1_modify_leverage_request mt1_gateway_client_logon_response
        mt1_gateway_client_logoff_response mt1_server_heartbeat mt1_new_order_response
        mt1_modify_order_response mt1_cancel_order_response mt1_cancel_order_notification
        mt1_fill_notification mt1_session_notification mt1_modify_order_notification
        mt1_cancel_all_orders_response mt1_cancel_replace_order_response mt1_working_orders_response
        mt1_stop_trigger_notification mt1_working_order_notification mt1_fill_response
        mt1_gateway_client_logoff_notification mt1_gateway_client_notification
        mt1_modify_leverage_response mt1_modify_leverage_notification md_mt_heartbeat
        md_mt_trade_update md_mt_instrument_state_update md_mt_depth_10_update :
      MessageType

-- The number of a type, which is not its own: the market data have numbers that the gateway uses, too.
abbrev pub code : MessageType → ℕ
code mt1_gateway_client_logon_request = 0
code mt1_gateway_client_logoff_request = 1
code mt1_client_heartbeat = 2
code mt1_new_order_request = 3
code mt1_modify_order_request = 4
code mt1_cancel_order_request = 5
code mt1_cancel_all_orders_request = 7
code mt1_cancel_replace_order_request = 8
code mt1_working_orders_request = 9
code mt1_fill_request = 10
code mt1_modify_leverage_request = 11
code mt1_gateway_client_logon_response = 500
code mt1_gateway_client_logoff_response = 501
code mt1_server_heartbeat = 502
code mt1_new_order_response = 503
code mt1_modify_order_response = 505
code mt1_cancel_order_response = 507
code mt1_cancel_order_notification = 509
code mt1_fill_notification = 510
code mt1_session_notification = 511
code mt1_modify_order_notification = 512
code mt1_cancel_all_orders_response = 515
code mt1_cancel_replace_order_response = 517
code mt1_working_orders_response = 519
code mt1_stop_trigger_notification = 521
code mt1_working_order_notification = 522
code mt1_fill_response = 524
code mt1_gateway_client_logoff_notification = 527
code mt1_gateway_client_notification = 528
code mt1_modify_leverage_response = 529
code mt1_modify_leverage_notification = 530
code md_mt_heartbeat = 0
code md_mt_trade_update = 1
code md_mt_instrument_state_update = 5
code md_mt_depth_10_update = 6
