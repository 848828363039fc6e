-- ===== src/Sample/Session.antt =====
-- src/sample_test_client_moonx.cpp: the state of the client. Both connections are taken to be made: the
-- code follows their pointers without a test. What is logged or printed is left out.
use core_connect_binary.Base.{ℕ, Bool, List}
use core_connect_binary.Framer.Defs.{GenericFramer}
use core_connect_binary.Tcp.Connection.{TcpConnection}
use core_connect_binary.Latency.Defs.{Latency}
use core_connect_binary.Api.Structs.{
  NewOrderRequest, ModifyOrderRequest, CancelOrderRequest, CancelAllOrdersRequest,
  ModifyLeverageRequest, WorkingOrdersRequest, FillRequest,
}

-- The static variables of the prompts: the last request of each kind.
pub record Last : Type 0 where
  pub new_order : NewOrderRequest
  pub modify_order : ModifyOrderRequest
  pub cancel_order : CancelOrderRequest
  pub cancel_all_orders : CancelAllOrdersRequest
  pub modify_leverage : ModifyLeverageRequest
  pub working_orders : WorkingOrdersRequest
  pub fill : FillRequest

-- The members that frames change: `m_user_tags`, `g_cLogonResponse` and `m_idle_count`.
pub record Session : Type 0 where
  pub user_tags : List ℕ
  pub logon_response : Bool
  pub idle_count : ℕ

pub record Sample (W : Type 0) : Type 0 where
  pub con : TcpConnection
  pub mdg_con : TcpConnection
  pub framer : GenericFramer
  pub world : W
  pub tcp_connected : Bool
  pub tcp_rx_idle_count : ℕ
  pub tcp_tx_idle_count : ℕ
  pub user_tag : ℕ
  pub session : Session
  pub latency : Latency
  pub last : Last
