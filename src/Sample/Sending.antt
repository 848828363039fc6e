-- ===== src/Sample/Sending.antt =====
-- src/sample_test_client_moonx.cpp: what the client sends. Parameters: `k`, the system calls;
-- `ev_terminate` of the event engine; `fuel` for the loop of `write_data`; `cin`, the input.
use core_connect_binary.Base.{
  ℕ, zero, suc, ◌+◌, ◌%◌, ◌^◌, Bool, true, false, ◌&&◌, ◌||◌, Option, none, some, List, [], ◌∷◌,
  length, ltb, leb, ◌==◌, if◌then◌else◌, Bytes, ignore_ret,
}
use core_connect_binary.Kernel.{Kernel}
use core_connect_binary.Tcp.Connection.{Written, write_data}
use core_connect_binary.Api.Layout.{Value, num, chars}
use core_connect_binary.Api.Types.{
  code, mt1_client_heartbeat, mt1_gateway_client_logon_request, mt1_gateway_client_logoff_request,
}
use core_connect_binary.Api.Messages.{
  Member, hb, gclg_req, gclo_req, nos_req, mo_req, co_req, cao_req, mlev_req, wo_req, fill_req,
  binary_frame,
}
use core_connect_binary.Client.Session.{member}
use core_connect_binary.Api.Structs.{
  NewOrderRequest, ModifyOrderRequest, CancelOrderRequest, CancelAllOrdersRequest,
  ModifyLeverageRequest, WorkingOrdersRequest, FillRequest, new_order_values, modify_order_values,
  cancel_order_values, cancel_all_orders_values, modify_leverage_values, working_orders_values,
  fill_values,
}
use core_connect_binary.Sample.Session.{Session, Sample}
use core_connect_binary.Sample.Prompts.{
  Cin, input_new_order, input_modify_order, input_cancel_order, input_cancel_all_orders,
  input_modify_leverage, input_working_orders, input_fill,
}

abbrev pub is_yes : ℕ → Bool
is_yes confirm = confirm == b'y' || confirm == b'Y'

-- `m_user_tags.insert(m_UserTag)`, whose result is only logged.
unfoldable pub insert_tag : ℕ → Session → Session
insert_tag tag s = record s {
  user_tags = if member tag s.user_tags then s.user_tags else tag ∷ s.user_tags;
}

-- What follows the write of a request.
unfoldable pub request_sent : {W : Type 0} → Option (ℕ × Sample W) → Option (ℕ × Sample W)
request_sent none = none
request_sent (some (zero, c)) = some (0, record c { session = insert_tag c.user_tag c.session })
request_sent (some (suc ret, c)) = some (suc ret, c)

module _ {W : Type 0} (k : Kernel W) (ev_terminate : W → ℕ × W) (fuel : Bytes → W → ℕ) where
  unfoldable pub terminate : Sample W → ℕ × Sample W
  terminate c = let (ret, w) = ev_terminate c.world in (ret, record c { world = w })

  -- What `tcp_write` makes of the end of `write_data`.
  unfoldable pub written : ℕ → Written W → Sample W → ℕ × Sample W
  written len r c =
      let d = record c { con = r.connection; world = r.world } in
      if r.ret == 0 && r.actual_len == len
      then (0, record d { tcp_tx_idle_count = 0 })
      else terminate d

  unfoldable pub write_ended : ℕ → Sample W → Option (Written W) → Option (ℕ × Sample W)
  write_ended len c none = none
  write_ended len c (some r) = some (written len r c)

  unfoldable pub tcp_write : Bytes → Sample W → Option (ℕ × Sample W)
  tcp_write src c =
      write_ended (length src) c (write_data k (fuel src c.world) (some src) c.con c.world)

  unfoldable pub send_heartbeat : Sample W → Option (ℕ × Sample W)
  send_heartbeat c =
      ignore_ret (tcp_write (binary_frame hb (num (code mt1_client_heartbeat) ∷ [])) c)

  -- The ID as a number, and a password of at most 16 characters.
  unfoldable pub process_a_logon : ℕ → Bytes → Sample W → Option (ℕ × Sample W)
  process_a_logon gateway_client_id password c = ignore_ret (
      tcp_write
        (binary_frame gclg_req (
          num (code mt1_gateway_client_logon_request)
          ∷ num (gateway_client_id % 2 ^ 64)
          ∷ chars password
          ∷ []))
        c)

  unfoldable pub process_a_logoff : Sample W → Option (ℕ × Sample W)
  process_a_logoff c =
      ignore_ret
        (tcp_write (binary_frame gclo_req (num (code mt1_gateway_client_logoff_request) ∷ [])) c)

  -- The connection is watched: whether nothing was written for a timer, or nothing read for 7.
  unfoldable pub watch_tx : Bool → Sample W → Option (ℕ × Sample W)
  watch_tx true c = send_heartbeat c
  watch_tx false c = some (0, c)

  unfoldable pub watch_rx : Bool → Sample W → Option (ℕ × Sample W)
  watch_rx true c = some (terminate c)
  watch_rx false c =
      watch_tx (leb 1 (c.tcp_tx_idle_count + 1))
        (record c { tcp_tx_idle_count = c.tcp_tx_idle_count + 1 })

  unfoldable pub watch : Bool → Sample W → Option (ℕ × Sample W)
  watch false c = some (0, c)
  watch true c =
      watch_rx (ltb 6 (c.tcp_rx_idle_count + 1))
        (record c { tcp_rx_idle_count = c.tcp_rx_idle_count + 1 })

  unfoldable pub count_idle : Option (ℕ × Sample W) → Option (ℕ × Sample W)
  count_idle none = none
  count_idle (some (ret, c)) =
      let s = c.session in
      some (
        0,
        record c {
          session = record s {
            idle_count = if ltb 10 (s.idle_count + 1) then 0 else s.idle_count + 1;
          };
        },
      )

  unfoldable pub process_idle_tmr : Sample W → Option (ℕ × Sample W)
  process_idle_tmr c = count_idle (watch c.tcp_connected c)

  -- The request is sent if the answer is yes.
  unfoldable pub send_if : Bool → Member → List Value → Sample W → Option (ℕ × Sample W)
  send_if false m vs c = some (0, c)
  send_if true m vs c = request_sent (tcp_write (binary_frame m vs) c)

  module _ (cin : Cin W) where
    -- The seven functions that send a request after asking, for a member of the union and its values.
    unfoldable pub process_request : Member → List Value → Sample W → Option (ℕ × Sample W)
    process_request m vs c =
        let (confirm, w) = cin.read_char c.world in
        send_if (is_yes confirm) m vs (record c { world = w })

    unfoldable pub process_new_order : NewOrderRequest → Sample W → Option (ℕ × Sample W)
    process_new_order r c = process_request nos_req (new_order_values r) c

    unfoldable pub process_modify_order : ModifyOrderRequest → Sample W → Option (ℕ × Sample W)
    process_modify_order r c = process_request mo_req (modify_order_values r) c

    unfoldable pub process_cancel_order : CancelOrderRequest → Sample W → Option (ℕ × Sample W)
    process_cancel_order r c = ignore_ret (process_request co_req (cancel_order_values r) c)

    unfoldable pub process_cancel_all_orders :
        CancelAllOrdersRequest → Sample W → Option (ℕ × Sample W)
    process_cancel_all_orders r c =
        ignore_ret (process_request cao_req (cancel_all_orders_values r) c)

    unfoldable pub process_modify_leverage :
        ModifyLeverageRequest → Sample W → Option (ℕ × Sample W)
    process_modify_leverage r c = ignore_ret (process_request mlev_req (modify_leverage_values r) c)

    unfoldable pub process_working_orders_request :
        WorkingOrdersRequest → Sample W → Option (ℕ × Sample W)
    process_working_orders_request r c =
        ignore_ret (process_request wo_req (working_orders_values r) c)

    unfoldable pub process_fills_request : FillRequest → Sample W → Option (ℕ × Sample W)
    process_fills_request r c = ignore_ret (process_request fill_req (fill_values r) c)

    -- The prompts: the request becomes the last one of its kind before it is sent.
    unfoldable pub prompt_new_order : Sample W → Option (ℕ × Sample W)
    prompt_new_order c =
        let l = c.last in
        let (r, w) = input_new_order cin l.new_order c.world in
        ignore_ret (process_new_order r (record c { world = w; last = record l { new_order = r } }))

    unfoldable pub prompt_modify_order : Sample W → Option (ℕ × Sample W)
    prompt_modify_order c =
        let l = c.last in
        let (r, w) = input_modify_order cin l.modify_order c.world in
        process_modify_order r (record c { world = w; last = record l { modify_order = r } })

    unfoldable pub prompt_cancel_order : Sample W → Option (ℕ × Sample W)
    prompt_cancel_order c =
        let l = c.last in
        let (r, w) = input_cancel_order cin l.cancel_order c.world in
        process_cancel_order r (record c { world = w; last = record l { cancel_order = r } })

    unfoldable pub prompt_cancel_all_orders : Sample W → Option (ℕ × Sample W)
    prompt_cancel_all_orders c =
        let l = c.last in
        let (r, w) = input_cancel_all_orders cin l.cancel_all_orders c.world in
        process_cancel_all_orders r
          (record c { world = w; last = record l { cancel_all_orders = r } })

    unfoldable pub prompt_modify_leverage : Sample W → Option (ℕ × Sample W)
    prompt_modify_leverage c =
        let l = c.last in
        let (r, w) = input_modify_leverage cin l.modify_leverage c.world in
        process_modify_leverage r (record c { world = w; last = record l { modify_leverage = r } })

    unfoldable pub prompt_working_orders_request : Sample W → Option (ℕ × Sample W)
    prompt_working_orders_request c =
        let l = c.last in
        let (r, w) = input_working_orders cin l.working_orders c.world in
        process_working_orders_request r
          (record c { world = w; last = record l { working_orders = r } })

    unfoldable pub prompt_fills_request : Sample W → Option (ℕ × Sample W)
    prompt_fills_request c =
        let l = c.last in
        let (r, w) = input_fill cin l.fill c.world in
        process_fills_request r (record c { world = w; last = record l { fill = r } })
