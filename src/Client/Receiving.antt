-- ===== src/Client/Receiving.antt =====
-- src/binary_gateway_load_test_client.cpp: what the client receives. Parameters and numbers are those of
-- Client/Session. The handlers that only log their message are one.
use core_connect_binary.Base.{ℕ, false, drop, length, ltb, ◌==◌, if◌then◌else◌, Bytes}
use core_connect_binary.Base.Int.{pos}
use core_connect_binary.Kernel.{Kernel}
use core_connect_binary.Framer.Defs.{GenericFramer}
use core_connect_binary.Framer.Variants.{parse_raw_rx_data1}
use core_connect_binary.Tcp.Errors.{e_tcp_would_block}
use core_connect_binary.Tcp.Connection.{read_data}
use core_connect_binary.Client.Session.{
  NewOrderResponse, set_response, Orders, Client, member, erase,
}

-- `BINARY_INTERFACE_MESSAGES`, by `msg_type`: a response to a new order, or another message.
pub data Message : Type 0 where
  new_order_response : NewOrderResponse → Message
  other_message : Message

-- An unknown tag is logged only.
unfoldable pub process_new_order_single_response : NewOrderResponse → Orders → Orders
process_new_order_single_response m o =
    if member m.user_tag o.user_tags
    then record o { user_tags = erase m.user_tag o.user_tags }
    else o

unfoldable pub process_message : Message → Orders → Orders
process_message (new_order_response m) o =
    process_new_order_single_response m (record o { stats = set_response m o.stats })
process_message other_message o = o

module _ (decode : Bytes → Message) where
  -- `decode` is any reading of the union from the place of the frame's bytes in the buffer, which may
  -- take in what stands behind them. `src` has the two bytes of the length in front. The result is `E_ev_no_error`.
  unfoldable pub process_rx_frame : Orders → ℕ → Bytes → ℕ × Orders
  process_rx_frame o index src =
      if ltb (length src) 4 then (0, o) else (0, process_message (decode (drop 2 src)) o)

  module _ {W : Type 0} (k : Kernel W) (ev_terminate : W → ℕ × W) where
    unfoldable pub read_failed : Client W → ℕ × Client W
    read_failed c = let (ret, w) = ev_terminate c.world in (ret, record c { world = w })

    -- What `tcp_read` makes of the end of `parse_raw_rx_data`.
    unfoldable pub parse_ended : ℕ × GenericFramer × Orders → Client W → ℕ × Client W
    parse_ended t c =
        let (ret, f, o) = t in
        let d = record c { framer = f; orders = o } in if ret == 0 then (0, d) else read_failed d

    unfoldable pub parsed : Bytes → Client W → ℕ × Client W
    parsed bytes c = parse_ended (parse_raw_rx_data1 process_rx_frame 0 c.framer c.orders bytes) c

    unfoldable pub tcp_read : Client W → ℕ × Client W
    tcp_read c =
        let (ret, len, bytes, con, w) = read_data k false (pos 32768) c.con c.world in
        let d = record c { con = con; world = w } in
        if ret == 0
        then parsed bytes (record d { tcp_rx_idle_count = 0 })
        else if ret == e_tcp_would_block
        then (0, d)
        else read_failed d
