-- ===== src/Sample/Receiving.antt =====
-- src/sample_test_client_moonx.cpp: what the client receives. The handlers that only log their message
-- are left out. `behind` is what stands behind a frame in the framer's buffer: the code reads the whole
-- struct of a message, however long the frame is.
use core_connect_binary.Base.{
  ℕ, zero, suc, true, false, List, [], ◌∷◌, ◌++◌, drop, length, ltb, ◌==◌, if◌then◌else◌, Bytes,
}
use core_connect_binary.Base.Int.{pos}
use core_connect_binary.Kernel.{Kernel}
use core_connect_binary.Framer.Defs.{GenericFramer}
use core_connect_binary.Framer.Variants.{parse_raw_rx_data1}
use core_connect_binary.Tcp.Errors.{e_tcp_would_block}
use core_connect_binary.Tcp.Connection.{read_data}
use core_connect_binary.Api.Layout.{Value, num, chars, decode}
use core_connect_binary.Api.Types.{code, mt1_gateway_client_logon_response, mt1_new_order_response}
use core_connect_binary.Api.Responses.{gateway_client_logon_response, new_order_response}
use core_connect_binary.Api.Messages.{msg_type}
use core_connect_binary.Client.Session.{member, erase}
use core_connect_binary.Sample.Session.{Session, Sample}

-- The number in a field, counted from 0.
abbrev pub number_at : ℕ → List Value → ℕ
number_at i [] = 0
number_at zero (num v ∷ vs) = v
number_at zero (chars s ∷ vs) = 0
number_at (suc i) (v ∷ vs) = number_at i vs

-- `case mt1_gateway_client_logon_response`, on `StatusID`.
unfoldable pub logon_response : ℕ → Session → Session
logon_response status_id s = record s {
  logon_response = if status_id == 0 then true else s.logon_response;
}

-- An unknown tag is logged only.
unfoldable pub process_new_order_single_response : ℕ → Session → Session
process_new_order_single_response user_tag s = record s {
  user_tags = if member user_tag s.user_tags then erase user_tag s.user_tags else s.user_tags;
}

-- The switch over `msg_type`, on the bytes from the message on.
unfoldable pub process_message : Bytes → Session → Session
process_message bytes s =
    if msg_type bytes == code mt1_gateway_client_logon_response
    then logon_response (number_at 1 (decode gateway_client_logon_response bytes)) s
    else if msg_type bytes == code mt1_new_order_response
    then process_new_order_single_response (number_at 2 (decode new_order_response bytes)) s
    else s

module _ (behind : Bytes) where
  -- Frames of the second stream, the market data, are logged only. The result is always 0.
  unfoldable pub process_rx_frame : Session → ℕ → Bytes → ℕ × Session
  process_rx_frame s index src =
      if ltb (length src) 4
      then (0, record s { idle_count = 0 })
      else if index == 1
      then (0, s)
      else (0, record (process_message (drop 2 src ++ behind) s) { idle_count = 0 })

  module _ {W : Type 0} (k : Kernel W) (ev_terminate : W → ℕ × W) where
    unfoldable pub read_failed : Sample W → ℕ × Sample W
    read_failed c = let (ret, w) = ev_terminate c.world in (ret, record c { world = w })

    -- What the reads make of the end of `parse_raw_rx_data`.
    unfoldable pub parse_ended : ℕ × GenericFramer × Session → Sample W → ℕ × Sample W
    parse_ended t c =
        let (ret, f, s) = t in
        let d = record c { framer = f; session = s } in if ret == 0 then (0, d) else read_failed d

    unfoldable pub parsed : ℕ → Bytes → Sample W → ℕ × Sample W
    parsed stream bytes c =
        parse_ended (parse_raw_rx_data1 process_rx_frame stream c.framer c.session bytes) c

    -- What the reads make of the result of `read_data`.
    unfoldable pub read_ended : ℕ → ℕ → Bytes → Sample W → ℕ × Sample W
    read_ended stream ret bytes d =
        if ret == 0
        then parsed stream bytes (record d { tcp_rx_idle_count = 0 })
        else if ret == e_tcp_would_block
        then (0, d)
        else read_failed d

    unfoldable pub tcp_read : Sample W → ℕ × Sample W
    tcp_read c =
        let (ret, len, bytes, con, w) = read_data k false (pos 32768) c.con c.world in
        read_ended 0 ret bytes (record c { con = con; world = w })

    unfoldable pub tcp_read_mdg : Sample W → ℕ × Sample W
    tcp_read_mdg c =
        let (ret, len, bytes, con, w) = read_data k false (pos 32768) c.mdg_con c.world in
        read_ended 1 ret bytes (record c { mdg_con = con; world = w })
