-- ===== src/Api/Tests.antt =====
-- Messages of the interface in memory.
use core_connect_binary.Base.{
  ℕ, map, replicate, ◌+◌, ◌%◌, ◌^◌, ◌≡◌, refl, List, [], ◌∷◌, ◌++◌, arith, Bytes, le_bytes,
}
use core_connect_binary.Api.Layout.{Field, ushort, size, Value, num, chars, store, encode, decode}
use core_connect_binary.Api.Types.{code, mt1_cancel_order_request}
use core_connect_binary.Api.Requests.{gateway_client_logon_request, new_order_request, heartbeat}
use core_connect_binary.Api.RoundTrip.{decode-encode}
use core_connect_binary.Api.Messages.{co_req, layout, msg_type, binary_frame, hb}
use core_connect_binary.Framer.Defs.{StreamControl, hdr1, parse_stream}
use core_connect_binary.Framer.Refine.{IsValid}
use core_connect_binary.Framer.Theorems.{observe}
use core_connect_binary.Framer.Frames.{deliver_all}
use core_connect_binary.Api.Frames.{
  Sent, payload, binary_frames, MessageType-msg_type, parse_stream-binary_frames,
}

abbrev password : Bytes
password = b'p' ∷ b'w' ∷ 0 ∷ 0 ∷ 0 ∷ 0 ∷ 0 ∷ 0 ∷ 0 ∷ 0 ∷ 0 ∷ 0 ∷ 0 ∷ 0 ∷ 0 ∷ 0 ∷ []

abbrev logon : List Value
logon = num 0 ∷ num 513 ∷ chars password ∷ []

decode-encode_example :
    decode gateway_client_logon_request (encode gateway_client_logon_request logon ++ 9 ∷ [])
    ≡ logon
decode-encode_example = decode-encode gateway_client_logon_request logon (9 ∷ []) (omega arith)

MessageType-msg_type_example :
    ((fs : List Field) × (layout co_req ≡ ("MessageType", ushort) ∷ fs))
    × (msg_type (encode (layout co_req) (num (code mt1_cancel_order_request) ∷ num 7 ∷ []) ++ [])
        ≡ code mt1_cancel_order_request % 2 ^ 16)
MessageType-msg_type_example =
    MessageType-msg_type co_req (code mt1_cancel_order_request) (num 7 ∷ []) []

abbrev stream : StreamControl
stream = record {
  max_rx_frame_length = 1024;
  rx_frame_state = hdr1;
  rx_len = 0;
  required_len = 0;
  rx_buf = replicate 1024 0;
}

stream-IsValid : IsValid 1024 stream
stream-IsValid = record {
  stored = record { limit = refl; buffer = refl; least = omega arith; small = omega arith };
  counted = tt;
}

-- The host keeps the frames, the last one first.
abbrev keep : List Bytes → ℕ → Bytes → ℕ × List Bytes
keep seen index frame = (0, frame ∷ seen)

abbrev two_messages : List Sent
two_messages = (hb, num 2 ∷ []) ∷ (co_req, num 5 ∷ num 7 ∷ []) ∷ []

parse_stream-binary_frames_example :
    observe (parse_stream keep 0 0 stream [] (binary_frames keep 0 two_messages))
    ≡ deliver_all keep 0 0 (map payload two_messages) []
parse_stream-binary_frames_example =
    parse_stream-binary_frames keep 0 stream [] two_messages stream-IsValid refl

size-new_order_request : size new_order_request + size heartbeat ≡ 67
size-new_order_request = refl

heartbeat_frame : binary_frame hb (num 2 ∷ []) ≡ 2 ∷ 0 ∷ 2 ∷ 0 ∷ []
unfolding binary_frame encode store le_bytes
heartbeat_frame = refl
