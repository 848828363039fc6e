-- ===== src/Api/Frames.antt =====
-- api/moonx_binary_api.hpp with util_lib/generic_framer/src/generic_framer1.cpp: messages as frames.
use core_connect_binary.Base.{
  ℕ, ◌+◌, ◌%◌, ◌^◌, ◌≤◌, ◌≡◌, refl, sym, ap, ap₂, ◌∙◌, List, [], ◌∷◌, ◌++◌, map, append-nil, arith,
  length, Bytes, le_bytes, le_value,
}
use core_connect_binary.Framer.Defs.{StreamControl, parse_stream}
use core_connect_binary.Framer.Spec.{idle}
use core_connect_binary.Framer.Refine.{view, IsValid}
use core_connect_binary.Framer.Theorems.{observe}
use core_connect_binary.Framer.Frames.{frame, frames, deliver_all}
use core_connect_binary.Framer.Frames as Framed
use core_connect_binary.Api.Layout.{Field, ushort, size, Value, num, store, encode}
use core_connect_binary.Api.RoundTrip.{length-encode}
use core_connect_binary.Api.Messages.{Member, layout, msg_type, binary_frame}

-- A message: a member of the union and the values of its fields.
abbrev pub Sent : Type 0
Sent = Member × List Value

abbrev pub payload : Sent → Bytes
payload (m, vs) = encode (layout m) vs

-- Every struct of the union fits the format of a frame and the buffers of the clients.
layout_bounds : (m : Member) → (2 ≤ size (layout m)) × (size (layout m) + 2 ≤ 1024)
layout_bounds Member.hb = (omega arith, omega arith)
layout_bounds Member.gclg_req = (omega arith, omega arith)
layout_bounds Member.gclg_res = (omega arith, omega arith)
layout_bounds Member.gclo_req = (omega arith, omega arith)
layout_bounds Member.gclo_res = (omega arith, omega arith)
layout_bounds Member.nos_req = (omega arith, omega arith)
layout_bounds Member.nos_res = (omega arith, omega arith)
layout_bounds Member.mo_req = (omega arith, omega arith)
layout_bounds Member.mo_res = (omega arith, omega arith)
layout_bounds Member.co_req = (omega arith, omega arith)
layout_bounds Member.co_res = (omega arith, omega arith)
layout_bounds Member.cao_req = (omega arith, omega arith)
layout_bounds Member.cao_res = (omega arith, omega arith)
layout_bounds Member.wo_req = (omega arith, omega arith)
layout_bounds Member.wo_res = (omega arith, omega arith)
layout_bounds Member.fill_req = (omega arith, omega arith)
layout_bounds Member.fill_res = (omega arith, omega arith)
layout_bounds Member.co_not = (omega arith, omega arith)
layout_bounds Member.mo_not = (omega arith, omega arith)
layout_bounds Member.fil_not = (omega arith, omega arith)
layout_bounds Member.ses_not = (omega arith, omega arith)
layout_bounds Member.st_not = (omega arith, omega arith)
layout_bounds Member.wo_not = (omega arith, omega arith)
layout_bounds Member.gclo_not = (omega arith, omega arith)
layout_bounds Member.gc_not = (omega arith, omega arith)
layout_bounds Member.mlev_req = (omega arith, omega arith)
layout_bounds Member.mlev_res = (omega arith, omega arith)
layout_bounds Member.mlev_not = (omega arith, omega arith)

-- What follows the type in a struct.
abbrev pub rest_of : List Field → List Field
rest_of [] = []
rest_of (f ∷ fs) = fs

layout_start : (m : Member) → layout m ≡ ("MessageType", ushort) ∷ rest_of (layout m)
layout_start Member.hb = refl
layout_start Member.gclg_req = refl
layout_start Member.gclg_res = refl
layout_start Member.gclo_req = refl
layout_start Member.gclo_res = refl
layout_start Member.nos_req = refl
layout_start Member.nos_res = refl
layout_start Member.mo_req = refl
layout_start Member.mo_res = refl
layout_start Member.co_req = refl
layout_start Member.co_res = refl
layout_start Member.cao_req = refl
layout_start Member.cao_res = refl
layout_start Member.wo_req = refl
layout_start Member.wo_res = refl
layout_start Member.fill_req = refl
layout_start Member.fill_res = refl
layout_start Member.co_not = refl
layout_start Member.mo_not = refl
layout_start Member.fil_not = refl
layout_start Member.ses_not = refl
layout_start Member.st_not = refl
layout_start Member.wo_not = refl
layout_start Member.gclo_not = refl
layout_start Member.gc_not = refl
layout_start Member.mlev_req = refl
layout_start Member.mlev_res = refl
layout_start Member.mlev_not = refl

msg_type-start :
    (fs : List Field) (t : ℕ) (vs : List Value) (rest : Bytes)
    → msg_type (encode (("MessageType", ushort) ∷ fs) (num t ∷ vs) ++ rest) ≡ t % 2 ^ 16
unfolding encode store le_bytes le_value
msg_type-start fs t vs rest = omega arith

pub msg_type-encode :
    (m : Member) (t : ℕ) (vs : List Value) (rest : Bytes)
    → msg_type (encode (layout m) (num t ∷ vs) ++ rest) ≡ t % 2 ^ 16
msg_type-encode m t vs rest =
    ap (λ fs. msg_type (encode fs (num t ∷ vs) ++ rest)) (layout_start m)
    ∙ msg_type-start (rest_of (layout m)) t vs rest

-- In every struct of the union the first field is MessageType, an unsigned short; whichever was written,
-- with whatever values, the `msg_type` of the union reads the low 16 bits of what was put there.
pub MessageType-msg_type :
    (m : Member) (t : ℕ) (vs : List Value) (rest : Bytes)
    → ((fs : List Field) × (layout m ≡ ("MessageType", ushort) ∷ fs))
      × (msg_type (encode (layout m) (num t ∷ vs) ++ rest) ≡ t % 2 ^ 16)
MessageType-msg_type m t vs rest =
    ((rest_of (layout m), layout_start m), msg_type-encode m t vs rest)

module _ {H : Type 0} (process_rx_frame : H → ℕ → Bytes → ℕ × H) (stream : ℕ) where
  abbrev pub binary_frames : List Sent → Bytes
  binary_frames [] = []
  binary_frames ((m, vs) ∷ ms) = binary_frame m vs ++ binary_frames ms

  -- The frames of the interface are those of the framer.
  pub frame-payload :
      (s : Sent) → binary_frame s.0 s.1 ≡ frame process_rx_frame 0 stream (payload s)
  unfolding binary_frame encode store
  frame-payload (m, vs) =
      let n : length (encode (layout m) vs) + 0 ≡ size (layout m) =
        omega (arith, length-encode (layout m) vs) in
      ap (λ l. l ++ encode (layout m) vs) (append-nil (le_bytes 2 (size (layout m))))
      ∙ ap (λ k. le_bytes 2 k ++ encode (layout m) vs) (sym n)

  pub frames-payload :
      (ms : List Sent) → binary_frames ms ≡ frames process_rx_frame 0 stream (map payload ms)
  frames-payload [] = refl
  frames-payload ((m, vs) ∷ ms) = ap₂ (λ a b. a ++ b) (frame-payload (m, vs)) (frames-payload ms)

  pub AllFit-payload :
      (max : ℕ) (ms : List Sent)
      → 1024 ≤ max
      → Framed.AllFit process_rx_frame 0 stream max (map payload ms)
  AllFit-payload max [] h = tt
  AllFit-payload max ((m, vs) ∷ ms) h =
      let n = length-encode (layout m) vs in
      let (low, high) = layout_bounds m in
      (
        omega (arith, n, low, high),
        omega (arith, n, low, high),
        omega (arith, n, low, high, h),
        AllFit-payload max ms h,
      )

  -- On a valid stream that is between two frames, whose limit is the 1024 bytes of the clients: the frames
  -- of any messages of the interface, back to back, give the host the bytes of each struct, whole and in
  -- order, and no error but the host's own.
  pub parse_stream-binary_frames :
      (sc : StreamControl) (h : H) (ms : List Sent)
      → IsValid 1024 sc
      → view sc ≡ idle
      → observe (parse_stream process_rx_frame 0 stream sc h (binary_frames ms))
        ≡ deliver_all process_rx_frame 0 stream (map payload ms) h
  parse_stream-binary_frames sc h ms v e =
      ap (λ b. observe (parse_stream process_rx_frame 0 stream sc h b)) (frames-payload ms)
      ∙ Framed.parse_stream-frames process_rx_frame 0 stream 1024 sc h (map payload ms) v e
          (AllFit-payload 1024 ms (omega arith))
