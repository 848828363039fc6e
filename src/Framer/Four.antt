-- ===== src/Framer/Four.antt =====
-- util_lib/generic_framer/src/generic_framer2.cpp and h/generic_framer2.hpp: the framer with a length of
-- four bytes. Parameters and numbers are those of Framer/Defs.
use core_connect_binary.Base.{
  ℕ, zero, suc, ◌+◌, ◌-◌, ◌%◌, ◌^◌, none, some, List, [], ◌∷◌, ltb, leb, ◌==◌, if◌then◌else◌,
  length, take, drop, set, get_elem?, replicate, Bytes, memcpy, le_value,
}
use core_connect_binary.Framer.Defs.{
  no_error, hdr_len_range, stream_range, body_len_range, max_number_streams,
}

abbrev pub min_frame_length : ℕ
min_frame_length = 4

-- `enum frame_state`
pub data FrameState : Type 0 where
  idle hdr body : FrameState

-- `STREAM_CONTROL`
pub record StreamControl : Type 0 where
  pub max_rx_frame_length : ℕ
  pub rx_frame_state : FrameState
  pub rx_len : ℕ
  pub required_len : ℕ
  pub rx_buf : Bytes

-- The object: `m_sc` and `m_number_of_streams`.
pub record GenericFramer2 : Type 0 where
  pub sc : List StreamControl
  pub number_of_streams : ℕ

-- `storage n` is what `new char [n]` leaves in a fresh buffer.
unfoldable pub new_stream : (ℕ → Bytes) → ℕ → StreamControl
new_stream storage max =
    let size = if ltb max min_frame_length then min_frame_length else max in
    record {
      max_rx_frame_length = size;
      rx_frame_state = idle;
      rx_len = 0;
      required_len = 0;
      rx_buf = storage size;
    }

-- The constructor.
unfoldable pub generic_framer2 : (ℕ → Bytes) → ℕ → ℕ → GenericFramer2
generic_framer2 storage number_of_streams max_rx_frame_length =
    let n =
      if ltb max_number_streams number_of_streams then max_number_streams else number_of_streams in
    record { sc = replicate n (new_stream storage max_rx_frame_length); number_of_streams = n }

unfoldable pub clear_stream : StreamControl → StreamControl
clear_stream sc = record sc { rx_frame_state = idle }

-- The variables of the loop after a round.
pub record Turn (H : Type 0) : Type 0 where
  pub stream_control : StreamControl
  pub host : H
  pub src : Bytes
  pub ret : ℕ

-- `unsigned int`: the length without the four bytes of the header.
abbrev pub required : Bytes → ℕ
required buf = (le_value (take 4 buf) + (2 ^ 32 - 4)) % 2 ^ 32

module _ {H : Type 0} where
  -- The fourth byte of the header completes the length.
  unfoldable pub header_done : StreamControl → H → Bytes → Turn H
  header_done sc h src =
      let n = required sc.rx_buf in
      record {
        stream_control = record sc { rx_frame_state = body; required_len = n };
        host = h;
        src = src;
        ret = if ltb n 4 then hdr_len_range else no_error;
      }

  -- `case frame_state_hdr`
  unfoldable pub hdr_turn : StreamControl → H → ℕ → Bytes → Turn H
  hdr_turn sc h b src =
      let next = record sc {
        rx_buf = set sc.rx_buf sc.rx_len b;
        rx_len = (sc.rx_len + 1) % 2 ^ 32;
      } in
      if next.rx_len == 4
      then header_done next h src
      else record { stream_control = next; host = h; src = src; ret = no_error }

  -- `case frame_state_idle`, which falls through.
  unfoldable pub idle_turn : StreamControl → H → ℕ → Bytes → Turn H
  idle_turn sc h b src = hdr_turn (record sc { rx_len = 0; rx_frame_state = hdr }) h b src

module _ {H : Type 0} (process_rx_frame : H → ℕ → Bytes → ℕ × H) (stream : ℕ) where
  -- A complete frame goes to the host.
  unfoldable pub frame_done : StreamControl → H → Bytes → Turn H
  frame_done sc h src =
      let (r, h1) = process_rx_frame h stream (take sc.rx_len sc.rx_buf) in
      record { stream_control = record sc { rx_frame_state = idle }; host = h1; src = src; ret = r }

  -- `case frame_state_body`, once the bytes are counted; `clen` is at most `required_len`.
  unfoldable pub take_body : StreamControl → H → ℕ → Bytes → Turn H
  take_body sc h clen src =
      let next = record sc {
        rx_buf = memcpy sc.rx_buf sc.rx_len (take clen src);
        rx_len = (sc.rx_len + clen) % 2 ^ 32;
        required_len = sc.required_len - clen;
      } in
      if next.required_len == 0
      then frame_done next h (drop clen src)
      else record { stream_control = next; host = h; src = drop clen src; ret = no_error }

  -- `case frame_state_body`
  unfoldable pub body_turn : StreamControl → H → Bytes → Turn H
  body_turn sc h src =
      let clen = if ltb sc.required_len (length src) then sc.required_len else length src in
      if ltb sc.max_rx_frame_length ((sc.rx_len + clen) % 2 ^ 32)
      then record { stream_control = sc; host = h; src = src; ret = body_len_range }
      else take_body sc h clen src

  -- One round of the loop, on the state and the bytes left, of which there is one at least.
  unfoldable pub turn : FrameState → StreamControl → H → ℕ → Bytes → Turn H
  turn idle sc h b src = idle_turn sc h b src
  turn hdr sc h b src = hdr_turn sc h b src
  turn body sc h b src = body_turn sc h (b ∷ src)

  -- The loop, for as many rounds as the fuel allows.
  unfoldable pub loop : ℕ → StreamControl → H → Bytes → Turn H
  loop fuel sc h [] = record { stream_control = sc; host = h; src = []; ret = no_error }
  loop zero sc h (b ∷ src) = record { stream_control = sc; host = h; src = b ∷ src; ret = no_error }
  loop (suc fuel) sc h (b ∷ src) =
      let t = turn sc.rx_frame_state sc h b src in
      let rest = loop fuel t.stream_control t.host t.src in if t.ret == no_error then rest else t

  -- `parse_raw_rx_data` on the control block of its stream: every round takes a byte, or is the last.
  unfoldable pub parse_stream : StreamControl → H → Bytes → ℕ × StreamControl × H
  parse_stream sc h src =
      let t = loop (length src) sc h src in
      if t.ret == no_error
      then (t.ret, t.stream_control, t.host)
      else (t.ret, clear_stream t.stream_control, t.host)

  unfoldable pub parse_raw_rx_data : GenericFramer2 → H → Bytes → ℕ × GenericFramer2 × H
  parse_raw_rx_data f h src =
      if leb f.number_of_streams stream
      then (stream_range, f, h)
      else elim (get_elem? f.sc stream) [
        | none ↦ (stream_range, f, h)
        | some sc ↦
            let (ret, next, h1) = parse_stream sc h src in
            (ret, record f { sc = set f.sc stream next }, h1)
      ]

unfoldable pub clear : GenericFramer2 → ℕ → ℕ × GenericFramer2
clear f stream =
    if leb f.number_of_streams stream then (stream_range, f) else elim (get_elem? f.sc stream) [
      | none ↦ (stream_range, f)
      | some sc ↦ (no_error, record f { sc = set f.sc stream (clear_stream sc) })
    ]
