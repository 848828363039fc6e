-- ===== src/Framer/Defs.antt =====
-- util_lib/generic_framer: the classes `generic_framer` and `generic_framer1`, which split several
-- byte streams into frames behind a two-byte length.
-- The two differ in one line: `generic_framer` takes the two bytes of the header off the length that
-- the header holds, `generic_framer1` does not. That number is the parameter `header_counted`.
-- The virtual `process_rx_frame(stream, src, len)` is a parameter too, a function of the state `H` of
-- the object that implements it; its `int` is 0 for "no error". A `char` is the number of its byte.
use core_connect_binary.Base.{
  ℕ, zero, suc, ◌+◌, ◌-◌, ◌*◌, ◌%◌, ◌^◌, none, some, List, [], ◌∷◌, ltb, leb, ◌==◌, if◌then◌else◌,
  length, take, drop, set, get_elem?, replicate, Bytes, memcpy, le_value,
}

-- `enum framer_errors`
abbrev pub no_error : ℕ
no_error = 0

abbrev pub hdr_len_range : ℕ
hdr_len_range = 5000

abbrev pub stream_range : ℕ
stream_range = 5001

abbrev pub body_len_range : ℕ
body_len_range = 5002

abbrev pub min_frame_length : ℕ
min_frame_length = 2

abbrev pub max_number_streams : ℕ
max_number_streams = 100

-- `enum frame_state`
pub data FrameState : Type 0 where
  hdr1 hdr2 body : FrameState

-- `STREAM_CONTROL`
pub record StreamControl : Type 0 where
  pub max_rx_frame_length : ℕ
  pub rx_frame_state : FrameState
  pub rx_len : ℕ
  pub required_len : ℕ
  pub rx_buf : Bytes

-- The object: `m_sc` and `m_number_of_streams`.
pub record GenericFramer : Type 0 where
  pub sc : List StreamControl
  pub number_of_streams : ℕ

-- `storage n` is what `new char [n]` leaves in a fresh buffer.
unfoldable pub new_stream : (ℕ → Bytes) → ℕ → StreamControl
new_stream storage max =
    let size = if ltb max min_frame_length then min_frame_length else max in
    record {
      max_rx_frame_length = size;
      rx_frame_state = hdr1;
      rx_len = 0;
      required_len = 0;
      rx_buf = storage size;
    }

-- The constructor.
unfoldable pub generic_framer : (ℕ → Bytes) → ℕ → ℕ → GenericFramer
generic_framer storage number_of_streams max_rx_frame_length =
    let n =
      if ltb max_number_streams number_of_streams then max_number_streams else number_of_streams in
    record { sc = replicate n (new_stream storage max_rx_frame_length); number_of_streams = n }

unfoldable pub clear_stream : StreamControl → StreamControl
clear_stream sc = record sc { rx_frame_state = hdr1 }

-- The variables of the loop of `parse_raw_rx_data` after a round: `src` is what is left, so `len` is
-- its length.
pub record Turn (H : Type 0) : Type 0 where
  pub stream_control : StreamControl
  pub host : H
  pub src : Bytes
  pub ret : ℕ

-- Two rounds for each byte and two more are more than the loop can make.
abbrev pub enough : Bytes → ℕ
enough src = 2 * length src + 2

module _ {H : Type 0} (process_rx_frame : H → ℕ → Bytes → ℕ × H) (header_counted stream : ℕ) where
  -- a complete frame goes to the host, and the stream waits for the next header
  unfoldable pub frame_done : StreamControl → H → Bytes → Turn H
  frame_done sc h src =
      let (r, h') = process_rx_frame h stream (take sc.rx_len sc.rx_buf) in
      record { stream_control = record sc { rx_frame_state = hdr1 }; host = h'; src = src; ret = r }

  -- `case frame_state_body`, once the bytes are counted
  unfoldable pub take_body : StreamControl → H → ℕ → Bytes → Turn H
  take_body sc h clen src =
      let sc' = record sc {
        rx_buf = memcpy sc.rx_buf sc.rx_len (take clen src);
        rx_len = (sc.rx_len + clen) % 2 ^ 16;
        required_len = sc.required_len - clen;
      } in
      if sc'.required_len == 0
      then frame_done sc' h (drop clen src)
      else record { stream_control = sc'; host = h; src = drop clen src; ret = no_error }

  -- `case frame_state_body`; `clen` is at most `required_len`, so the subtraction does not wrap
  unfoldable pub body_turn : StreamControl → H → Bytes → Turn H
  body_turn sc h src =
      let clen = if ltb sc.required_len (length src) then sc.required_len else length src in
      if ltb sc.max_rx_frame_length ((sc.rx_len + clen) % 2 ^ 32)
      then record { stream_control = sc; host = h; src = src; ret = body_len_range }
      else take_body sc h clen src

  -- `case frame_state_hdr1`
  unfoldable pub hdr1_turn : StreamControl → H → ℕ → Bytes → Turn H
  hdr1_turn sc h b src = record {
    stream_control = record sc { rx_len = 1; rx_frame_state = hdr2; rx_buf = set sc.rx_buf 0 b };
    host = h;
    src = src;
    ret = no_error;
  }

  -- `case frame_state_hdr2`, which falls through to the body
  unfoldable pub hdr2_turn : StreamControl → H → ℕ → Bytes → Turn H
  hdr2_turn sc h b src =
      let buf = set sc.rx_buf 1 b in
      let sc' = record sc {
        rx_len = (sc.rx_len + 1) % 2 ^ 16;
        rx_frame_state = body;
        rx_buf = buf;
        required_len = le_value (take 2 buf) % 2 ^ 16;
      } in
      if ltb sc'.required_len 2
      then record { stream_control = sc'; host = h; src = src; ret = hdr_len_range }
      else body_turn (record sc' { required_len = sc'.required_len - header_counted }) h src

  -- One round of the loop, on the state and the bytes left, of which there is one at least.
  unfoldable pub turn : FrameState → StreamControl → H → ℕ → Bytes → Turn H
  turn hdr1 sc h b src = hdr1_turn sc h b src
  turn hdr2 sc h b src = hdr2_turn sc h b src
  turn body sc h b src = body_turn sc h (b ∷ src)

  -- `while (len && ret == E_frmr_no_error)` for as many rounds as the fuel allows
  unfoldable pub loop : ℕ → StreamControl → H → Bytes → Turn H
  loop fuel sc h [] = record { stream_control = sc; host = h; src = []; ret = no_error }
  loop zero sc h (b ∷ src) = record { stream_control = sc; host = h; src = b ∷ src; ret = no_error }
  loop (suc fuel) sc h (b ∷ src) =
      let t = turn sc.rx_frame_state sc h b src in
      let rest = loop fuel t.stream_control t.host t.src in if t.ret == no_error then rest else t

  -- `parse_raw_rx_data` on the control block of its stream: code, control block, host
  unfoldable pub parse_stream : StreamControl → H → Bytes → ℕ × StreamControl × H
  parse_stream sc h src =
      let t = loop (enough src) sc h src in
      if t.ret == no_error
      then (t.ret, t.stream_control, t.host)
      else (t.ret, clear_stream t.stream_control, t.host)

  unfoldable pub parse_raw_rx_data : GenericFramer → H → Bytes → ℕ × GenericFramer × H
  parse_raw_rx_data f h src =
      if leb f.number_of_streams stream
      then (stream_range, f, h)
      else elim (get_elem? f.sc stream) [
        | none ↦ (stream_range, f, h)
        | some sc ↦
            let (ret, sc', h') = parse_stream sc h src in
            (ret, record f { sc = set f.sc stream sc' }, h')
      ]

unfoldable pub clear : GenericFramer → ℕ → ℕ × GenericFramer
clear f stream =
    if leb f.number_of_streams stream then (stream_range, f) else elim (get_elem? f.sc stream) [
      | none ↦ (stream_range, f)
      | some sc ↦ (no_error, record f { sc = set f.sc stream (clear_stream sc) })
    ]
