-- ===== src/Framer/Tests.antt =====
-- util_lib/generic_framer on concrete streams.
use core_connect_binary.Base.{
  ℕ, ◌≡◌, ◌≢◌, refl, arith, List, [], ◌∷◌, ◌++◌, some, replicate, length, length-replicate,
  get_elem?, ◌==◌, if◌then◌else◌, ltb, Bytes,
}
use core_connect_binary.Framer.Defs.{
  StreamControl, GenericFramer, hdr1, body, generic_framer, parse_stream, parse_raw_rx_data, clear,
  stream_range, no_error, loop,
}
use core_connect_binary.Framer.Spec.{idle, run}
use core_connect_binary.Framer.Refine.{view, IsValid}
use core_connect_binary.Framer.Fill.{spec_run}
use core_connect_binary.Framer.Rounds.{Ended, loop-Ended}
use core_connect_binary.Framer.Theorems.{observe, outcome, parse_stream-run, parse_stream-append}
use core_connect_binary.Framer.Frames.{frames, deliver_all, parse_stream-frames}
use core_connect_binary.Framer.Streams.{
  IsFramer, generic_framer-IsFramer, parse_raw_rx_data_lem, parse_raw_rx_data_range, clear_lem,
}

-- A host that keeps the frames, and refuses the third.
abbrev keep_two : List Bytes → ℕ → Bytes → ℕ × List Bytes
keep_two h stream f = if ltb (length h) 2 then (0, h ++ f ∷ []) else (7, h)

abbrev zeros : ℕ → Bytes
zeros n = replicate n 0

abbrev fresh : StreamControl
fresh = record {
  max_rx_frame_length = 8;
  rx_frame_state = hdr1;
  rx_len = 0;
  required_len = 0;
  rx_buf = zeros 8;
}

-- Two of four bytes of a frame are there.
abbrev waiting : StreamControl
waiting = record {
  max_rx_frame_length = 8;
  rx_frame_state = body;
  rx_len = 4;
  required_len = 2;
  rx_buf = 6 ∷ 0 ∷ 1 ∷ 2 ∷ 0 ∷ 0 ∷ 0 ∷ 0 ∷ [];
}

fresh-IsValid : IsValid 8 fresh
fresh-IsValid = record {
  stored = record { limit = refl; buffer = refl; least = omega arith; small = omega arith };
  counted = tt;
}

waiting-IsValid : IsValid 8 waiting
waiting-IsValid = record {
  stored = record { limit = refl; buffer = refl; least = omega arith; small = omega arith };
  counted = omega arith;
}

abbrev two_streams : GenericFramer
two_streams = record { sc = fresh ∷ fresh ∷ []; number_of_streams = 2 }

sized : (n : ℕ) → length (zeros n) ≡ n
sized n = length-replicate n 0

two_streams-IsFramer : IsFramer 8 two_streams
two_streams-IsFramer = record {
  counted = refl;
  bounded = omega arith;
  streams = (fresh-IsValid, (fresh-IsValid, tt));
}

generic_framer-IsFramer_example : IsFramer 2 (generic_framer zeros 300 1)
generic_framer-IsFramer_example = generic_framer-IsFramer zeros 300 1 sized (omega arith)

parse_stream-run_example :
    let out = parse_stream keep_two 2 0 waiting [] (3 ∷ 4 ∷ 3 ∷ 0 ∷ 9 ∷ 5 ∷ []) in
    (observe out ≡ outcome (run keep_two 2 0 8 (view waiting) [] (3 ∷ 4 ∷ 3 ∷ 0 ∷ 9 ∷ 5 ∷ [])))
    × IsValid 8 out.1
parse_stream-run_example =
    parse_stream-run keep_two 2 0 8 waiting [] (3 ∷ 4 ∷ 3 ∷ 0 ∷ 9 ∷ 5 ∷ []) waiting-IsValid

parse_stream-append_example :
    let whole = parse_stream keep_two 2 0 fresh [] ((4 ∷ []) ++ 0 ∷ 1 ∷ 2 ∷ []) in
    let (ret, sc', h') = parse_stream keep_two 2 0 fresh [] (4 ∷ []) in
    observe whole ≡ (
      if ret == 0
      then observe (parse_stream keep_two 2 0 sc' h' (0 ∷ 1 ∷ 2 ∷ []))
      else (ret, idle, h'))
parse_stream-append_example =
    parse_stream-append keep_two 2 0 8 fresh [] (4 ∷ []) (0 ∷ 1 ∷ 2 ∷ []) fresh-IsValid

abbrev payloads : List Bytes
payloads = (1 ∷ 2 ∷ []) ∷ (3 ∷ 4 ∷ 5 ∷ []) ∷ []

-- Two frames as `generic_framer1` reads them: the length does not count the header.
parse_stream-frames_example :
    observe (parse_stream keep_two 0 0 fresh [] (frames keep_two 0 0 payloads))
    ≡ deliver_all keep_two 0 0 payloads []
parse_stream-frames_example =
    parse_stream-frames keep_two 0 0 8 fresh [] payloads fresh-IsValid refl
      (omega arith, omega arith, omega arith, (omega arith, omega arith, omega arith, tt))

loop-Ended_example :
    Ended keep_two 2 0 8
      (spec_run keep_two 2 0 8 (view waiting) [] (3 ∷ 4 ∷ []))
      (loop keep_two 2 0 6 waiting [] (3 ∷ 4 ∷ []))
loop-Ended_example =
    loop-Ended keep_two 2 0 8 6 waiting [] (3 ∷ 4 ∷ []) waiting-IsValid (omega arith)

parse_raw_rx_data_lem_example :
    let (ret, f', h') = parse_raw_rx_data keep_two 2 1 two_streams [] (4 ∷ 0 ∷ 1 ∷ 2 ∷ []) in
    (sc sc' : StreamControl) × (get_elem? two_streams.sc 1 ≡ some sc)
    × (get_elem? f'.sc 1 ≡ some sc')
    × (observe (ret, sc', h') ≡ outcome (run keep_two 2 1 8 (view sc) [] (4 ∷ 0 ∷ 1 ∷ 2 ∷ [])))
    × ((j : ℕ) → 1 ≢ j → get_elem? f'.sc j ≡ get_elem? two_streams.sc j)
    × IsFramer 8 f'
parse_raw_rx_data_lem_example =
    parse_raw_rx_data_lem keep_two 2 1 8 two_streams [] (4 ∷ 0 ∷ 1 ∷ 2 ∷ []) two_streams-IsFramer
      (omega arith)

parse_raw_rx_data_range_example :
    parse_raw_rx_data keep_two 2 5 two_streams [] (4 ∷ []) ≡ (stream_range, two_streams, [])
parse_raw_rx_data_range_example =
    parse_raw_rx_data_range keep_two 2 5 two_streams [] (4 ∷ []) (omega arith)

clear_lem_example :
    let (ret, f') = clear two_streams 0 in
    (ret ≡ no_error)
    × ((sc : StreamControl) × (get_elem? f'.sc 0 ≡ some sc) × (view sc ≡ idle))
    × ((j : ℕ) → 0 ≢ j → get_elem? f'.sc j ≡ get_elem? two_streams.sc j)
    × IsFramer 8 f'
clear_lem_example = clear_lem 8 two_streams 0 two_streams-IsFramer (omega arith)
