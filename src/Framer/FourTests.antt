-- ===== src/Framer/FourTests.antt =====
-- generic_framer2 on concrete streams.
use core_connect_binary.Base.{
  ℕ, ◌≡◌, ◌≢◌, ◌⊎◌, refl, arith, List, [], ◌∷◌, ◌++◌, replicate, length, Bytes, leb, ltb, ◌&&◌,
  if◌then◌else◌,
}
use core_connect_binary.Framer.Defs.{hdr_len_range, no_error}
use core_connect_binary.Framer.Four.{StreamControl, idle, loop, parse_stream}
use core_connect_binary.Framer.FourBounds.{IsValid, parse_stream-IsValid}
use core_connect_binary.Framer.FourHeader.{length_of, parse_stream-header}

abbrev keep : List Bytes → ℕ → Bytes → ℕ × List Bytes
keep h stream f = (0, h ++ f ∷ [])

abbrev fresh : StreamControl
fresh = record {
  max_rx_frame_length = 16;
  rx_frame_state = idle;
  rx_len = 0;
  required_len = 0;
  rx_buf = replicate 16 0;
}

fresh-IsValid : IsValid 16 fresh
fresh-IsValid = record {
  limit = refl;
  buffer = refl;
  least = omega arith;
  inside = omega arith;
  counted = tt;
}

abbrev chunk : Bytes
chunk = 9 ∷ 0 ∷ 0 ∷ 0 ∷ 1 ∷ 2 ∷ 3 ∷ 4 ∷ 5 ∷ 12 ∷ []

parse_stream-IsValid_example :
    (let t = loop keep 0 (length chunk) fresh [] chunk in (t.ret ≢ 0) ⊎ (t.src ≡ []))
    × IsValid 16 (parse_stream keep 0 fresh [] chunk).1
parse_stream-IsValid_example =
    parse_stream-IsValid keep 0 16 fresh [] chunk fresh-IsValid (omega arith)

parse_stream-header_example :
    (parse_stream keep 0 fresh [] (7 ∷ 0 ∷ 0 ∷ 0 ∷ [])).0
    ≡ (if leb 4 (length_of 7 0 0 0) && ltb (length_of 7 0 0 0) 8 then hdr_len_range else no_error)
parse_stream-header_example =
    parse_stream-header keep 0 fresh [] 7 0 0 0 refl (omega arith) (omega arith) (omega arith)
      (omega arith) (omega arith)
