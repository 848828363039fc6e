-- ===== src/Framer/Variants.antt =====
-- util_lib/generic_framer/src: the two framers with a two-byte header. `generic_framer.cpp` counts the
-- header in the length that it carries, `generic_framer1.cpp` does not; they are otherwise the same.
use core_connect_binary.Base.{ℕ, Bytes}
use core_connect_binary.Framer.Defs.{GenericFramer, parse_raw_rx_data}

abbrev pub parse_raw_rx_data0 :
    {H : Type 0} → (H → ℕ → Bytes → ℕ × H) → ℕ → GenericFramer → H → Bytes → ℕ × GenericFramer × H
parse_raw_rx_data0 process_rx_frame stream = parse_raw_rx_data process_rx_frame 2 stream

abbrev pub parse_raw_rx_data1 :
    {H : Type 0} → (H → ℕ → Bytes → ℕ × H) → ℕ → GenericFramer → H → Bytes → ℕ × GenericFramer × H
parse_raw_rx_data1 process_rx_frame stream = parse_raw_rx_data process_rx_frame 0 stream
