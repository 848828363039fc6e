-- ===== src/Framer/FourHeader.antt =====
-- util_lib/generic_framer/src/generic_framer2.cpp: which lengths are refused.
use core_connect_binary.Base.{
  ℕ, ◌+◌, ◌*◌, ◌≤◌, ◌<◌, ◌≡◌, refl, ap, ◌∙◌, ◌&&◌, [], ◌∷◌, ltb, leb, ltb-true, ltb-false, leb-true,
  leb-false, le-cases, if◌then◌else◌, Bool-cases, inl, inr, arith, length, Bytes, le_value,
}
use core_connect_binary.Framer.Defs.{hdr_len_range, no_error}
use core_connect_binary.Framer.Four.{
  idle, StreamControl, required, header_done, hdr_turn, idle_turn, turn, loop, parse_stream,
}

-- The length that four bytes mean.
abbrev pub length_of : ℕ → ℕ → ℕ → ℕ → ℕ
length_of b0 b1 b2 b3 = b0 + 256 * b1 + 65536 * b2 + 16777216 * b3

required-range :
    (b0 b1 b2 b3 : ℕ) (rest : Bytes)
    → b0 < 256
    → b1 < 256
    → b2 < 256
    → b3 < 256
    → (if ltb (required (b0 ∷ b1 ∷ b2 ∷ b3 ∷ rest)) 4 then hdr_len_range else no_error) ≡ (
        if leb 4 (length_of b0 b1 b2 b3) && ltb (length_of b0 b1 b2 b3) 8
        then hdr_len_range
        else no_error)
unfolding le_value
required-range b0 b1 b2 b3 rest h0 h1 h2 h3 =
    let v = length_of b0 b1 b2 b3 in
    let n = required (b0 ∷ b1 ∷ b2 ∷ b3 ∷ rest) in
    elim (le-cases 4 v) [
      | inr low ↦
          rw
            (
              ltb-false {a = n} {b = 4} (omega (arith, low, h0, h1, h2, h3)),
              leb-false {a = 4} {b = v} low,
            )
            refl
      | inl high ↦ elim (le-cases 8 v) [
        | inl longer ↦
            rw
              (
                ltb-false {a = n} {b = 4} (omega (arith, longer, h0, h1, h2, h3)),
                leb-true {a = 4} {b = v} high,
                ltb-false {a = v} {b = 8} longer,
              )
              refl
        | inr short ↦
            rw
              (
                ltb-true {a = n} {b = 4} (omega (arith, short, high)),
                leb-true {a = 4} {b = v} high,
                ltb-true {a = v} {b = 8} short,
              )
              refl
      ]
    ]

module _ {H : Type 0} (process_rx_frame : H → ℕ → Bytes → ℕ × H) (stream : ℕ) where
  header_range_on :
      (buf : Bytes) (max rx_len required_len : ℕ) (h : H) (b0 b1 b2 b3 : ℕ)
      → 4 ≤ length buf
      → b0 < 256
      → b1 < 256
      → b2 < 256
      → b3 < 256
      → (parse_stream process_rx_frame stream
          (record {
            max_rx_frame_length = max;
            rx_frame_state = idle;
            rx_len = rx_len;
            required_len = required_len;
            rx_buf = buf;
          })
          h
          (b0 ∷ b1 ∷ b2 ∷ b3 ∷ [])).0
        ≡ (if leb 4 (length_of b0 b1 b2 b3) && ltb (length_of b0 b1 b2 b3) 8
            then hdr_len_range
            else no_error)
  unfolding parse_stream loop turn idle_turn hdr_turn header_done
  header_range_on (x0 ∷ x1 ∷ x2 ∷ x3 ∷ buf) max rx_len required_len h b0 b1 b2 b3 size h0 h1 h2 h3 =
      let n = required (b0 ∷ b1 ∷ b2 ∷ b3 ∷ buf) in
      elim (Bool-cases (ltb n 4)) [
        | inl short ↦ rw⁻¹ (required-range b0 b1 b2 b3 buf h0 h1 h2 h3) (rw short refl)
        | inr fine ↦ rw⁻¹ (required-range b0 b1 b2 b3 buf h0 h1 h2 h3) (rw fine refl)
      ]
  header_range_on [] max rx_len required_len h b0 b1 b2 b3 size h0 h1 h2 h3 =
      absurd (omega (arith, size))
  header_range_on (x0 ∷ []) max rx_len required_len h b0 b1 b2 b3 size h0 h1 h2 h3 =
      absurd (omega (arith, size))
  header_range_on (x0 ∷ x1 ∷ []) max rx_len required_len h b0 b1 b2 b3 size h0 h1 h2 h3 =
      absurd (omega (arith, size))
  header_range_on (x0 ∷ x1 ∷ x2 ∷ []) max rx_len required_len h b0 b1 b2 b3 size h0 h1 h2 h3 =
      absurd (omega (arith, size))

  -- On an idle stream whose buffer has room for a header, the four bytes of a header are refused with
  -- hdr_len_range exactly if the length they mean is 4, 5, 6 or 7, and accepted otherwise: also if it is
  -- less than the header itself.
  pub parse_stream-header :
      (sc : StreamControl) (h : H) (b0 b1 b2 b3 : ℕ)
      → sc.rx_frame_state ≡ idle
      → 4 ≤ length sc.rx_buf
      → b0 < 256
      → b1 < 256
      → b2 < 256
      → b3 < 256
      → (parse_stream process_rx_frame stream sc h (b0 ∷ b1 ∷ b2 ∷ b3 ∷ [])).0 ≡ (
          if leb 4 (length_of b0 b1 b2 b3) && ltb (length_of b0 b1 b2 b3) 8
          then hdr_len_range
          else no_error)
  parse_stream-header sc h b0 b1 b2 b3 e size h0 h1 h2 h3 =
      ap
        (λ f.
          (parse_stream process_rx_frame stream (record sc { rx_frame_state = f }) h
            (b0 ∷ b1 ∷ b2 ∷ b3 ∷ [])).0)
        e
      ∙ header_range_on sc.rx_buf sc.max_rx_frame_length sc.rx_len sc.required_len h b0 b1 b2 b3
          size h0 h1 h2 h3
