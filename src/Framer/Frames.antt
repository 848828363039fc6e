-- ===== src/Framer/Frames.antt =====
-- Frames that are sent come out of util_lib/generic_framer as they went in.
use core_connect_binary.Base.{
  ℕ, ◌+◌, ◌-◌, ◌*◌, ◌%◌, ◌/◌, ◌^◌, ◌≤◌, ◌<◌, ◌≡◌, refl, ap, ◌∙◌, List, [], ◌∷◌, ◌++◌, arith, ◌==◌,
  if◌then◌else◌, inl, inr, length, Bytes, le_bytes, ltb-false, Bool-cases,
}
use core_connect_binary.Framer.Defs.{StreamControl, parse_stream}
use core_connect_binary.Framer.Spec.{Progress, idle, half, run, continue, advance, deliver, feed}
use core_connect_binary.Framer.Fill.{
  spec_run, spec_continue, spec_advance, run-cons, continue-advance,
}
use core_connect_binary.Framer.Refine.{view, IsValid}
use core_connect_binary.Framer.Theorems.{observe, outcome, parse_stream-run}

module _ {H : Type 0} (process_rx_frame : H → ℕ → Bytes → ℕ × H) (header_counted stream : ℕ) where
  -- A frame with its header.
  abbrev pub frame : Bytes → Bytes
  frame payload = le_bytes 2 (length payload + header_counted) ++ payload

  abbrev pub frames : List Bytes → Bytes
  frames [] = []
  frames (p ∷ ps) = frame p ++ frames ps

  -- The payloads that the format and the limit allow.
  abbrev pub AllFit : ℕ → List Bytes → Type 0
  AllFit max [] = Unit
  AllFit max (p ∷ ps) =
      (2 ≤ length p + header_counted)
      × (length p + header_counted < 2 ^ 16)
      × (length p + 2 ≤ max)
      × AllFit max ps

  -- The host gets the frames in order, up to the first that it refuses.
  unfoldable pub deliver_all : List Bytes → H → ℕ × Progress × H
  deliver_all [] h = (0, idle, h)
  deliver_all (p ∷ ps) h =
      let (r, h') = process_rx_frame h stream (frame p) in
      let rest = deliver_all ps h' in if r == 0 then rest else (r, idle, h')

  run-frame :
      (max : ℕ) (p : Bytes) (h : H) (rest : Bytes)
      → 2 ≤ length p + header_counted
      → length p + header_counted < 2 ^ 16
      → length p + 2 ≤ max
      → spec_run process_rx_frame header_counted stream max idle h (frame p ++ rest)
        ≡ spec_continue process_rx_frame header_counted stream max
            (deliver process_rx_frame header_counted stream max (frame p) h)
            rest
  unfolding le_bytes feed continue advance
  run-frame max p h rest least short fits =
      let n = length p + header_counted in
      let b0 = n % 256 in
      let b1 = n / 256 % 256 in
      let value : (b0 + 256 * b1) % 2 ^ 16 ≡ n = omega arith in
      let need : n - header_counted ≡ length p = omega arith in
      run-cons process_rx_frame header_counted stream max idle h b0 (b1 ∷ (p ++ rest))
      ∙ run-cons process_rx_frame header_counted stream max (half b0) h b1 (p ++ rest)
      ∙ rw (value, ltb-false {b = 2} least, need)
          (continue-advance process_rx_frame header_counted stream max p (b0 ∷ b1 ∷ []) (length p) h
              rest (omega arith) (omega arith)
            ∙ ap
                (λ m.
                  spec_continue process_rx_frame header_counted stream max
                    (spec_advance process_rx_frame header_counted stream max (b0 ∷ b1 ∷ p) m h)
                    rest)
                {y = 0} (omega arith))

  run-frames :
      (max : ℕ) (ps : List Bytes) (h : H)
      → AllFit max ps
      → outcome (spec_run process_rx_frame header_counted stream max idle h (frames ps))
        ≡ deliver_all ps h
  unfolding deliver_all deliver continue
  run-frames max [] h fit = unfold run in refl
  run-frames max (p ∷ ps) h fit =
      rw (run-frame max p h (frames ps) fit.0 fit.1 fit.2)
        (elim (Bool-cases ((process_rx_frame h stream (frame p)).0 == 0)) [
          | inl fine ↦ rw fine (run-frames max ps (process_rx_frame h stream (frame p)).1 fit.3)
          | inr err ↦ rw err refl
        ])

  -- The frames of payloads that fit, sent back to back to an idle valid stream in one chunk, reach the
  -- host whole and in order, each with its header; the call returns 0, or the code of the first frame
  -- that the host refuses, after which none is delivered; and the stream is idle again.
  pub parse_stream-frames :
      (max : ℕ) (sc : StreamControl) (h : H) (ps : List Bytes)
      → IsValid max sc
      → view sc ≡ idle
      → AllFit max ps
      → observe (parse_stream process_rx_frame header_counted stream sc h (frames ps))
        ≡ deliver_all ps h
  parse_stream-frames max sc h ps v e fit =
      (parse_stream-run process_rx_frame header_counted stream max sc h (frames ps) v).0
      ∙ ap (λ p. outcome (run process_rx_frame header_counted stream max p h (frames ps))) e
      ∙ run-frames max ps h fit
