-- ===== src/Framer/Theorems.antt =====
-- What util_lib/generic_framer promises of one stream, in terms of `parse_stream`.
use core_connect_binary.Base.{
  ℕ, ◌≡◌, inl, inr, refl, sym, ap, ap₂, ◌∙◌, ◌++◌, arith, ◌==◌, if◌then◌else◌, Bytes, ==_iff,
  ==_false,
}
use core_connect_binary.Framer.Defs.{StreamControl, loop, enough, parse_stream, clear_stream}
use core_connect_binary.Framer.Spec.{Progress, idle, Result, going, failed, run, continue}
use core_connect_binary.Framer.Fill.{spec_continue, run-append, NonZero, continue-NonZero}
use core_connect_binary.Framer.Refine.{view, IsValid, weight-le_one}
use core_connect_binary.Framer.Rounds.{loop-Ended}

-- What a caller and the host see of a call: the code, where the stream stands, and the host.
abbrev pub Observed : Type 0 → Type 0
Observed H = ℕ × Progress × H

abbrev pub observe : {H : Type 0} → ℕ × StreamControl × H → Observed H
observe (ret, sc, h) = (ret, view sc, h)

-- After an error the stream waits for a header again.
abbrev pub outcome : {H : Type 0} → Result H → Observed H
outcome (going p h) = (0, p, h)
outcome (failed c h) = (c, idle, h)

module _ {H : Type 0} (process_rx_frame : H → ℕ → Bytes → ℕ × H) (header_counted stream : ℕ) where
  -- On a valid stream `parse_raw_rx_data` returns the code that the byte-by-byte framer stops with,
  -- or 0, leaves the stream where that one stands, idle after an error, and has made the same calls of
  -- the host; the stream is valid again.
  pub parse_stream-run :
      (max : ℕ) (sc : StreamControl) (h : H) (src : Bytes)
      → IsValid max sc
      → let out = parse_stream process_rx_frame header_counted stream sc h src in
        (observe out ≡ outcome (run process_rx_frame header_counted stream max (view sc) h src))
        × IsValid max out.1
  unfolding parse_stream clear_stream
  parse_stream-run max sc h src v =
      let t = loop process_rx_frame header_counted stream (enough src) sc h src in
      let fuel_left = weight-le_one sc.rx_frame_state in
      elim (loop-Ended process_rx_frame header_counted stream max (enough src) sc h src v
        (omega (arith, fuel_left))) [
          | inl g ↦ rw ((==_iff t.ret 0).1 g.okay, g.okay, g.same) (refl, g.valid)
          | inr f ↦
              rw (==_false f.error, f.same)
                (refl, record { stored = omega (arith, f.stored); counted = tt })
        ]

  -- The two calls, by what the byte-by-byte framer makes of the first chunk.
  chunks :
      (max : ℕ) (sc : StreamControl) (h : H) (a b : Bytes) (r : Result H)
      → run process_rx_frame header_counted stream max (view sc) h a ≡ r
      → NonZero r
      → IsValid max sc
      → let whole = parse_stream process_rx_frame header_counted stream sc h (a ++ b) in
        let (ret, sc', h') = parse_stream process_rx_frame header_counted stream sc h a in
        observe whole ≡ (
          if ret == 0
          then observe (parse_stream process_rx_frame header_counted stream sc' h' b)
          else (ret, idle, h'))
  unfolding continue
  chunks max sc h a b r e n v =
      let whole =
        (parse_stream-run max sc h (a ++ b) v).0
        ∙ ap outcome (
            run-append process_rx_frame header_counted stream max a b (view sc) h
            ∙ ap (λ q. spec_continue process_rx_frame header_counted stream max q b) e) in
      let first = parse_stream-run max sc h a v in
      chunks_of r n whole (first.0 ∙ ap outcome e) first.1
    where
      chunks_of :
          (r : Result H)
          → NonZero r
          → let (ret, sc', h') = parse_stream process_rx_frame header_counted stream sc h a in
            observe (parse_stream process_rx_frame header_counted stream sc h (a ++ b))
              ≡ outcome (spec_continue process_rx_frame header_counted stream max r b)
            → (ret, view sc', h') ≡ outcome r
            → IsValid max sc'
            → observe (parse_stream process_rx_frame header_counted stream sc h (a ++ b)) ≡ (
                if ret == 0
                then observe (parse_stream process_rx_frame header_counted stream sc' h' b)
                else (ret, idle, h'))
      chunks_of (going p k) n whole seen v' =
          let (ret, sc', h') = parse_stream process_rx_frame header_counted stream sc h a in
          let second = (parse_stream-run max sc' h' b v').0 in
          rw ((==_iff ret 0).1 (ap (λ (o : Observed H). o.0) seen)) (
            whole
            ∙ sym (
                second
                ∙ ap₂ (λ q l. outcome (run process_rx_frame header_counted stream max q l b))
                    (ap (λ (o : Observed H). o.1) seen) (ap (λ (o : Observed H). o.2) seen)))
      chunks_of (failed c k) n whole seen v' =
          let (ret, sc', h') = parse_stream process_rx_frame header_counted stream sc h a in
          let code : ret ≡ c = ap (λ (o : Observed H). o.0) seen in
          rw (==_false {a = ret} {b = 0} (λ z. n (sym code ∙ z)))
            (whole ∙ λ i. (sym code i, idle, sym (ap (λ (o : Observed H). o.2) seen) i))

  -- On a valid stream, a chunk cut in two gives the same as the two halves in turn, with the second
  -- one dropped if the first one ends in an error: the same code, place in the frame, and host.
  pub parse_stream-append :
      (max : ℕ) (sc : StreamControl) (h : H) (a b : Bytes)
      → IsValid max sc
      → let whole = parse_stream process_rx_frame header_counted stream sc h (a ++ b) in
        let (ret, sc', h') = parse_stream process_rx_frame header_counted stream sc h a in
        observe whole ≡ (
          if ret == 0
          then observe (parse_stream process_rx_frame header_counted stream sc' h' b)
          else (ret, idle, h'))
  parse_stream-append max sc h a b v =
      chunks max sc h a b (run process_rx_frame header_counted stream max (view sc) h a) refl
        (unfold continue in
          continue-NonZero process_rx_frame header_counted stream max a (going (view sc) h) tt)
        v
