-- ===== src/Framer/Rounds.antt =====
-- The loop of `parse_raw_rx_data` ends by its own test, and what its rounds come to.
use core_connect_binary.Base.{
  ℕ, zero, suc, ◌+◌, ◌-◌, ◌*◌, ◌%◌, ◌^◌, ◌≤◌, ◌<◌, ◌≡◌, ◌⊎◌, inl, inr, refl, [], ◌∷◌, arith, length,
  take, set, Bytes, length-drop, le_value, ==_iff, ==_false,
}
use core_connect_binary.Framer.Defs.{
  FrameState, hdr1, hdr2, body, StreamControl, Turn, frame_done, take_body, body_turn, hdr1_turn,
  hdr2_turn, turn, loop,
}
use core_connect_binary.Framer.Spec.{Result, going, run}
use core_connect_binary.Framer.Fill.{spec_run}
use core_connect_binary.Framer.Refine.{view, IsValid, Stopped, turn-Sound, weight, rounds}

module _ {H : Type 0} (process_rx_frame : H → ℕ → Bytes → ℕ × H)
    (header_counted stream max : ℕ) where
  body_turn-rounds :
      (sc : StreamControl) (h : H) (src : Bytes)
      → sc.rx_frame_state ≡ body
      → let t = body_turn process_rx_frame header_counted stream sc h src in
        t.ret ≡ 0 → (rounds t ≤ 2 * length src + 1) × (0 < length src → rounds t ≤ 2 * length src)
  unfolding body_turn take_body frame_done
  body_turn-rounds sc h src st e =
      ground (arith, length-drop sc.required_len src, length-drop (length src) src)

  turn-rounds :
      (sc : StreamControl) (h : H) (b : ℕ) (src : Bytes) (st : FrameState)
      → sc.rx_frame_state ≡ st
      → let t = turn process_rx_frame header_counted stream st sc h b src in
        t.ret ≡ 0 → rounds t < 2 * length (b ∷ src) + weight st
  unfolding turn
  turn-rounds sc h b src hdr1 st e = unfold hdr1_turn in omega arith
  turn-rounds sc h b src hdr2 st e =
      unfold hdr2_turn in
      ground (
        arith,
        body_turn-rounds
            (record sc {
              rx_len = (sc.rx_len + 1) % 2 ^ 16;
              rx_frame_state = body;
              rx_buf = set sc.rx_buf 1 b;
              required_len = le_value (take 2 (set sc.rx_buf 1 b)) % 2 ^ 16 - header_counted;
            })
            h src refl,
      )
  turn-rounds sc h b src body st e =
      omega (arith, (body_turn-rounds sc h (b ∷ src) st e).1 (omega arith))

  -- The loop ran out of bytes, where the specification still runs.
  pub record Finished (r : Result H) (t : Turn H) : Type 0 where
    pub okay : t.ret ≡ 0
    pub same : r ≡ going (view t.stream_control) t.host
    pub valid : IsValid max t.stream_control
    pub none_left : t.src ≡ []

  abbrev pub Ended : Result H → Turn H → Type 0
  Ended r t = Finished r t ⊎ Stopped process_rx_frame header_counted stream max r t

  -- With more fuel than rounds the loop ends by its own test: no bytes left, or an error.
  pub loop-Ended :
      (fuel : ℕ) (sc : StreamControl) (h : H) (src : Bytes)
      → IsValid max sc
      → 2 * length src + weight sc.rx_frame_state < fuel
      → Ended
          (spec_run process_rx_frame header_counted stream max (view sc) h src)
          (loop process_rx_frame header_counted stream fuel sc h src)
  unfolding loop
  loop-Ended zero sc h src v m = absurd (omega arith)
  loop-Ended (suc fuel) sc h [] v m =
      inl (record { okay = refl; same = unfold run in refl; valid = v; none_left = refl })
  loop-Ended (suc fuel) sc h (b ∷ src) v m =
      let t = turn process_rx_frame header_counted stream sc.rx_frame_state sc h b src in
      elim (turn-Sound process_rx_frame header_counted stream max sc h b src sc.rx_frame_state refl
        v.stored v.counted) [
          | inl g ↦
              rw ((==_iff t.ret 0).1 g.okay, g.same)
                (loop-Ended fuel t.stream_control t.host t.src g.valid
                  (omega (arith, turn-rounds sc h b src sc.rx_frame_state refl g.okay)))
          | inr f ↦ rw (==_false f.error) (inr f)
        ]
