-- ===== src/Framer/Refine.antt =====
-- The chunked framer of generic_framer.cpp does what the byte-by-byte one does.
use core_connect_binary.Base.{
  ℕ, zero, suc, ◌+◌, ◌-◌, ◌*◌, ◌%◌, ◌^◌, ◌≤◌, ◌<◌, ◌≡◌, ◌≢◌, ◌⊎◌, inl, inr, refl, sym, ap, ap₂, ◌∙◌,
  [], ◌∷◌, ◌++◌, arith, ltb, ◌==◌, if◌then◌else◌, length, take, drop, set, get_or, get_or-set_self,
  Bytes, min, memcpy, le_value, length-memcpy, take-memcpy, length-take_le, take-append-drop,
  length-set, ltb-true, ltb-false, le-cases, Bool-cases, ==_iff,
}
use core_connect_binary.Framer.Defs.{
  FrameState, hdr1, hdr2, body, StreamControl, Turn, frame_done, take_body, body_turn, hdr1_turn,
  hdr2_turn, turn,
}
use core_connect_binary.Framer.Spec.{
  Progress, idle, half, filling, Result, going, failed, deliver, advance, feed, run, continue,
}
use core_connect_binary.Framer.Fill.{
  spec_run, spec_continue, spec_advance, run-cons, continue-advance, continue-advance_over,
}

-- Where the control block stands in its frame.
abbrev pub view_in : FrameState → StreamControl → Progress
view_in hdr1 sc = idle
view_in hdr2 sc = half (get_or sc.rx_buf 0 0)
view_in body sc = filling (take sc.rx_len sc.rx_buf) sc.required_len

abbrev pub view : StreamControl → Progress
view sc = view_in sc.rx_frame_state sc

-- The buffer has the size that the length check uses, and a header fits in it.
pub record IsStored (max : ℕ) (sc : StreamControl) : Type 0 where
  pub limit : sc.max_rx_frame_length ≡ max
  pub buffer : length sc.rx_buf ≡ max
  pub least : 2 ≤ max
  pub small : max < 2 ^ 16

-- What each state knows of the counters.
abbrev pub Counted : FrameState → StreamControl → Type 0
Counted hdr1 sc = Unit
Counted hdr2 sc = sc.rx_len ≡ 1
Counted body sc =
    (sc.rx_len ≤ sc.max_rx_frame_length) × (0 < sc.required_len) × (sc.required_len < 2 ^ 16)

pub record IsValid (max : ℕ) (sc : StreamControl) : Type 0 where
  pub stored : IsStored max sc
  pub counted : Counted sc.rx_frame_state sc

abbrev pub weight : FrameState → ℕ
weight body = 1
weight _ = 0

pub weight-le_one : (st : FrameState) → weight st ≤ 1
weight-le_one hdr1 = omega arith
weight-le_one hdr2 = omega arith
weight-le_one body = omega arith

-- Bounds the rounds that the loop can still make.
abbrev pub rounds : {H : Type 0} → Turn H → ℕ
rounds t = 2 * length t.src + weight t.stream_control.rx_frame_state

two_bytes : (buf : Bytes) (b : ℕ) → 2 ≤ length buf → take 2 (set buf 1 b) ≡ get_or buf 0 0 ∷ b ∷ []
two_bytes [] b h = absurd (omega arith)
two_bytes (x ∷ []) b h = absurd (omega arith)
two_bytes (x ∷ y ∷ buf) b h = refl

module _ {H : Type 0} (process_rx_frame : H → ℕ → Bytes → ℕ × H)
    (header_counted stream max : ℕ) where
  -- The specification goes on from where the round has left off.
  pub record Going (r : Result H) (t : Turn H) : Type 0 where
    pub okay : t.ret ≡ 0
    pub same :
        r ≡ spec_run process_rx_frame header_counted stream max (view t.stream_control) t.host t.src
    pub valid : IsValid max t.stream_control

  -- It stops where the round stops, with the same code.
  pub record Stopped (r : Result H) (t : Turn H) : Type 0 where
    pub error : t.ret ≢ 0
    pub same : r ≡ failed t.ret t.host
    pub stored : IsStored max t.stream_control

  abbrev pub Sound : Result H → Turn H → Type 0
  Sound r t = Going r t ⊎ Stopped r t

  frame_done-Sound :
      (sc : StreamControl) (h : H) (src : Bytes)
      → IsStored max sc
      → Sound
          (spec_continue process_rx_frame header_counted stream max
            (deliver process_rx_frame header_counted stream max (take sc.rx_len sc.rx_buf) h)
            src)
          (frame_done process_rx_frame header_counted stream sc h src)
  unfolding frame_done deliver continue
  frame_done-Sound sc h src s =
      let (r, h') = process_rx_frame h stream (take sc.rx_len sc.rx_buf) in
      elim (Bool-cases (r == 0)) [
        | inl fine ↦ inl (record {
          okay = (==_iff r 0).0 fine;
          same = rw fine refl;
          valid = record { stored = omega (arith, s); counted = tt };
        })
        | inr err ↦
            inr (record { error = ground arith; same = rw err refl; stored = omega (arith, s) })
      ]

  -- `clen` more bytes of a body: the buffer after the copy holds what the specification has got.
  copied :
      (sc : StreamControl) (h : H) (clen : ℕ) (src : Bytes)
      → IsStored max sc
      → clen ≤ sc.required_len
      → clen ≤ length src
      → sc.rx_len + clen ≤ max
      → spec_continue process_rx_frame header_counted stream max
          (spec_advance process_rx_frame header_counted stream max
            (take sc.rx_len sc.rx_buf)
            sc.required_len
            h)
          src
        ≡ spec_continue process_rx_frame header_counted stream max
            (spec_advance process_rx_frame header_counted stream max
              (take ((sc.rx_len + clen) % 2 ^ 16) (memcpy sc.rx_buf sc.rx_len (take clen src)))
              (sc.required_len - clen)
              h)
            (drop clen src)
  copied sc h clen src s cr cl fits =
      let got = take sc.rx_len sc.rx_buf in
      let xs = take clen src in
      let len : length xs ≡ clen = length-take_le src cl in
      let got_len : length got ≡ sc.rx_len = length-take_le sc.rx_buf (omega (arith, s)) in
      let sum : (sc.rx_len + clen) % 2 ^ 16 ≡ sc.rx_len + length xs = omega (arith, s, len) in
      let held : take ((sc.rx_len + clen) % 2 ^ 16) (memcpy sc.rx_buf sc.rx_len xs) ≡ got ++ xs =
        ap (λ n. take n (memcpy sc.rx_buf sc.rx_len xs)) sum
        ∙ take-memcpy sc.rx_buf sc.rx_len xs (omega (arith, s, len)) in
      ap
        (spec_continue process_rx_frame header_counted stream max
          (spec_advance process_rx_frame header_counted stream max got sc.required_len h))
        (sym (take-append-drop clen src))
      ∙ continue-advance process_rx_frame header_counted stream max xs got sc.required_len h
          (drop clen src) (omega (arith, len)) (omega (arith, len, got_len))
      ∙ ap₂
          (λ g n.
            spec_continue process_rx_frame header_counted stream max
              (spec_advance process_rx_frame header_counted stream max g n h) (drop clen src))
          (sym held) (ap (λ n. sc.required_len - n) len)

  advance-pos :
      (got : Bytes) (need : ℕ) (h : H)
      → 0 < need
      → spec_advance process_rx_frame header_counted stream max got need h
        ≡ going (filling got need) h
  unfolding advance
  advance-pos got zero h lt = absurd (omega arith)
  advance-pos got (suc need) h lt = refl

  take_body-Sound :
      (sc : StreamControl) (h : H) (clen : ℕ) (src : Bytes)
      → IsStored max sc
      → sc.rx_frame_state ≡ body
      → clen ≤ sc.required_len
      → clen ≤ length src
      → sc.rx_len + clen ≤ max
      → sc.required_len < 2 ^ 16
      → Sound
          (spec_continue process_rx_frame header_counted stream max
            (spec_advance process_rx_frame header_counted stream max
              (take sc.rx_len sc.rx_buf)
              sc.required_len
              h)
            src)
          (take_body process_rx_frame header_counted stream sc h clen src)
  unfolding take_body
  take_body-Sound sc h clen src s st cr cl fits small =
      let stored' = length-memcpy sc.rx_buf sc.rx_len (take clen src) in
      rw (copied sc h clen src s cr cl fits) (elim (Bool-cases (sc.required_len - clen == 0)) [
        | inl done ↦
            let none_left : sc.required_len - clen ≡ 0 =
              (==_iff (sc.required_len - clen) 0).0 done in
            rw none_left
              (unfold advance in frame_done-Sound _ h (drop clen src) (omega (arith, s, stored')))
        | inr more ↦
            let left : 0 < sc.required_len - clen = ground arith in
            rw more (
              inl (record {
                okay = refl;
                same =
                    rw (advance-pos _ (sc.required_len - clen) h left, st)
                      (unfold continue in refl);
                valid = record {
                  stored = omega (arith, s, stored');
                  counted = rw st (omega (arith, s));
                };
              }))
      ])

  body_view :
      (sc : StreamControl) (h : H) (src : Bytes)
      → 0 < sc.required_len
      → spec_continue process_rx_frame header_counted stream max
          (spec_advance process_rx_frame header_counted stream max
            (take sc.rx_len sc.rx_buf)
            sc.required_len
            h)
          src
        ≡ spec_run process_rx_frame header_counted stream max (view_in body sc) h src
  body_view sc h src lt =
      rw (advance-pos (take sc.rx_len sc.rx_buf) sc.required_len h lt) (unfold continue in refl)

  -- The bytes that a body round takes.
  abbrev clen_of : StreamControl → Bytes → ℕ
  clen_of sc src = if ltb sc.required_len (length src) then sc.required_len else length src

  clen_min : (sc : StreamControl) (src : Bytes) → clen_of sc src ≡ min sc.required_len (length src)
  clen_min sc src = ground arith

  body_turn-Sound :
      (sc : StreamControl) (h : H) (src : Bytes)
      → IsStored max sc
      → sc.rx_frame_state ≡ body
      → sc.rx_len ≤ max
      → sc.required_len < 2 ^ 16
      → Sound
          (spec_continue process_rx_frame header_counted stream max
            (spec_advance process_rx_frame header_counted stream max
              (take sc.rx_len sc.rx_buf)
              sc.required_len
              h)
            src)
          (body_turn process_rx_frame header_counted stream sc h src)
  unfolding body_turn
  body_turn-Sound sc h src s st le small =
      let m = clen_min sc src in
      let sum : (sc.rx_len + clen_of sc src) % 2 ^ 32 ≡ sc.rx_len + clen_of sc src =
        omega (arith, s, m) in
      let got_len : length (take sc.rx_len sc.rx_buf) ≡ sc.rx_len =
        length-take_le sc.rx_buf (omega (arith, s)) in
      elim (le-cases (sc.rx_len + clen_of sc src) max) [
        | inl fits ↦
            rw
              (ltb-false {a = sc.max_rx_frame_length} {b = (sc.rx_len + clen_of sc src) % 2 ^ 32}
                (omega (arith, s)))
              (take_body-Sound sc h (clen_of sc src) src s st (omega (arith, m)) (omega (arith, m))
                fits small)
        | inr over ↦
            rw
              (ltb-true {a = sc.max_rx_frame_length} {b = (sc.rx_len + clen_of sc src) % 2 ^ 32}
                (omega (arith, s)))
              (inr (record {
                error = omega arith;
                same =
                    continue-advance_over process_rx_frame header_counted stream max src
                      (take sc.rx_len sc.rx_buf) sc.required_len h (omega (arith, got_len))
                      (omega (arith, got_len, m));
                stored = s;
              }))
      ]

  hdr1_turn-Sound :
      (sc : StreamControl) (h : H) (b : ℕ) (src : Bytes)
      → IsStored max sc
      → Sound
          (spec_run process_rx_frame header_counted stream max idle h (b ∷ src))
          (hdr1_turn process_rx_frame header_counted stream sc h b src)
  unfolding hdr1_turn run feed
  hdr1_turn-Sound sc h b src s = inl (record {
    okay = refl;
    same =
        ap (λ x. spec_run process_rx_frame header_counted stream max (half x) h src)
          (sym (get_or-set_self sc.rx_buf 0 b 0 (omega (arith, s))));
    valid = record { stored = omega (arith, s, length-set sc.rx_buf 0 b); counted = refl };
  })

  hdr2_turn-Sound :
      (sc : StreamControl) (h : H) (b : ℕ) (src : Bytes)
      → IsStored max sc
      → sc.rx_len ≡ 1
      → Sound
          (spec_run process_rx_frame header_counted stream max
            (half (get_or sc.rx_buf 0 0))
            h
            (b ∷ src))
          (hdr2_turn process_rx_frame header_counted stream sc h b src)
  unfolding hdr2_turn feed
  hdr2_turn-Sound sc h b src s one =
      let two = two_bytes sc.rx_buf b (omega (arith, s)) in
      let value : le_value (take 2 (set sc.rx_buf 1 b)) % 2 ^ 16
          ≡ (get_or sc.rx_buf 0 0 + 256 * b) % 2 ^ 16 =
        ap (λ bs. le_value bs % 2 ^ 16) two ∙ unfold le_value in omega arith in
      let held : take ((sc.rx_len + 1) % 2 ^ 16) (set sc.rx_buf 1 b)
          ≡ get_or sc.rx_buf 0 0 ∷ b ∷ [] =
        ap (λ n. take n (set sc.rx_buf 1 b)) {y = 2} (omega (arith, one)) ∙ two in
      let sc' = record sc {
        rx_len = (sc.rx_len + 1) % 2 ^ 16;
        rx_frame_state = body;
        rx_buf = set sc.rx_buf 1 b;
        required_len = (get_or sc.rx_buf 0 0 + 256 * b) % 2 ^ 16 - header_counted;
      } in
      let stored' : IsStored max sc' = omega (arith, s, length-set sc.rx_buf 1 b) in
      rw (run-cons process_rx_frame header_counted stream max, value)
        (elim (le-cases 2 ((get_or sc.rx_buf 0 0 + 256 * b) % 2 ^ 16)) [
          | inl enough ↦
              rw (ltb-false {b = 2} enough, ← held)
                (body_turn-Sound sc' h src stored' refl (omega (arith, s, one)) (omega arith))
          | inr short ↦ rw (ltb-true {b = 2} short) (
              inr (record {
                error = omega arith;
                same = unfold continue in refl;
                stored = omega (arith, s, length-set sc.rx_buf 1 b);
              }))
        ])

  -- A round of the loop is sound in every state.
  pub turn-Sound :
      (sc : StreamControl) (h : H) (b : ℕ) (src : Bytes) (st : FrameState)
      → sc.rx_frame_state ≡ st
      → IsStored max sc
      → Counted st sc
      → Sound
          (spec_run process_rx_frame header_counted stream max (view_in st sc) h (b ∷ src))
          (turn process_rx_frame header_counted stream st sc h b src)
  unfolding turn
  turn-Sound sc h b src hdr1 e s c = hdr1_turn-Sound sc h b src s
  turn-Sound sc h b src hdr2 e s c = hdr2_turn-Sound sc h b src s c
  turn-Sound sc h b src body e s c =
      rw (← body_view sc h (b ∷ src) c.1)
        (body_turn-Sound sc h (b ∷ src) s e (omega (arith, s, c.0)) c.2)
