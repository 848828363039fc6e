-- ===== src/Framer/FourBounds.antt =====
-- util_lib/generic_framer/src/generic_framer2.cpp: the buffer is never left, and the loop ends.
use core_connect_binary.Base.{
  ℕ, zero, suc, ◌+◌, ◌-◌, ◌%◌, ◌^◌, ◌≤◌, ◌<◌, ◌≡◌, ◌≢◌, ◌⊎◌, inl, inr, refl, sym, subst, ◌∙◌, [],
  ◌∷◌, ltb, ◌==◌, ==_iff, if◌then◌else◌, Bool-cases, arith, length, length-drop, take, drop, set,
  length-set, Bytes, memcpy, length-memcpy,
}
use core_connect_binary.Framer.Defs.{no_error}
use core_connect_binary.Framer.Four.{
  FrameState, idle, hdr, body, StreamControl, Turn, header_done, hdr_turn, idle_turn, frame_done,
  take_body, body_turn, turn, loop, parse_stream, clear_stream,
}

-- What a state knows of the bytes in the buffer and of those to come.
abbrev pub Counted : FrameState → ℕ → ℕ → Type 0
Counted idle rx_len required_len = Unit {0}
Counted hdr rx_len required_len = rx_len < 4
Counted body rx_len required_len = 0 < required_len

-- The buffer has its size, and what is received stands inside.
pub record IsValid (max : ℕ) (sc : StreamControl) : Type 0 where
  pub limit : sc.max_rx_frame_length ≡ max
  pub buffer : length sc.rx_buf ≡ max
  pub least : 4 ≤ max
  pub inside : sc.rx_len ≤ max
  pub counted : Counted sc.rx_frame_state sc.rx_len sc.required_len

-- A round that is not the last leaves a valid stream and has taken a byte; the last leaves what is valid
-- once the stream is cleared.
record Went {H : Type 0} (max len : ℕ) (t : Turn H) : Type 0 where
  cleared : IsValid max (clear_stream t.stream_control)
  valid : t.ret ≡ 0 → IsValid max t.stream_control
  shorter : t.ret ≡ 0 → length t.src < len

-- A stream without its state.
record Stored (max : ℕ) (sc : StreamControl) : Type 0 where
  limit : sc.max_rx_frame_length ≡ max
  buffer : length sc.rx_buf ≡ max
  least : 4 ≤ max
  inside : sc.rx_len ≤ max

Stored-clear_stream : (max : ℕ) (sc : StreamControl) → Stored max sc → IsValid max (clear_stream sc)
unfolding clear_stream
Stored-clear_stream max sc s = record {
  limit = s.limit;
  buffer = s.buffer;
  least = s.least;
  inside = s.inside;
  counted = tt;
}

header_done-Went :
    {H : Type 0} (max : ℕ) (sc : StreamControl) (h : H) (src : Bytes)
    → Stored max sc
    → Went max (suc (length src)) (header_done sc h src)
unfolding header_done clear_stream
header_done-Went max sc h src s = record {
  cleared = record {
    limit = s.limit;
    buffer = s.buffer;
    least = s.least;
    inside = s.inside;
    counted = tt;
  };
  valid = λ ok. record {
    limit = s.limit;
    buffer = s.buffer;
    least = s.least;
    inside = s.inside;
    counted = ground (arith, ok);
  };
  shorter = λ _. omega arith;
}

hdr_turn-Went :
    {H : Type 0} (max : ℕ) (sc : StreamControl) (h : H) (b : ℕ) (src : Bytes)
    → sc.rx_frame_state ≡ hdr
    → Stored max sc
    → sc.rx_len < 4
    → Went max (suc (length src)) (hdr_turn sc h b src)
unfolding hdr_turn clear_stream
hdr_turn-Went max sc h b src e s few =
    let next : StreamControl = record sc {
      rx_buf = set sc.rx_buf sc.rx_len b;
      rx_len = (sc.rx_len + 1) % 2 ^ 32;
    } in
    let stored : Stored max next = record {
      limit = s.limit;
      buffer = length-set sc.rx_buf sc.rx_len b ∙ s.buffer;
      least = s.least;
      inside = omega (arith, few, s.least);
    } in
    elim (Bool-cases (next.rx_len == 4)) [
      | inl four ↦ rw four (header_done-Went max next h src stored)
      | inr fewer ↦ rw fewer (record {
        cleared = Stored-clear_stream max next stored;
        valid = λ _. record {
          limit = s.limit;
          buffer = stored.buffer;
          least = s.least;
          inside = stored.inside;
          counted =
              subst (λ f. Counted f next.rx_len next.required_len) (sym e)
                (ground (arith, fewer, few));
        };
        shorter = λ _. omega arith;
      })
    ]

idle_turn-Went :
    {H : Type 0} (max : ℕ) (sc : StreamControl) (h : H) (b : ℕ) (src : Bytes)
    → Stored max sc
    → Went max (suc (length src)) (idle_turn sc h b src)
unfolding idle_turn
idle_turn-Went max sc h b src s =
    hdr_turn-Went max (record sc { rx_len = 0; rx_frame_state = hdr }) h b src refl
      (record { limit = s.limit; buffer = s.buffer; least = s.least; inside = omega arith })
      (omega arith)

module _ {H : Type 0} (process_rx_frame : H → ℕ → Bytes → ℕ × H) (stream : ℕ) where
  frame_done-Went :
      (max len : ℕ) (sc : StreamControl) (h : H) (src : Bytes)
      → Stored max sc
      → length src < len
      → Went max len (frame_done process_rx_frame stream sc h src)
  unfolding frame_done clear_stream
  frame_done-Went max len sc h src s less =
      let valid : IsValid max (clear_stream sc) = Stored-clear_stream max sc s in
      record { cleared = valid; valid = λ _. valid; shorter = λ _. less }

  take_body-Went :
      (max : ℕ) (sc : StreamControl) (h : H) (clen b : ℕ) (src : Bytes)
      → sc.rx_frame_state ≡ body
      → Stored max sc
      → 0 < clen
      → clen ≤ sc.required_len
      → sc.rx_len + clen ≤ max
      → sc.rx_len + clen < 2 ^ 32
      → Went max (suc (length src)) (take_body process_rx_frame stream sc h clen (b ∷ src))
  unfolding take_body clear_stream
  take_body-Went max sc h clen b src e s some_taken within fits small =
      let bytes = b ∷ src in
      let next : StreamControl = record sc {
        rx_buf = memcpy sc.rx_buf sc.rx_len (take clen bytes);
        rx_len = (sc.rx_len + clen) % 2 ^ 32;
        required_len = sc.required_len - clen;
      } in
      let stored : Stored max next = record {
        limit = s.limit;
        buffer = length-memcpy sc.rx_buf sc.rx_len (take clen bytes) ∙ s.buffer;
        least = s.least;
        inside = omega (arith, fits, small);
      } in
      let less : length (drop clen bytes) < suc (length src) =
        omega (arith, length-drop clen bytes, some_taken) in
      elim (Bool-cases (next.required_len == 0)) [
        | inl all ↦
            rw all (frame_done-Went max (suc (length src)) next h (drop clen bytes) stored less)
        | inr more ↦ rw more (record {
          cleared = Stored-clear_stream max next stored;
          valid = λ _. record {
            limit = s.limit;
            buffer = stored.buffer;
            least = s.least;
            inside = stored.inside;
            counted =
                subst (λ f. Counted f next.rx_len next.required_len) (sym e) (ground (arith, more));
          };
          shorter = λ _. less;
        })
      ]

  body_turn-Went :
      (max : ℕ) (sc : StreamControl) (h : H) (b : ℕ) (src : Bytes)
      → sc.rx_frame_state ≡ body
      → Stored max sc
      → 0 < sc.required_len
      → max + suc (length src) < 2 ^ 32
      → Went max (suc (length src)) (body_turn process_rx_frame stream sc h (b ∷ src))
  unfolding body_turn
  body_turn-Went max sc h b src e s needed small =
      let len = suc (length src) in
      let clen = if ltb sc.required_len len then sc.required_len else len in
      let some_taken : 0 < clen = ground (arith, needed) in
      let within : clen ≤ sc.required_len = ground arith in
      let short : clen ≤ len = ground arith in
      elim (Bool-cases (ltb sc.max_rx_frame_length ((sc.rx_len + clen) % 2 ^ 32))) [
        | inl long ↦ rw long (record {
          cleared = Stored-clear_stream max sc s;
          valid = λ ok. absurd (omega (arith, ok));
          shorter = λ ok. absurd (omega (arith, ok));
        })
        | inr fits ↦
            let no_wrap : sc.rx_len + clen < 2 ^ 32 = omega (arith, s.inside, short, small) in
            let room : sc.rx_len + clen ≤ max = ground (arith, fits, s.limit, no_wrap) in
            rw fits (take_body-Went max sc h clen b src e s some_taken within room no_wrap)
      ]

  IsValid-Stored : (max : ℕ) (sc : StreamControl) → IsValid max sc → Stored max sc
  IsValid-Stored max sc v = record {
    limit = v.limit;
    buffer = v.buffer;
    least = v.least;
    inside = v.inside;
  }

  turn-Went :
      (max : ℕ) (f : FrameState) (sc : StreamControl) (h : H) (b : ℕ) (src : Bytes)
      → sc.rx_frame_state ≡ f
      → IsValid max sc
      → max + suc (length src) < 2 ^ 32
      → Went max (suc (length src)) (turn process_rx_frame stream f sc h b src)
  unfolding turn
  turn-Went max idle sc h b src e v small = idle_turn-Went max sc h b src (IsValid-Stored max sc v)
  turn-Went max hdr sc h b src e v small =
      hdr_turn-Went max sc h b src e (IsValid-Stored max sc v)
        (subst (λ f. Counted f sc.rx_len sc.required_len) e v.counted)
  turn-Went max body sc h b src e v small =
      body_turn-Went max sc h b src e (IsValid-Stored max sc v)
        (subst (λ f. Counted f sc.rx_len sc.required_len) e v.counted) small

  -- The loop ended by its own test.
  record Ended (max : ℕ) (t : Turn H) : Type 0 where
    cleared : IsValid max (clear_stream t.stream_control)
    valid : t.ret ≡ 0 → IsValid max t.stream_control
    all_read : t.ret ≡ 0 → t.src ≡ []

  IsValid-clear_stream :
      (max : ℕ) (sc : StreamControl) → IsValid max sc → IsValid max (clear_stream sc)
  IsValid-clear_stream max sc v = Stored-clear_stream max sc (IsValid-Stored max sc v)

  loop-Ended :
      (max fuel : ℕ) (sc : StreamControl) (h : H) (src : Bytes)
      → length src ≤ fuel
      → IsValid max sc
      → max + length src < 2 ^ 32
      → Ended max (loop process_rx_frame stream fuel sc h src)
  unfolding loop
  loop-Ended max fuel sc h [] enough v small = record {
    cleared = IsValid-clear_stream max sc v;
    valid = λ _. v;
    all_read = λ _. refl;
  }
  loop-Ended max zero sc h (b ∷ src) enough v small = absurd (omega (arith, enough))
  loop-Ended max (suc fuel) sc h (b ∷ src) enough v small =
      let t = turn process_rx_frame stream sc.rx_frame_state sc h b src in
      let went = turn-Went max sc.rx_frame_state sc h b src refl v small in
      elim (Bool-cases (t.ret == no_error)) [
        | inl okay ↦
            let fine = (==_iff t.ret 0).0 okay in
            let less = went.shorter fine in
            rw okay (
              loop-Ended max fuel t.stream_control t.host t.src (omega (arith, enough, less))
                (went.valid fine) (omega (arith, small, less)))
        | inr error ↦ rw error (record {
          cleared = went.cleared;
          valid = went.valid;
          all_read = λ ok. absurd (ground (arith, ok, error));
        })
      ]

  -- For a valid stream and a chunk that fits into memory with the buffer: parse_raw_rx_data of the framer
  -- with four-byte lengths returns because an error has occurred or all bytes are read, and leaves a valid
  -- stream: what is received stands inside the buffer, the header is not complete in the state of the
  -- header, and bytes are missing in the state of the body.
  pub parse_stream-IsValid :
      (max : ℕ) (sc : StreamControl) (h : H) (src : Bytes)
      → IsValid max sc
      → max + length src < 2 ^ 32
      → (let t = loop process_rx_frame stream (length src) sc h src in (t.ret ≢ 0) ⊎ (t.src ≡ []))
        × IsValid max (parse_stream process_rx_frame stream sc h src).1
  unfolding parse_stream
  parse_stream-IsValid max sc h src v small =
      let t = loop process_rx_frame stream (length src) sc h src in
      let ended = loop-Ended max (length src) sc h src (omega arith) v small in
      elim (Bool-cases (t.ret == no_error)) [
        | inl okay ↦
            let fine = (==_iff t.ret 0).0 okay in
            rw okay (inr (ended.all_read fine), ended.valid fine)
        | inr error ↦ rw error (inl (λ ok. ground (arith, ok, error)), ended.cleared)
      ]
