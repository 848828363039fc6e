-- ===== src/Logger/Buffer.antt =====
-- util_lib/logger/src/logger.cpp: the space in the buffer.
use core_connect_binary.Base.{
  ℕ, ◌+◌, ◌≤◌, ◌<◌, ◌≡◌, refl, sym, ap, subst, ◌∙◌, Bool, true, false, ◌||◌, [], ◌∷◌, ◌++◌, length,
  length-append, length-take_le, ltb, leb, ltb-false, ◌==◌, if◌then◌else◌, take, Bytes, arith,
  Bool-cases, inl, inr,
}
use core_connect_binary.Timestamp.Clock.{TimeVal, Tm}
use core_connect_binary.Logger.Levels.{
  Level, get_str_level, debug_9, debug_8, debug_7, debug_6, debug_5, debug_4, debug_3, debug_2,
  debug_1, debug_0, info, warning, error, fatal, always,
}
use core_connect_binary.Logger.Line.{
  Logger, sz_log_buf, sz_log_buf_extra, format_timestamp, put, process_byte, process_bytes,
  flush_rest, end_line, process_stream, process_data, p_do_work_if, line_byte,
}
use core_connect_binary.Logger.Stamp.{IsClock, Stamped, length-format_timestamp}
use core_connect_binary.Logger.Sinks.{p_do_work_if-Kept, p_do_work_if-line}
use core_connect_binary.Logger.Lines.{
  header, added, started, process_byte-put, started-Stamped, put-Stamped, Stamped-Kept,
}

length-get_str_level : (l : Level) → length (get_str_level l) ≡ 8
unfolding get_str_level
length-get_str_level debug_9 = refl
length-get_str_level debug_8 = refl
length-get_str_level debug_7 = refl
length-get_str_level debug_6 = refl
length-get_str_level debug_5 = refl
length-get_str_level debug_4 = refl
length-get_str_level debug_3 = refl
length-get_str_level debug_2 = refl
length-get_str_level debug_1 = refl
length-get_str_level debug_0 = refl
length-get_str_level info = refl
length-get_str_level warning = refl
length-get_str_level error = refl
length-get_str_level fatal = refl
length-get_str_level always = refl

-- Nothing was written behind the buffer, and there is room for more.
pub record Room (l : Logger) : Type 0 where
  pub inside : l.overrun ≡ false
  pub short : length l.line < sz_log_buf

put-inside :
    (src : Bytes) (l : Logger)
    → l.overrun ≡ false
    → length l.line + length src ≤ sz_log_buf + sz_log_buf_extra
    → (put src l).overrun ≡ false
unfolding put
put-inside src l o h =
    ap (λ b. b || ltb (sz_log_buf + sz_log_buf_extra) (length (l.line ++ src))) o
    ∙ ltb-false (omega (arith, h, length-append l.line src))

put-line : (src : Bytes) (l : Logger) → length (put src l).line ≡ length l.line + length src
unfolding put
put-line src l = length-append l.line src

-- After a call that is made at the latest when the buffer is full, there is room again.
p_do_work_if-Room :
    (b : Bool) (l : Logger)
    → (b ≡ false → length l.line < sz_log_buf)
    → l.overrun ≡ false
    → Room (p_do_work_if b l)
unfolding sz_log_buf
p_do_work_if-Room b l full o = record {
  inside = ap (λ x. x.overrun) (p_do_work_if-Kept b l) ∙ o;
  short = elim (p_do_work_if-line b l) [
    | inl e ↦ subst (λ x. length x < sz_log_buf) (sym e) (omega arith)
    | inr (off, e) ↦ subst (λ x. length x < sz_log_buf) (sym e) (full off)
  ];
}

flush_rest-Room : (l : Logger) → l.overrun ≡ false → Room (flush_rest l)
unfolding flush_rest
flush_rest-Room l o = p_do_work_if-Room _ l (λ off. ground (arith, off)) o

module _ (tm_of : ℕ → Tm) (clock : ℕ → TimeVal) (name : Bytes) (level : Level) where
  length-header :
      (k : ℕ)
      → IsClock tm_of clock
      → length (header tm_of clock name level (clock k)) ≡ 35 + length name
  length-header k c =
      let tv = clock k in
      let text = format_timestamp (tm_of tv.tv_sec) tv.tv_usec in
      let all = length-format_timestamp (tm_of tv.tv_sec) tv.tv_usec (c.tm tv.tv_sec) (c.usecs k) in
      let stamp = length-take_le {n = 25} text (omega (arith, all)) in
      omega (
        arith,
        stamp,
        length-get_str_level level,
        length-append (take 25 text) (get_str_level level ++ b' ' ∷ (name ++ b' ' ∷ [])),
        length-append (get_str_level level) (b' ' ∷ (name ++ b' ' ∷ [])),
        length-append name (b' ' ∷ []),
      )

  length-added :
      (b : Bool) (next : ℕ) (l : Logger)
      → IsClock tm_of clock
      → length (added tm_of clock name level b next l) ≤ 36 + length name
  length-added true next l c =
      let h = header tm_of clock name level (clock l.calls) in
      omega (arith, length-header l.calls c, length-append h (line_byte next ∷ []))
  length-added false next l c = omega arith

  started-same :
      (b : Bool) (l : Logger)
      → (let m = started tm_of clock b l in (m.line ≡ l.line) × (m.overrun ≡ l.overrun))
  started-same true l = (refl, refl)
  started-same false l = (refl, refl)

  record Fits (l : Logger) : Type 0 where
    room : Room l
    stamped : Stamped tm_of l

  process_byte-Fits :
      (c next : ℕ) (l : Logger) (b : Bool)
      → (c == b'\n') ≡ b
      → IsClock tm_of clock
      → length name ≤ 165
      → Fits l
      → Fits (process_byte tm_of clock name level c next l)
  unfolding sz_log_buf_extra
  process_byte-Fits c next l b e k short f =
      let text = added tm_of clock name level b next l in
      let begun = started tm_of clock b l in
      let full = put text begun in
      let flush = leb sz_log_buf (length full.line) in
      let (line, overrun) = started-same b l in
      let room = f.room in
      let bound : length begun.line + length text ≤ sz_log_buf + sz_log_buf_extra =
        omega (arith, length-added b next l k, ap length line, room.short, short) in
      subst Fits (sym (process_byte-put tm_of clock name level c next l b e k f.stamped)) (record {
        room =
            p_do_work_if-Room flush full (λ off. ground (arith, off))
              (put-inside text begun (overrun ∙ room.inside) bound);
        stamped =
            Stamped-Kept tm_of clock full (p_do_work_if flush full) (p_do_work_if-Kept flush full)
              (put-Stamped tm_of clock text begun (started-Stamped tm_of clock b l k f.stamped));
      })

  flush_rest-Fits : (l : Logger) → l.overrun ≡ false → Stamped tm_of l → Fits (flush_rest l)
  unfolding flush_rest
  flush_rest-Fits l o s = record {
    room = flush_rest-Room l o;
    stamped = Stamped-Kept tm_of clock l (flush_rest l) (p_do_work_if-Kept _ l) s;
  }

  end_line-Fits : (c : ℕ) (l : Logger) → Fits l → Fits (end_line c l)
  unfolding end_line sz_log_buf_extra
  end_line-Fits c l f =
      let room = f.room in
      elim (Bool-cases (c == b'\n')) [
        | inl e ↦
            subst (λ b. Fits (flush_rest (if b then l else put (b'\n' ∷ []) l))) (sym e)
              (flush_rest-Fits l room.inside f.stamped)
        | inr e ↦
            subst (λ b. Fits (flush_rest (if b then l else put (b'\n' ∷ []) l))) (sym e)
              (flush_rest-Fits (put (b'\n' ∷ []) l)
                (put-inside (b'\n' ∷ []) l room.inside (omega (arith, room.short)))
                (put-Stamped tm_of clock (b'\n' ∷ []) l f.stamped))
      ]

  process_bytes-Fits :
      (c : ℕ) (src : Bytes) (l : Logger)
      → IsClock tm_of clock
      → length name ≤ 165
      → Fits l
      → (let (c1, m) = process_bytes tm_of clock name level c src l in Fits (end_line c1 m))
  unfolding process_bytes
  process_bytes-Fits c [] l k short f = end_line-Fits c l f
  process_bytes-Fits c (next ∷ src) l k short f =
      process_bytes-Fits (line_byte next) src (process_byte tm_of clock name level c next l) k short
        (process_byte-Fits c next l (c == b'\n') refl k short f)

  process_stream-Fits :
      (src : Bytes) (l : Logger)
      → IsClock tm_of clock
      → length name ≤ 165
      → Fits l
      → Fits (process_stream tm_of clock name level src l)
  unfolding process_stream
  process_stream-Fits [] l k short f = f
  process_stream-Fits (next ∷ src) l k short f = process_bytes-Fits b'\n' (next ∷ src) l k short f

-- With a clock in its ranges, the text of the saved time in the buffer of the timestamp, a name of at
-- most 165 bytes, and a log buffer that holds less than sz_log_buf bytes and was never overrun:
-- process_data writes nothing behind the sz_log_buf + sz_log_buf_extra bytes of the buffer, leaves less
-- than sz_log_buf bytes in it, and the text of the saved time in place.
pub process_data-Room :
    (tm_of : ℕ → Tm) (clock : ℕ → TimeVal) (name : Bytes) (level : Level) (src : Bytes) (l : Logger)
    → IsClock tm_of clock
    → Stamped tm_of l
    → length name ≤ 165
    → Room l
    → (let m = process_data tm_of clock name level src l in Room m × Stamped tm_of m)
unfolding process_data
process_data-Room tm_of clock name level src l k stamped short room =
    let before : Fits tm_of clock name level l = record { room = room; stamped = stamped } in
    let after = process_stream-Fits tm_of clock name level src l k short before in
    let m = process_stream tm_of clock name level src l in
    let held = after.room in
    (
      p_do_work_if-Room _ m (λ _. held.short) held.inside,
      Stamped-Kept tm_of clock m _ (p_do_work_if-Kept _ m) after.stamped,
    )
