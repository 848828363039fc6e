-- ===== src/Logger/Lines.antt =====
-- util_lib/logger/src/logger.cpp: the text that process_data makes of what was put into the stream.
use core_connect_binary.Base.{
  ℕ, suc, ◌+◌, ◌≤◌, ◌<◌, ◌≡◌, refl, sym, ap, ap₂, subst, ◌∙◌, Bool, true, false, ◌||◌, [], ◌∷◌,
  ◌++◌, append_assoc, length, length-append, ltb, leb, ◌==◌, if◌then◌else◌, take, Bytes, arith,
}
use core_connect_binary.Timestamp.Clock.{TimeVal, Tm}
use core_connect_binary.Logger.Levels.{Level, get_str_level}
use core_connect_binary.Logger.Line.{
  Logger, sz_log_buf, sz_log_buf_extra, timestamp_len, put, put_header, format_timestamp, line_byte,
  process_byte, p_do_work_if,
}
use core_connect_binary.Logger.Stamp.{IsClock, Stamped, stamp, timestamp-stamp}
use core_connect_binary.Logger.Sinks.{Sink, stream, file, disk, received, Enabled, Kept, logged}

or_less : (o : Bool) (c m n : ℕ) → m ≤ n → ((o || ltb c m) || ltb c n) ≡ (o || ltb c n)
or_less true c m n h = refl
or_less false c m n h = ground arith

put_line :
    (l : Logger) {x y : Bytes} {o p : Bool}
    → x ≡ y
    → o ≡ p
    → record l { line = x; overrun = o } ≡ record l { line = y; overrun = p }
put_line l {x} {y} {o} {p} ex eo =
    ap (λ x. record l { line = x; overrun = o }) ex
    ∙ ap (λ o. record l { line = y; overrun = o }) eo

-- Two writes in a row are one.
pub put-put : (a b : Bytes) (l : Logger) → put b (put a l) ≡ put (a ++ b) l
unfolding put
put-put a b l =
    let c = sz_log_buf + sz_log_buf_extra in
    let assoc = append_assoc l.line a b in
    put_line l assoc (
      or_less l.overrun c (length (l.line ++ a)) (length ((l.line ++ a) ++ b))
        (omega (arith, length-append (l.line ++ a) b))
      ∙ ap (λ x. l.overrun || ltb c (length x)) assoc)

put-received : (s : Sink) (src : Bytes) (l : Logger) → received s (put src l) ≡ received s l
unfolding put
put-received stream src l = refl
put-received file src l = refl
put-received disk src l = refl

pub put-logged : (s : Sink) (src : Bytes) (l : Logger) → logged s (put src l) ≡ logged s l ++ src
unfolding put
put-logged s src l =
    ap (λ r. r ++ (l.line ++ src)) (put-received s src l)
    ∙ sym (append_assoc (received s l) l.line src)

pub put-Enabled : (s : Sink) (src : Bytes) (l : Logger) → Enabled s l → Enabled s (put src l)
unfolding put
put-Enabled stream src l on = on
put-Enabled file src l on = on
put-Enabled disk src l on = on

module _ (tm_of : ℕ → Tm) (clock : ℕ → TimeVal) where
  -- The header of a line at a time.
  abbrev pub header : Bytes → Level → TimeVal → Bytes
  header name level tv =
      take timestamp_len (format_timestamp (tm_of tv.tv_sec) tv.tv_usec)
      ++ (get_str_level level ++ b' ' ∷ (name ++ b' ' ∷ []))

  -- The logger after a look at the clock.
  abbrev pub ticked : Logger → Logger
  ticked l = stamp tm_of (clock l.calls) (record l { calls = suc l.calls })

  pub put_header-put :
      (name : Bytes) (level : Level) (l : Logger)
      → IsClock tm_of clock
      → Stamped tm_of l
      → put_header tm_of clock name level l ≡ put (header name level (clock l.calls)) (ticked l)
  unfolding put_header
  put_header-put name level l c s =
      let now = take timestamp_len (let t = ticked l in t.m_timestamp) in
      let text = get_str_level level in
      let sp : Bytes = b' ' ∷ [] in
      ap (λ t. put sp (put name (put sp (put text (put (take timestamp_len t.m_timestamp) t)))))
        (timestamp-stamp tm_of clock l c s)
      ∙ put-put name sp (put sp (put text (put now (ticked l))))
      ∙ put-put sp (name ++ sp) (put text (put now (ticked l)))
      ∙ put-put text (sp ++ (name ++ sp)) (put now (ticked l))
      ∙ put-put now (text ++ (sp ++ (name ++ sp))) (ticked l)

  -- What a byte adds.
  abbrev pub added : Bytes → Level → Bool → ℕ → Logger → Bytes
  added name level true next l = header name level (clock l.calls) ++ line_byte next ∷ []
  added name level false next l = line_byte next ∷ []

  abbrev pub started : Bool → Logger → Logger
  started true l = ticked l
  started false l = l

  pub process_byte-put :
      (name : Bytes) (level : Level) (c next : ℕ) (l : Logger) (b : Bool)
      → (c == b'\n') ≡ b
      → IsClock tm_of clock
      → Stamped tm_of l
      → process_byte tm_of clock name level c next l ≡ (
          let full = put (added name level b next l) (started b l) in
          p_do_work_if (leb sz_log_buf (length full.line)) full)
  unfolding process_byte
  process_byte-put name level c next l true e k s =
      let flush : Logger → Logger = λ full. p_do_work_if (leb sz_log_buf (length full.line)) full in
      ap
        (λ b.
          flush (put (line_byte next ∷ []) (if b then put_header tm_of clock name level l else l)))
        e
      ∙ ap (λ h. flush (put (line_byte next ∷ []) h)) (put_header-put name level l k s)
      ∙ ap flush (put-put (header name level (clock l.calls)) (line_byte next ∷ []) (ticked l))
  process_byte-put name level c next l false e k s =
      let flush : Logger → Logger = λ full. p_do_work_if (leb sz_log_buf (length full.line)) full in
      ap
        (λ b.
          flush (put (line_byte next ∷ []) (if b then put_header tm_of clock name level l else l)))
        e

  pub started-Enabled : (s : Sink) (b : Bool) (l : Logger) → Enabled s l → Enabled s (started b l)
  started-Enabled stream true l on = on
  started-Enabled file true l on = on
  started-Enabled disk true l on = on
  started-Enabled s false l on = on

  pub started-logged : (s : Sink) (b : Bool) (l : Logger) → logged s (started b l) ≡ logged s l
  started-logged stream true l = refl
  started-logged file true l = refl
  started-logged disk true l = refl
  started-logged s false l = refl

  pub started-Stamped :
      (b : Bool) (l : Logger) → IsClock tm_of clock → Stamped tm_of l → Stamped tm_of (started b l)
  started-Stamped true l k s = record { text = refl; small = k.usecs l.calls }
  started-Stamped false l k s = s

  pub put-Stamped : (src : Bytes) (l : Logger) → Stamped tm_of l → Stamped tm_of (put src l)
  unfolding put
  put-Stamped src l s = record { text = s.text; small = s.small }

  pub Stamped-Kept : (l m : Logger) → Kept l m → Stamped tm_of l → Stamped tm_of m
  Stamped-Kept l m k s = record {
    text =
        ap (λ x. x.m_timestamp) k
        ∙ s.text
        ∙ ap₂ (λ t n. format_timestamp (tm_of t) n) (ap (λ x. x.m_time) (sym k))
            (ap (λ x. x.m_usecs) (sym k));
    small = subst (λ n. n < 1000000) (ap (λ x. x.m_usecs) (sym k)) s.small;
  }
