-- ===== src/Logger/Stamp.antt =====
-- util_lib/logger/src/logger.cpp: the saved text of the time.
use core_connect_binary.Base.{
  ℕ, suc, ◌+◌, ◌<◌, ◌≡◌, refl, sym, ap, ap₂, ◌∙◌, Bool, true, false, not, length, ◌==◌, ==_iff,
  if◌then◌else◌, arith, Bytes,
}
use core_connect_binary.Timestamp.Clock.{TimeVal, Tm, put_usecs, last_digits}
use core_connect_binary.Timestamp.Cache.{IsTm, format_d_fits}
use core_connect_binary.Logger.Line.{Logger, format_timestamp, timestamp_at, timestamp}

format_timestamp-put_usecs :
    (tm : Tm) (usecs tmp : ℕ)
    → IsTm tm
    → usecs < 1000000
    → tmp < 1000000
    → put_usecs (format_timestamp tm usecs) 23 tmp ≡ format_timestamp tm tmp
unfolding format_timestamp put_usecs last_digits
format_timestamp-put_usecs tm usecs tmp v h1 h2 =
    rw
      (
        format_d_fits 3 (tm.tm_year + 1900) (omega (arith, v)),
        format_d_fits 1 (tm.tm_mon + 1) (omega (arith, v)),
        format_d_fits 1 tm.tm_mday (omega (arith, v)),
        format_d_fits 1 tm.tm_hour (omega (arith, v)),
        format_d_fits 1 tm.tm_min (omega (arith, v)),
        format_d_fits 1 tm.tm_sec (omega (arith, v)),
        format_d_fits 5 usecs (omega arith),
        format_d_fits 5 tmp (omega arith),
      )
      refl

pub length-format_timestamp :
    (tm : Tm) (usecs : ℕ) → IsTm tm → usecs < 1000000 → length (format_timestamp tm usecs) ≡ 26
unfolding format_timestamp last_digits
length-format_timestamp tm usecs v h =
    rw
      (
        format_d_fits 3 (tm.tm_year + 1900) (omega (arith, v)),
        format_d_fits 1 (tm.tm_mon + 1) (omega (arith, v)),
        format_d_fits 1 tm.tm_mday (omega (arith, v)),
        format_d_fits 1 tm.tm_hour (omega (arith, v)),
        format_d_fits 1 tm.tm_min (omega (arith, v)),
        format_d_fits 1 tm.tm_sec (omega (arith, v)),
        format_d_fits 5 usecs (omega arith),
      )
      refl

-- What the C library promises of the clock and of the broken-down time.
pub record IsClock (tm_of : ℕ → Tm) (clock : ℕ → TimeVal) : Type 0 where
  pub tm : (secs : ℕ) → IsTm (tm_of secs)
  pub usecs : (call : ℕ) → (let tv = clock call in tv.tv_usec) < 1000000

-- The saved text is that of the saved time.
pub record Stamped (tm_of : ℕ → Tm) (l : Logger) : Type 0 where
  pub text : l.m_timestamp ≡ format_timestamp (tm_of l.m_time) l.m_usecs
  pub small : l.m_usecs < 1000000

-- The time is saved, and its text made from scratch.
abbrev pub stamp : (ℕ → Tm) → TimeVal → Logger → Logger
stamp tm_of tv l = record l {
  m_time = tv.tv_sec;
  m_usecs = tv.tv_usec;
  m_timestamp = format_timestamp (tm_of tv.tv_sec) tv.tv_usec;
}

with_stamp :
    (l : Logger) {t1 t2 u1 u2 : ℕ} {x1 x2 : Bytes}
    → t1 ≡ t2
    → u1 ≡ u2
    → x1 ≡ x2
    → record l { m_time = t1; m_usecs = u1; m_timestamp = x1 }
      ≡ record l { m_time = t2; m_usecs = u2; m_timestamp = x2 }
with_stamp l {t1} {t2} {u1} {u2} {x1} {x2} et eu ex =
    ap (λ t. record l { m_time = t; m_usecs = u1; m_timestamp = x1 }) et
    ∙ ap (λ u. record l { m_time = t2; m_usecs = u; m_timestamp = x1 }) eu
    ∙ ap (λ x. record l { m_time = t2; m_usecs = u2; m_timestamp = x }) ex

same_second :
    (tm_of : ℕ → Tm) (tv : TimeVal) (l : Logger) (b : Bool)
    → ((secs : ℕ) → IsTm (tm_of secs))
    → tv.tv_usec < 1000000
    → tv.tv_sec ≡ l.m_time
    → (tv.tv_usec == l.m_usecs) ≡ b
    → Stamped tm_of l
    → (if not b
        then record l { m_timestamp = put_usecs l.m_timestamp 23 tv.tv_usec; m_usecs = tv.tv_usec }
        else l)
      ≡ stamp tm_of tv l
same_second tm_of tv l true valid small e u s =
    let same = sym ((==_iff tv.tv_usec l.m_usecs).0 u) in
    with_stamp l (sym e) same (s.text ∙ ap₂ (λ t n. format_timestamp (tm_of t) n) (sym e) same)
same_second tm_of tv l false valid small e u s = with_stamp l (sym e) refl (
    ap (λ t. put_usecs t 23 tv.tv_usec) s.text
    ∙ format_timestamp-put_usecs (tm_of l.m_time) l.m_usecs tv.tv_usec (valid l.m_time) s.small
        small
    ∙ ap (λ t. format_timestamp (tm_of t) tv.tv_usec) (sym e))

any_second :
    (tm_of : ℕ → Tm) (tv : TimeVal) (l : Logger) (b : Bool)
    → ((secs : ℕ) → IsTm (tm_of secs))
    → tv.tv_usec < 1000000
    → (tv.tv_sec == l.m_time) ≡ b
    → Stamped tm_of l
    → (if not b
        then stamp tm_of tv l
        else if not (tv.tv_usec == l.m_usecs)
        then record l { m_timestamp = put_usecs l.m_timestamp 23 tv.tv_usec; m_usecs = tv.tv_usec }
        else l)
      ≡ stamp tm_of tv l
any_second tm_of tv l true valid small e s =
    same_second tm_of tv l (tv.tv_usec == l.m_usecs) valid small ((==_iff tv.tv_sec l.m_time).0 e)
      refl s
any_second tm_of tv l false valid small e s = refl

-- With a clock and broken-down times in their ranges, and the text of the saved time in the buffer,
-- timestamp() leaves the logger as if it had saved the time that gettimeofday tells and formatted all
-- of it anew.
pub timestamp-stamp :
    (tm_of : ℕ → Tm) (clock : ℕ → TimeVal) (l : Logger)
    → IsClock tm_of clock
    → Stamped tm_of l
    → timestamp tm_of clock l ≡ stamp tm_of (clock l.calls) (record l { calls = suc l.calls })
unfolding timestamp timestamp_at
timestamp-stamp tm_of clock l c s =
    let tv = clock l.calls in
    any_second tm_of tv (record l { calls = suc l.calls }) (tv.tv_sec == l.m_time) c.tm
      (c.usecs l.calls) refl (record { text = s.text; small = s.small })
