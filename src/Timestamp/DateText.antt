-- ===== src/Timestamp/DateText.antt =====
-- util_lib/time/src/datestamp.cpp: the texts and the numbers of a date agree.
use core_connect_binary.Base.{
  ℕ, ◌+◌, ◌-◌, ◌*◌, ◌≤◌, ◌<◌, ◌≡◌, sym, ap, ◌∙◌, [], ◌∷◌, ◌++◌, append-nil, Bytes, arith,
}
use core_connect_binary.Base.Int.{ℤ}
use core_connect_binary.Timestamp.Clock.{Tm, last_digits}
use core_connect_binary.Timestamp.Cache.{IsTm, format_d_fits}
use core_connect_binary.Timestamp.Date.{
  skewed, get_yyyymmdd, get_yymmdd, yyyymmdd_number, yymmdd_number,
}

-- The number that a text of digits means, after the digits of `acc`.
abbrev pub decimal_from : ℕ → Bytes → ℕ
decimal_from acc [] = acc
decimal_from acc (d ∷ text) = decimal_from (acc * 10 + (d - b'0')) text

two_digits :
    (acc n : ℕ) (text : Bytes)
    → n < 100
    → decimal_from acc (last_digits 2 n [] ++ text) ≡ decimal_from (acc * 100 + n) text
unfolding last_digits
two_digits acc n text h = ap (λ k. decimal_from k text) (omega (arith, h))

four_digits :
    (acc n : ℕ) (text : Bytes)
    → n < 10000
    → decimal_from acc (last_digits 4 n [] ++ text) ≡ decimal_from (acc * 10000 + n) text
unfolding last_digits
four_digits acc n text h = ap (λ k. decimal_from k text) (omega (arith, h))

one_date :
    (y m d : ℕ)
    → y < 10000
    → m < 100
    → d < 100
    → decimal_from 0 (last_digits 4 y [] ++ (last_digits 2 m [] ++ last_digits 2 d []))
      ≡ y * 10000 + m * 100 + d
one_date y m d hy hm hd =
    four_digits 0 y (last_digits 2 m [] ++ last_digits 2 d []) hy
    ∙ two_digits (0 * 10000 + y) m (last_digits 2 d []) hm
    ∙ ap (λ t. decimal_from ((0 * 10000 + y) * 100 + m) t) (sym (append-nil (last_digits 2 d [])))
    ∙ two_digits ((0 * 10000 + y) * 100 + m) d [] hd
    ∙ omega arith

short_date :
    (y m d : ℕ)
    → y < 100
    → m < 100
    → d < 100
    → decimal_from 0 (last_digits 2 y [] ++ (last_digits 2 m [] ++ last_digits 2 d []))
      ≡ y * 10000 + m * 100 + d
short_date y m d hy hm hd =
    two_digits 0 y (last_digits 2 m [] ++ last_digits 2 d []) hy
    ∙ two_digits (0 * 100 + y) m (last_digits 2 d []) hm
    ∙ ap (λ t. decimal_from ((0 * 100 + y) * 100 + m) t) (sym (append-nil (last_digits 2 d [])))
    ∙ two_digits ((0 * 100 + y) * 100 + m) d [] hd
    ∙ omega arith

-- For a date of the years 2000 to 2099 whose parts are in their ranges: the digits of the texts
-- get_yyyymmdd and get_yymmdd mean the numbers that the functions of these names store in an unsigned
-- int.
pub get_yyyymmdd-number :
    (tm_of : ℕ → Tm) (skew : ℤ) (tv_sec : ℕ)
    → IsTm (skewed tm_of skew tv_sec)
    → 100 ≤ (let t = skewed tm_of skew tv_sec in t.tm_year)
    → (let t = skewed tm_of skew tv_sec in t.tm_year) < 200
    → (decimal_from 0 (get_yyyymmdd tm_of skew tv_sec) ≡ yyyymmdd_number tm_of skew tv_sec)
      × (decimal_from 0 (get_yymmdd tm_of skew tv_sec) ≡ yymmdd_number tm_of skew tv_sec)
unfolding get_yyyymmdd get_yymmdd yyyymmdd_number yymmdd_number
get_yyyymmdd-number tm_of skew tv_sec v low high =
    let t = skewed tm_of skew tv_sec in
    let m : t.tm_mon + 1 < 100 = omega (arith, v) in
    let d : t.tm_mday < 100 = omega (arith, v) in
    let month = format_d_fits 1 (t.tm_mon + 1) m in
    let day = format_d_fits 1 t.tm_mday d in
    (
      rw (format_d_fits 3 (t.tm_year + 1900) (omega (arith, v)), month, day)
          (one_date (t.tm_year + 1900) (t.tm_mon + 1) t.tm_mday (omega (arith, v)) m d
            ∙ omega (arith, high, m, d)),
      rw (format_d_fits 1 (t.tm_year - 100) (omega (arith, high)), month, day)
          (short_date (t.tm_year - 100) (t.tm_mon + 1) t.tm_mday (omega (arith, high)) m d
            ∙ omega (arith, high, m, d)),
    )
