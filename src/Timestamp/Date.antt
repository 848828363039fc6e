-- ===== src/Timestamp/Date.antt =====
-- util_lib/time/src/datestamp.cpp: dates. `gettimeofday` is an argument, its seconds; `localtime_r` is the
-- parameter `tm_of`. Years are 2000 or later, and `skew` is not before the epoch.
use core_connect_binary.Base.{
  ℕ, ◌+◌, ◌-◌, ◌*◌, ◌%◌, ◌^◌, [], ◌∷◌, ◌++◌, ltb, if◌then◌else◌, get_or, Bytes,
}
use core_connect_binary.Base.Int.{ℤ, pos, ◌+ℤ◌, pos_part}
use core_connect_binary.Timestamp.Clock.{Tm, format_d}

module _ (tm_of : ℕ → Tm) where
  -- `tmp.tv_sec += skew`, and the date of that second.
  unfoldable pub skewed : ℤ → ℕ → Tm
  skewed skew tv_sec = tm_of (pos_part (pos tv_sec +ℤ skew))

  -- `get_yyyymmdd` as a text, in both forms.
  unfoldable pub get_yyyymmdd : ℤ → ℕ → Bytes
  get_yyyymmdd skew tv_sec =
      let t = skewed skew tv_sec in
      format_d 4 (t.tm_year + 1900) ++ (format_d 2 (t.tm_mon + 1) ++ format_d 2 t.tm_mday)

  -- `get_mmddyyyy`, in both forms.
  unfoldable pub get_mmddyyyy : ℤ → ℕ → Bytes
  get_mmddyyyy skew tv_sec =
      let t = skewed skew tv_sec in
      format_d 2 (t.tm_mon + 1) ++ (format_d 2 t.tm_mday ++ format_d 4 (t.tm_year + 1900))

  -- `get_yymmdd` as a text, in its three forms.
  unfoldable pub get_yymmdd : ℤ → ℕ → Bytes
  get_yymmdd skew tv_sec =
      let t = skewed skew tv_sec in
      format_d 2 (t.tm_year - 100) ++ (format_d 2 (t.tm_mon + 1) ++ format_d 2 t.tm_mday)

  -- `get_yymmdd(unsigned int &)`
  unfoldable pub yymmdd_number : ℤ → ℕ → ℕ
  yymmdd_number skew tv_sec =
      let t = skewed skew tv_sec in
      ((t.tm_year - 100) * 10000 + (t.tm_mon + 1) * 100 + t.tm_mday) % 2 ^ 32

  -- `get_yyyymmdd(unsigned int &)`
  unfoldable pub yyyymmdd_number : ℤ → ℕ → ℕ
  yyyymmdd_number skew tv_sec =
      let t = skewed skew tv_sec in
      ((t.tm_year + 1900) * 10000 + (t.tm_mon + 1) * 100 + t.tm_mday) % 2 ^ 32

  -- `d[i] - '0'` for the digits of a date.
  abbrev digit_at : Bytes → ℕ → ℕ
  digit_at d i = get_or d i 0 - b'0'

  unfoldable pub get_short_date_as_string : ℤ → ℕ → Bytes
  get_short_date_as_string skew tv_sec =
      let d = get_yymmdd skew tv_sec in
      let day = digit_at d 4 * 10 + digit_at d 5 in
      (digit_at d 0 * 10 + digit_at d 1 + b'A') % 256
      ∷ (digit_at d 2 * 10 + digit_at d 3 + b'A') % 256
      ∷ (if ltb day 26 then day + b'A' else if ltb day 52 then day - 26 + b'a' else day - 52 + b'0')
        % 256
      ∷ []
