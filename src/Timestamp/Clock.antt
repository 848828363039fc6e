-- ===== src/Timestamp/Clock.antt =====
-- util_lib/time/src/timestamp.cpp and h/timestamp.hpp: the clock, and the caches of its texts.
-- `gettimeofday` is an argument, its answer; `localtime_r` and `gmtime_r` are the parameter `tm_of`.
-- Times are not negative. A `char` array is the list of its bytes, its last one a NUL.
use core_connect_binary.Base.{
  ℕ, zero, suc, ◌+◌, ◌-◌, ◌*◌, ◌/◌, ◌%◌, Bool, true, false, ◌||◌, not, [], ◌∷◌, ◌++◌, ltb, ◌==◌,
  if◌then◌else◌, set, replicate, take, Bytes,
}
use core_connect_binary.Base.Int.{ℤ, pos, ◌-ℤ◌}
use core_connect_binary.Timestamp.Text.{digit}

-- `enum time_type`
pub data TimeType : Type 0 where
  local gmt : TimeType

abbrev pub same_type : TimeType → TimeType → Bool
same_type local local = true
same_type local gmt = false
same_type gmt local = false
same_type gmt gmt = true

pub record TimeVal : Type 0 where
  pub tv_sec : ℕ
  pub tv_usec : ℕ

-- `struct tm`; `tm_year` counts from 1900, `tm_mon` from 0.
pub record Tm : Type 0 where
  pub tm_sec : ℕ
  pub tm_min : ℕ
  pub tm_hour : ℕ
  pub tm_mday : ℕ
  pub tm_mon : ℕ
  pub tm_year : ℕ
  pub tm_yday : ℕ

-- The number of decimal digits; `n` steps are more than it takes.
unfoldable pub digits_upto : ℕ → ℕ → ℕ
digits_upto zero n = 1
digits_upto (suc fuel) n = let more = digits_upto fuel (n / 10) in if ltb n 10 then 1 else suc more

-- The last `w` digits of `n` before `text`.
unfoldable pub last_digits : ℕ → ℕ → Bytes → Bytes
last_digits zero n text = text
last_digits (suc w) n text = last_digits w (n / 10) (digit (n % 10) ∷ text)

-- `%w.wd` of a number that is not negative: `w` digits at least, with zeros in front.
unfoldable pub format_d : ℕ → ℕ → Bytes
format_d w n = let needed = digits_upto n n in last_digits (if ltb w needed then needed else w) n []

-- "%2.2d:%2.2d:%2.2d.%6.6ld", with its NUL
unfoldable pub hmsu : Tm → ℕ → Bytes
hmsu tm usecs =
    format_d 2 tm.tm_hour
    ++ b':'
      ∷ (format_d 2 tm.tm_min
          ++ b':' ∷ (format_d 2 tm.tm_sec ++ b'.' ∷ (format_d 6 usecs ++ 0 ∷ [])))

-- "%4.4d%2.2d%2.2d-", before it
unfoldable pub ymdhmsu : Tm → ℕ → Bytes
ymdhmsu tm usecs =
    format_d 4 (tm.tm_year + 1900)
    ++ (format_d 2 (tm.tm_mon + 1) ++ (format_d 2 tm.tm_mday ++ b'-' ∷ hmsu tm usecs))

-- The digits of `tmp` written over the six bytes up to `last`.
unfoldable pub put_usecs : Bytes → ℕ → ℕ → Bytes
put_usecs text last tmp =
    let t1 = set text last (digit (tmp % 10)) in
    let t2 = set t1 (last - 1) (digit (tmp / 10 % 10)) in
    let t3 = set t2 (last - 2) (digit (tmp / 10 / 10 % 10)) in
    let t4 = set t3 (last - 3) (digit (tmp / 10 / 10 / 10 % 10)) in
    let t5 = set t4 (last - 4) (digit (tmp / 10 / 10 / 10 / 10 % 10)) in
    set t5 (last - 5) (digit (tmp / 10 / 10 / 10 / 10 / 10 % 10))

-- One cached text: the members `m_...`, and again the members `mf_...`.
pub record TextCache : Type 0 where
  pub time : ℕ
  pub usecs : ℕ
  pub text : Bytes
  pub last_type_called : TimeType

-- The members `ml_...`.
pub record DayCache : Type 0 where
  pub time : ℕ
  pub daysec : ℕ
  pub last_type_called : TimeType

pub record Timestamp : Type 0 where
  pub m : TextCache
  pub mf : TextCache
  pub ml : DayCache

-- The constructor.
unfoldable pub timestamp : Timestamp
timestamp = record {
  m = record { time = 0; usecs = 0; text = replicate 16 0; last_type_called = local };
  mf = record { time = 0; usecs = 0; text = replicate 25 0; last_type_called = local };
  ml = record { time = 0; daysec = 0; last_type_called = local };
}

module _ (tm_of : TimeType → ℕ → Tm) where
  -- What `hmsu_today` and `ymdhmsu_today` have in common: the cache, the format, and the place of the
  -- last digit.
  unfoldable pub refresh : (Tm → ℕ → Bytes) → ℕ → TimeType → TimeVal → TextCache → TextCache
  refresh format last value tv c =
      if not (tv.tv_sec == c.time) || not (same_type c.last_type_called value)
      then record {
        time = tv.tv_sec;
        usecs = tv.tv_usec;
        text = format (tm_of value tv.tv_sec) tv.tv_usec;
        last_type_called = value;
      }
      else if not (tv.tv_usec == c.usecs)
      then record c { usecs = tv.tv_usec; text = put_usecs c.text last tv.tv_usec }
      else c

  unfoldable pub hmsu_today : TimeType → TimeVal → Timestamp → Bytes × Timestamp
  hmsu_today value tv t = let c = refresh hmsu 14 value tv t.m in (c.text, record t { m = c })

  unfoldable pub ymdhmsu_today : TimeType → TimeVal → Timestamp → Bytes × Timestamp
  ymdhmsu_today value tv t =
      let c = refresh ymdhmsu 23 value tv t.mf in (c.text, record t { mf = c })

  unfoldable pub ymdhmsu_today_slow : TimeType → TimeVal → Bytes
  ymdhmsu_today_slow value tv = ymdhmsu (tm_of value tv.tv_sec) tv.tv_usec

  -- `tm_hour * 3600 + tm_min * 60 + tm_sec`
  abbrev pub second_of_day : Tm → ℕ
  second_of_day tm = tm.tm_hour * 3600 + tm.tm_min * 60 + tm.tm_sec

  unfoldable pub usecs_today_slow : TimeType → TimeVal → ℕ
  usecs_today_slow value tv = second_of_day (tm_of value tv.tv_sec) * 1000000 + tv.tv_usec

  unfoldable pub usecs_today : TimeType → TimeVal → Timestamp → ℕ × Timestamp
  usecs_today value tv t =
      let c = t.ml in
      let c1 : DayCache =
        if not (tv.tv_sec == c.time) || not (same_type c.last_type_called value)
        then record {
          time = tv.tv_sec;
          daysec = second_of_day (tm_of value tv.tv_sec);
          last_type_called = value;
        }
        else c in
      (c1.daysec * 1000000 + tv.tv_usec, record t { ml = c1 })

  unfoldable pub hours_diff_to_utc : TimeVal → ℤ
  hours_diff_to_utc tv =
      let utc = tm_of gmt tv.tv_sec in
      let here = tm_of local tv.tv_sec in
      let utc_yday = if ltb here.tm_year utc.tm_year then here.tm_yday + 1 else utc.tm_yday in
      let here_yday = if ltb utc.tm_year here.tm_year then utc.tm_yday + 1 else here.tm_yday in
      if utc_yday == here_yday
      then pos utc.tm_hour -ℤ pos here.tm_hour
      else if ltb here_yday utc_yday
      then pos (utc.tm_hour + 24) -ℤ pos here.tm_hour
      else pos utc.tm_hour -ℤ pos (here.tm_hour + 24)

unfoldable pub base_epoch_usecs : TimeVal → ℕ
base_epoch_usecs tv = tv.tv_sec / 86400 * 86400000000

unfoldable pub base_epoch_msecs : TimeVal → ℕ
base_epoch_msecs tv = base_epoch_usecs tv / 1000

unfoldable pub today_usecs_from_epoch : ℕ → ℕ
today_usecs_from_epoch epoch_usecs = epoch_usecs % 86400000000

unfoldable pub today_epoch_usecs : TimeVal → ℕ
today_epoch_usecs tv = tv.tv_sec % (24 * 60 * 60) * 1000000 + tv.tv_usec

unfoldable pub today_epoch_msecs : TimeVal → ℕ
today_epoch_msecs tv = today_epoch_usecs tv / 1000

unfoldable pub today_epoch_secs : TimeVal → ℕ
today_epoch_secs tv = today_epoch_usecs tv / 1000000

unfoldable pub epoch_usecs : TimeVal → ℕ
epoch_usecs tv = tv.tv_sec * 1000000 + tv.tv_usec

unfoldable pub epoch_msecs : TimeVal → ℕ
epoch_msecs tv = epoch_usecs tv / 1000

unfoldable pub epoch_secs : TimeVal → ℕ
epoch_secs tv = tv.tv_sec

-- `usecs_to_ascii_17_digits(dst, usecs, null_terminate)`: what it writes to `dst`.
unfoldable pub usecs_to_ascii_17_digits : ℕ → Bool → Bytes
usecs_to_ascii_17_digits usecs null_terminate =
    take 17 (format_d 17 usecs) ++ (if null_terminate then 0 ∷ [] else [])
