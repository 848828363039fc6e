-- ===== src/Timestamp/ClockTests.antt =====
-- util_lib/time: the clock on concrete times.
use core_connect_binary.Base.{ℕ, ◌+◌, ◌≡◌, ◌%◌, refl, inl, arith}
use core_connect_binary.Timestamp.Clock.{
  TimeType, gmt, TimeVal, Tm, timestamp, hmsu, hmsu_today, usecs_today, usecs_today_slow,
  base_epoch_usecs, today_epoch_usecs, today_usecs_from_epoch, epoch_usecs, epoch_msecs,
  base_epoch_msecs, today_epoch_msecs, today_epoch_secs, epoch_secs,
}
use core_connect_binary.Timestamp.Cache.{
  IsTm, Coherent, DayCoherent, hmsu_today-text, usecs_today-slow,
}
use core_connect_binary.Timestamp.Epoch.{epoch_usecs-split}
use core_connect_binary.Base.Int.{pos}
use core_connect_binary.Timestamp.Date.{
  skewed, get_yyyymmdd, get_yymmdd, yyyymmdd_number, yymmdd_number,
}
use core_connect_binary.Timestamp.DateText.{decimal_from, get_yyyymmdd-number}

-- The same moment, whatever the second.
abbrev still : TimeType → ℕ → Tm
still value time = record {
  tm_sec = 7;
  tm_min = 8;
  tm_hour = 9;
  tm_mday = 10;
  tm_mon = 11;
  tm_year = 100;
  tm_yday = 344;
}

still-IsTm : (value : TimeType) (time : ℕ) → IsTm (still value time)
still-IsTm value time = record {
  sec = omega arith;
  minute = omega arith;
  hour = omega arith;
  mday = omega arith;
  mon = omega arith;
  year = omega arith;
}

abbrev now : TimeVal
now = record { tv_sec = 1700000000; tv_usec = 123456 }

hmsu_today-text_example :
    let (text, t1) = hmsu_today still gmt now timestamp in
    (text ≡ hmsu (still gmt 1700000000) 123456) × Coherent still hmsu t1.m
unfolding timestamp
hmsu_today-text_example =
    hmsu_today-text still gmt now timestamp (omega arith) (omega arith) (still-IsTm gmt 1700000000)
      (inl refl)

usecs_today-slow_example :
    let (usecs, t1) = usecs_today still gmt now timestamp in
    (usecs ≡ usecs_today_slow still gmt now) × DayCoherent still t1.ml
unfolding timestamp
usecs_today-slow_example = usecs_today-slow still gmt now timestamp (omega arith) (inl refl)

epoch_usecs-split_example :
    (base_epoch_usecs now + today_epoch_usecs now ≡ epoch_usecs now)
    × (base_epoch_msecs now + today_epoch_msecs now ≡ epoch_msecs now)
    × (today_usecs_from_epoch (epoch_usecs now) ≡ today_epoch_usecs now)
    × (today_epoch_secs now ≡ epoch_secs now % 86400)
epoch_usecs-split_example = epoch_usecs-split now (omega arith)

abbrev date_of : ℕ → Tm
date_of secs = record {
  tm_sec = 1;
  tm_min = 2;
  tm_hour = 12;
  tm_mday = 4;
  tm_mon = 5;
  tm_year = 126;
  tm_yday = 155;
}

date_of-IsTm : IsTm (skewed date_of (pos 0) 9)
unfolding skewed
date_of-IsTm = record {
  sec = omega arith;
  minute = omega arith;
  hour = omega arith;
  mday = omega arith;
  mon = omega arith;
  year = omega arith;
}

date_of-year : (let t = skewed date_of (pos 0) 9 in t.tm_year) ≡ 126
unfolding skewed
date_of-year = refl

get_yyyymmdd-number_example :
    (decimal_from 0 (get_yyyymmdd date_of (pos 0) 9) ≡ yyyymmdd_number date_of (pos 0) 9)
    × (decimal_from 0 (get_yymmdd date_of (pos 0) 9) ≡ yymmdd_number date_of (pos 0) 9)
get_yyyymmdd-number_example =
    get_yyyymmdd-number date_of (pos 0) 9 date_of-IsTm (omega (arith, date_of-year))
      (omega (arith, date_of-year))
