-- ===== src/Timestamp/Epoch.antt =====
-- util_lib/time/src/timestamp.cpp and h/timestamp.hpp: the epoch and the difference to UTC.
use core_connect_binary.Base.{◌+◌, ◌%◌, ◌<◌, ◌≡◌, arith}
use core_connect_binary.Timestamp.Clock.{
  TimeVal, base_epoch_usecs, today_epoch_usecs, today_usecs_from_epoch, epoch_usecs, epoch_msecs,
  base_epoch_msecs, today_epoch_msecs, today_epoch_secs, epoch_secs,
}

-- For a time of the clock with less than 1000000 microseconds, the start of the day and the time of
-- the day make up the time of the epoch, in microseconds and in milliseconds;
-- `today_usecs_from_epoch` finds the time of the day again, and its seconds are those of the epoch
-- mod 86400.
pub epoch_usecs-split :
    (tv : TimeVal)
    → tv.tv_usec < 1000000
    → (base_epoch_usecs tv + today_epoch_usecs tv ≡ epoch_usecs tv)
      × (base_epoch_msecs tv + today_epoch_msecs tv ≡ epoch_msecs tv)
      × (today_usecs_from_epoch (epoch_usecs tv) ≡ today_epoch_usecs tv)
      × (today_epoch_secs tv ≡ epoch_secs tv % 86400)
unfolding base_epoch_usecs today_epoch_usecs today_usecs_from_epoch epoch_usecs epoch_msecs
    base_epoch_msecs today_epoch_msecs today_epoch_secs epoch_secs
epoch_usecs-split tv h = (omega arith, omega arith, omega arith, omega arith)
