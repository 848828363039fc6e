-- ===== src/Logger/LineTests.antt =====
-- Log lines of concrete loggers.
use core_connect_binary.Base.{
  ℕ, zero, suc, ◌≡◌, refl, Option, none, some, true, false, [], ◌∷◌, ◌++◌, List, length, take,
  Bytes, arith, ◌≤◌, ◌<◌, ◌||◌,
}
use core_connect_binary.Base.Int.{ℤ, pos, pos_part, ltb_ℤ}
use core_connect_binary.Timestamp.Clock.{TimeVal, Tm}
use core_connect_binary.Logger.Levels.{info}
use core_connect_binary.Logger.Pool.{PoolEntry, new_pool, Run, created, contents}
use core_connect_binary.Logger.Line.{
  Logger, new_logger, timestamp, timestamp_at, process_data, sz_log_buf,
}
use core_connect_binary.Logger.Settings.{disable_async, enable_async}
use core_connect_binary.Logger.Stamp.{IsClock, Stamped, stamp, timestamp-stamp}
use core_connect_binary.Logger.Sinks.{concat}
use core_connect_binary.Logger.Buffer.{Room, process_data-Room}
use core_connect_binary.Logger.Drain.{disable_async-Emptied}
use core_connect_binary.Logger.Delivery.{IsDisk, send_to_files-content, send_pool-content}
use core_connect_binary.Logger.Files.{send_to_files, send_pool}
use core_connect_binary.Kernel.{other_errno, is_eintr, is_eagain}
use core_connect_binary.Kernel.Sample.{
  World, world, write_some, errno_of, written, pending, test_kernel,
}

abbrev noon : ℕ → Tm
noon secs = record {
  tm_sec = 1;
  tm_min = 2;
  tm_hour = 12;
  tm_mday = 4;
  tm_mon = 5;
  tm_year = 126;
  tm_yday = 155;
}

abbrev ticking : ℕ → TimeVal
ticking call = record { tv_sec = 5; tv_usec = 12 }

ticking-IsClock : IsClock noon ticking
ticking-IsClock = record {
  tm = λ secs. record {
    sec = omega arith;
    minute = omega arith;
    hour = omega arith;
    mday = omega arith;
    mon = omega arith;
    year = omega arith;
  };
  usecs = λ call. omega arith;
}

abbrev fresh : Logger
fresh = new_logger noon ticking none

fresh-Stamped : Stamped noon fresh
unfolding new_logger timestamp timestamp_at
fresh-Stamped = record { text = refl; small = omega arith }

fresh-Room : Room fresh
unfolding new_logger timestamp timestamp_at sz_log_buf
fresh-Room = record { inside = refl; short = omega arith }

abbrev app : Bytes
app = b'a' ∷ b'p' ∷ b'p' ∷ []

abbrev two_lines : Bytes
two_lines = b'a' ∷ 13 ∷ b'b' ∷ []

timestamp-stamp_example :
    timestamp noon ticking fresh
    ≡ stamp noon (ticking fresh.calls) (record fresh { calls = suc fresh.calls })
timestamp-stamp_example = timestamp-stamp noon ticking fresh ticking-IsClock fresh-Stamped

process_data-Room_example :
    (let m = process_data noon ticking app info two_lines fresh in Room m × Stamped noon m)
process_data-Room_example =
    process_data-Room noon ticking app info two_lines fresh ticking-IsClock fresh-Stamped
      (omega arith) fresh-Room

abbrev async_logger : Logger
async_logger = enable_async fresh

async-Run : Run [] async_logger.pool
unfolding enable_async new_logger timestamp timestamp_at
async-Run = created

async-terminate : (let p = async_logger.pool in p.terminate) ≡ false
unfolding enable_async new_logger timestamp timestamp_at new_pool
async-terminate = refl

disable_async-Emptied_example :
    (m : Logger) × (disable_async 3 async_logger ≡ some m)
    × (m.m_async ≡ false)
    × ((let p = m.pool in p.dirty_pool) ≡ [])
    × ((g : List Bytes) × Run g m.pool)
disable_async-Emptied_example = disable_async-Emptied [] async_logger async-Run async-terminate

disk-taken :
    (src : Bytes) (w : World)
    → ltb_ℤ (pos 0) (write_some src w).0 ≡ true
    → pos_part (write_some src w).0 ≤ length src
      × written (write_some src w).1 ≡ written w ++ take (pos_part (write_some src w).0) src
      × pending (write_some src w).1 ≤ pending w
disk-taken src (world out (suc n) e) h = absurd (ground (arith, h))
disk-taken [] (world out zero e) h = absurd (ground (arith, h))
disk-taken (b ∷ []) (world out zero e) h = (omega arith, refl, omega arith)
disk-taken (b ∷ c ∷ src) (world out zero e) h = (omega arith, refl, omega arith)

disk-delayed :
    (b : ℕ) (src : Bytes) (w : World)
    → ltb_ℤ (pos 0) (write_some (b ∷ src) w).0 ≡ false
    → written (write_some (b ∷ src) w).1 ≡ written w
      × ((is_eintr (errno_of (write_some (b ∷ src) w).1)
            || is_eagain (errno_of (write_some (b ∷ src) w).1))
          ≡ true)
      × pending (write_some (b ∷ src) w).1 < pending w
disk-delayed b src (world out (suc n) e) h = (refl, refl, omega arith)
disk-delayed b [] (world out zero e) h = absurd (ground (arith, h))
disk-delayed b (c ∷ src) (world out zero e) h = absurd (ground (arith, h))

abbrev open_six : Option Bytes → World → ℤ × World
open_six file_name w = (pos 6, w)

abbrev test_disk : IsDisk test_kernel open_six none
test_disk = record {
  content = written;
  patience = pending;
  opened = λ w. (refl, refl, omega arith);
  left = λ fd w. refl;
  taken = λ fd src w h. disk-taken src w h;
  delayed = λ fd b src w h. disk-delayed b src w h;
}

abbrev slow : World
slow = world (7 ∷ []) 2 other_errno

send_to_files-content_example :
    (w1 : World) × (send_to_files test_kernel open_six 5 none app slow ≡ some w1)
    × (written w1 ≡ written slow ++ app)
send_to_files-content_example =
    send_to_files-content test_kernel open_six none test_disk 5 app slow (omega arith)

abbrev two_buffers : List PoolEntry
two_buffers = record { buf = 0; content = app } ∷ record { buf = 3; content = two_lines } ∷ []

send_pool-content_example :
    (w1 : World) × (send_pool test_kernel open_six 8 none two_buffers slow ≡ some w1)
    × (written w1 ≡ written slow ++ concat (contents two_buffers))
send_pool-content_example =
    send_pool-content test_kernel open_six none test_disk 8 two_buffers slow (omega arith)
