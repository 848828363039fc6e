-- ===== src/Logger/Tests.antt =====
-- Runs of the logger.
use core_connect_binary.Base.{◌≡◌, refl, false, [], ◌∷◌, Bytes, List, arith}
use core_connect_binary.Logger.Pool.{
  gone, Pool, new_pool, push_dirty, request_terminate, disk_thread, disk_step, outer_test,
  wait_or_take, take_dirty, next_buffer, Run, created, pushed, stepped,
}
use core_connect_binary.Logger.Handover.{Inv, Run-Inv}
use core_connect_binary.Logger.Progress.{disk_thread-handed_over}
use core_connect_binary.Logger.Ending.{request_terminate-gone}

abbrev first : Bytes
first = 65 ∷ 10 ∷ []

abbrev second : Bytes
second = 66 ∷ 10 ∷ []

-- The thread takes the first buffer, and the second is queued while it writes.
abbrev busy : Pool
busy = push_dirty second (disk_thread (push_dirty first new_pool))

abbrev busy_log : List Bytes
busy_log = first ∷ second ∷ []

busy-Run : Run busy_log busy
unfolding new_pool push_dirty next_buffer disk_thread disk_step outer_test wait_or_take take_dirty
busy-Run = pushed second refl (stepped (pushed first refl created))

Run-Inv_example : Inv busy_log busy
Run-Inv_example = Run-Inv busy-Run

busy-terminate : busy.terminate ≡ false
unfolding new_pool push_dirty next_buffer disk_thread disk_step outer_test wait_or_take take_dirty
busy-terminate = refl

disk_thread-handed_over_example :
    (let q = disk_thread (disk_thread (disk_thread busy)) in q.handed_over) ≡ busy_log
disk_thread-handed_over_example = disk_thread-handed_over busy-Run busy-terminate

-- It is asked to terminate while it writes the first buffer, with the second queued.
request_terminate-gone_example :
    let q = disk_thread (disk_thread (disk_thread (disk_thread (request_terminate busy)))) in
    (q.phase ≡ gone) × (q.handed_over ≡ busy_log)
unfolding new_pool push_dirty next_buffer disk_thread disk_step outer_test wait_or_take take_dirty
request_terminate-gone_example =
    request_terminate-gone {p = busy} busy-Run (λ e. absurd (ground (arith, e)))
      (λ e. absurd (ground (arith, e)))
