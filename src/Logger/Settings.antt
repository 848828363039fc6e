-- ===== src/Logger/Settings.antt =====
-- util_lib/logger/src/logger.cpp: the switches of the logger, its levels and its file. All of them hold
-- the lock.
use core_connect_binary.Base.{
  ℕ, zero, suc, Bool, true, false, Option, none, some, List, [], ◌∷◌, Bytes,
}
use core_connect_binary.Logger.Levels.{Level, get_level_from_str}
use core_connect_binary.Logger.Pool.{Pool, PoolEntry, disk_thread, request_terminate}
use core_connect_binary.Logger.Line.{Logger, p_do_work}

unfoldable pub flush : Logger → Logger
flush l = p_do_work l

unfoldable pub disable_buffered : Logger → Logger
disable_buffered l = p_do_work (record l { m_buffered = false })

unfoldable pub enable_buffered : Logger → Logger
enable_buffered l = record l { m_buffered = true }

unfoldable pub disable_stream : Logger → Logger
disable_stream l = record l { m_stream_out = false }

unfoldable pub enable_stream : Logger → Logger
enable_stream l = record l { m_stream_out = true }

-- Without a file name the switch stays as it is.
unfoldable pub file_out_if : Option Bytes → Bool → Logger → Logger
file_out_if none on l = l
file_out_if (some name) on l = record l { m_file_out = on }

unfoldable pub disable_file : Logger → Logger
disable_file l = file_out_if l.m_file_name false l

unfoldable pub enable_file : Logger → Logger
enable_file l = file_out_if l.m_file_name true l

unfoldable pub enable_async : Logger → Logger
enable_async l = record l { m_async = true }

-- The loop of `disable_async`: while it sleeps, the disk thread makes a step. `dirty` is the dirty pool
-- of `p`.
unfoldable pub wait_until_empty : ℕ → List PoolEntry → Pool → Option Pool
wait_until_empty fuel [] p = some p
wait_until_empty zero (e ∷ es) p = none
wait_until_empty (suc fuel) (e ∷ es) p =
    let q = disk_thread p in wait_until_empty fuel q.dirty_pool q

unfoldable pub synchronous : Logger → Option Pool → Option Logger
synchronous l none = none
synchronous l (some p) = some (record l { pool = p; m_async = false })

unfoldable pub disable_async : ℕ → Logger → Option Logger
disable_async fuel l =
    let w = p_do_work l in let p = w.pool in synchronous w (wait_until_empty fuel p.dirty_pool p)

-- The new name: an empty one switches the file off.
unfoldable pub set_new_file : Bytes → Logger → Logger
set_new_file [] l = let w = p_do_work l in record w { m_file_name = none; m_file_out = false }
set_new_file (c ∷ file_name) l =
    let w = p_do_work l in record w { m_file_name = some (c ∷ file_name) }

unfoldable pub set_force_flush_level : Level → Logger → Logger
set_force_flush_level level l = record l { m_force_flush_log_level = level }

unfoldable pub set_level : Level → Logger → Logger
set_level level l = record l { m_log_level = level }

unfoldable pub set_level_found : Option Level → Logger → Level × Logger
set_level_found none l = (l.m_log_level, l)
set_level_found (some level) l = (level, record l { m_log_level = level })

-- `set_level(const char *)`
unfoldable pub set_level_str : Bytes → Logger → Level × Logger
set_level_str ll_str l = set_level_found (get_level_from_str ll_str) l

-- The destructor up to `pthread_join`.
unfoldable pub close_logger : Logger → Logger
close_logger l = let w = p_do_work l in record w { pool = request_terminate w.pool }
