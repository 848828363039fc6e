-- ===== src/Logger/Line.antt =====
-- util_lib/logger/src/logger.cpp: log lines and their buffer. `gettimeofday` is the parameter `clock`, its
-- answer to each call in turn, and `localtime_r` is `tm_of`; a system that logs is one thread at a time
-- in `lock()`. The buffers that the disk thread gets are those of Logger/Pool.
use core_connect_binary.Base.{
  ℕ, zero, suc, ◌+◌, ◌*◌, Bool, true, false, not, ◌&&◌, ◌||◌, Option, none, some, List, [], ◌∷◌,
  ◌++◌, length, ltb, leb, ◌==◌, if◌then◌else◌, replicate, take, Bytes,
}
use core_connect_binary.Timestamp.Clock.{TimeVal, Tm, format_d, put_usecs}
use core_connect_binary.Logger.Levels.{Level, info, warning, rank, get_str_level, logging_required}
use core_connect_binary.Logger.Pool.{Pool, new_pool, push_dirty}

unfoldable pub sz_log_buf : ℕ
sz_log_buf = 1024 * 1024 * 2

unfoldable pub sz_log_buf_extra : ℕ
sz_log_buf_extra = 200

abbrev pub timestamp_len : ℕ
timestamp_len = 25

-- `line` is what stands between `m_buf` and `m_cptr`, and `overrun` tells whether a byte was written
-- behind the end of the buffer. `out_stream` is what the stream was given, and `sent` the buffers that
-- `send_to_files` was given by the logging threads. `calls` counts the calls of `gettimeofday`.
pub record Logger : Type 0 where
  pub line : Bytes
  pub overrun : Bool
  pub pool : Pool
  pub out_stream : Bytes
  pub sent : List Bytes
  pub m_file_name : Option Bytes
  pub m_buffered : Bool
  pub m_async : Bool
  pub m_stream_out : Bool
  pub m_file_out : Bool
  pub m_timestamp : Bytes
  pub m_time : ℕ
  pub m_usecs : ℕ
  pub calls : ℕ
  pub m_log_level : Level
  pub m_force_flush_log_level : Level

-- The part of `p_do_work` that is for the file: `m_file_out` and `m_async` come first.
unfoldable pub write_file : Bool → Bool → Logger → Logger
write_file false async l = l
write_file true true l = record l { pool = push_dirty l.line l.pool }
write_file true false l = record l { sent = l.sent ++ l.line ∷ [] }

-- The part for the stream, with `m_stream_out`.
unfoldable pub write_stream : Bool → Logger → Logger
write_stream false l = l
write_stream true l = record l { out_stream = l.out_stream ++ l.line }

unfoldable pub write_line : Logger → Logger
write_line l =
    let w = write_stream l.m_stream_out l in
    let f = write_file w.m_file_out w.m_async w in record f { line = [] }

-- `n` is `m_cptr - m_buf`.
unfoldable pub work_if : ℕ → Logger → Logger
work_if zero l = l
work_if (suc n) l = write_line l

unfoldable pub p_do_work : Logger → Logger
p_do_work l = work_if (length l.line) l

-- The call under a test.
unfoldable pub p_do_work_if : Bool → Logger → Logger
p_do_work_if true l = p_do_work l
p_do_work_if false l = l

-- `memcpy(m_cptr, src, n); m_cptr += n`, and `*m_cptr++ = c`
unfoldable pub put : Bytes → Logger → Logger
put src l =
    let line = l.line ++ src in
    record l {
      line = line;
      overrun = l.overrun || ltb (sz_log_buf + sz_log_buf_extra) (length line);
    }

-- "%4.4d%2.2d%2.2d %2.2d:%2.2d:%2.2d.%6.6ld ", and its NUL
unfoldable pub format_timestamp : Tm → ℕ → Bytes
format_timestamp tm usecs =
    format_d 4 (tm.tm_year + 1900)
    ++ (format_d 2 (tm.tm_mon + 1)
        ++ (format_d 2 tm.tm_mday
            ++ b' '
              ∷ (format_d 2 tm.tm_hour
                  ++ b':'
                    ∷ (format_d 2 tm.tm_min
                        ++ b':'
                          ∷ (format_d 2 tm.tm_sec ++ b'.' ∷ (format_d 6 usecs ++ b' ' ∷ 0 ∷ []))))))

-- A carriage return or a NUL ends a line, too.
unfoldable pub line_byte : ℕ → ℕ
line_byte c = if c == b'\r' || c == 0 then b'\n' else c

unfoldable pub flush_rest : Logger → Logger
flush_rest l =
    let len = length l.line in
    p_do_work_if ((not l.m_buffered && not (len == 0)) || leb sz_log_buf len) l

-- What follows the loop.
unfoldable pub end_line : ℕ → Logger → Logger
end_line c l = flush_rest (if c == b'\n' then l else put (b'\n' ∷ []) l)

module _ (tm_of : ℕ → Tm) (clock : ℕ → TimeVal) where
  unfoldable pub timestamp_at : TimeVal → Logger → Logger
  timestamp_at tv l =
      if not (tv.tv_sec == l.m_time)
      then record l {
        m_time = tv.tv_sec;
        m_usecs = tv.tv_usec;
        m_timestamp = format_timestamp (tm_of tv.tv_sec) tv.tv_usec;
      }
      else if not (tv.tv_usec == l.m_usecs)
      then record l { m_timestamp = put_usecs l.m_timestamp 23 tv.tv_usec; m_usecs = tv.tv_usec }
      else l

  unfoldable pub timestamp : Logger → Logger
  timestamp l = timestamp_at (clock l.calls) (record l { calls = suc l.calls })

  -- The header of a line.
  unfoldable pub put_header : Bytes → Level → Logger → Logger
  put_header name level l =
      let s = timestamp l in
      put (b' ' ∷ []) (
        put name
          (put (b' ' ∷ []) (put (get_str_level level) (put (take timestamp_len s.m_timestamp) s))))

  -- A byte of the stream: `c` is the one before it.
  unfoldable pub process_byte : Bytes → Level → ℕ → ℕ → Logger → Logger
  process_byte name level c next l =
      let headed = if c == b'\n' then put_header name level l else l in
      let full = put (line_byte next ∷ []) headed in
      p_do_work_if (leb sz_log_buf (length full.line)) full

  -- The loop: the last byte, and the logger.
  unfoldable pub process_bytes : Bytes → Level → ℕ → Bytes → Logger → ℕ × Logger
  process_bytes name level c [] l = (c, l)
  process_bytes name level c (next ∷ src) l =
      process_bytes name level (line_byte next) src (process_byte name level c next l)

  unfoldable pub process_stream : Bytes → Level → Bytes → Logger → Logger
  process_stream name level [] l = l
  process_stream name level (next ∷ src) l =
      let (c, m) = process_bytes name level b'\n' (next ∷ src) l in end_line c m

  unfoldable pub process_data : Bytes → Level → Bytes → Logger → Logger
  process_data name level src l =
      let m = process_stream name level src l in
      p_do_work_if (leb (rank m.m_force_flush_log_level) (rank m.m_log_level) && m.m_buffered) m

  -- The macro `LOG`: `src` is what `X` puts into the stream.
  unfoldable pub log : Bytes → Level → Bytes → Logger → Logger
  log name level src l =
      if logging_required l.m_log_level level then process_data name level src l else l

  -- The constructor.
  unfoldable pub new_logger : Option Bytes → Logger
  new_logger file_name = timestamp (record {
    line = [];
    overrun = false;
    pool = new_pool;
    out_stream = [];
    sent = [];
    m_file_name = file_name;
    m_buffered = true;
    m_async = false;
    m_stream_out = true;
    m_file_out = elim file_name [ none ↦ false | some f ↦ true ];
    m_timestamp = replicate 30 0;
    m_time = 0;
    m_usecs = 0;
    calls = 0;
    m_log_level = info;
    m_force_flush_log_level = warning;
  })
