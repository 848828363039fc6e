-- ===== src/Logger/Pool.antt =====
-- util_lib/logger/src/logger.cpp: the buffers that the logging threads and the disk thread share.
-- A buffer is the number of its allocation. What stands between two waits for `m_write_mutex` is one
-- step, as nobody else can see the pools in between.
use core_connect_binary.Base.{
  ℕ, ◌+◌, ◌≡◌, Bool, true, false, List, [], ◌∷◌, ◌++◌, if◌then◌else◌, Bytes,
}

-- `struct pool_entry`, with the `len` bytes in the buffer.
pub record PoolEntry : Type 0 where
  pub buf : ℕ
  pub content : Bytes

-- Where the disk thread stands: before its loop, in `pthread_cond_wait`, in `send_to_files`, back from
-- it, and returned.
pub data Phase : Type 0 where
  starting sleeping writing recycling gone : Phase

-- `clean_pool` has the back of the deque first. `waiting_pool` is the disk thread's own. `signalled`
-- holds when a sleeping thread has been signalled, `allocated` is the number of buffers so far, and
-- `handed_over` the buffers that `send_to_files` has been called with, in order: what the file
-- takes of them is said in Files.
pub record Pool : Type 0 where
  pub current : ℕ
  pub dirty_pool : List PoolEntry
  pub clean_pool : List ℕ
  pub waiting_pool : List PoolEntry
  pub phase : Phase
  pub terminate : Bool
  pub signalled : Bool
  pub allocated : ℕ
  pub handed_over : List Bytes

abbrev pub contents : List PoolEntry → List Bytes
contents [] = []
contents (e ∷ es) = e.content ∷ contents es

abbrev pub buffers : List PoolEntry → List ℕ
buffers [] = []
buffers (e ∷ es) = e.buf ∷ buffers es

-- The constructor: one buffer in use, and one clean.
unfoldable pub new_pool : Pool
new_pool = record {
  current = 0;
  dirty_pool = [];
  clean_pool = 1 ∷ [];
  waiting_pool = [];
  phase = starting;
  terminate = false;
  signalled = false;
  allocated = 2;
  handed_over = [];
}

-- A clean buffer, or else a new one, becomes the current one.
unfoldable pub next_buffer : List ℕ → Pool → Pool
next_buffer [] p = record p { current = p.allocated; allocated = p.allocated + 1 }
next_buffer (b ∷ bs) p = record p { current = b; clean_pool = bs }

-- The asynchronous part of `p_do_work`: the buffer is queued, and another one takes its place.
unfoldable pub push_dirty : Bytes → Pool → Pool
push_dirty content p = next_buffer p.clean_pool (record p {
  dirty_pool = p.dirty_pool ++ record { buf = p.current; content = content } ∷ [];
  signalled = true;
})

-- `m_terminate = true` in the destructor, and the signal.
unfoldable pub request_terminate : Pool → Pool
request_terminate p = record p { terminate = true; signalled = true }

-- `waiting_pool = m_dirty_pool; m_dirty_pool.clear()`
unfoldable pub take_dirty : Pool → Pool
take_dirty p = record p { waiting_pool = p.dirty_pool; dirty_pool = []; phase = writing }

-- The rest of the outer loop of `disk_thread`: it waits if nothing is queued.
unfoldable pub wait_or_take : List PoolEntry → Pool → Pool
wait_or_take [] p = record p { phase = sleeping; signalled = false }
wait_or_take (e ∷ es) p = take_dirty p

-- The test of the outer loop.
unfoldable pub outer_test : Pool → Pool
outer_test p = if p.terminate then record p { phase = gone } else wait_or_take p.dirty_pool p

-- The test of the inner loop.
unfoldable pub inner_loop : List PoolEntry → Pool → Pool
inner_loop [] p = outer_test p
inner_loop (e ∷ es) p = take_dirty p

abbrev pub inner_test : Pool → Pool
inner_test p = inner_loop p.dirty_pool p

-- `send_to_files(waiting_pool)` is called, and returns.
unfoldable pub send_waiting : Pool → Pool
send_waiting p = record p {
  handed_over = p.handed_over ++ contents p.waiting_pool;
  phase = recycling;
}

abbrev pub back_first : List ℕ → List ℕ → List ℕ
back_first [] bs = bs
back_first (w ∷ ws) bs = back_first ws (w ∷ bs)

-- The written buffers go to the end of the clean pool.
unfoldable pub recycle : Pool → Pool
recycle p = record p {
  clean_pool = back_first (buffers p.waiting_pool) p.clean_pool;
  waiting_pool = [];
}

-- `pthread_cond_wait`: a thread that nobody has signalled sleeps on.
unfoldable pub woken : Bool → Pool → Pool
woken true p = inner_test p
woken false p = p

-- The next step of the disk thread.
unfoldable pub disk_step : Phase → Pool → Pool
disk_step starting p = outer_test p
disk_step sleeping p = woken p.signalled p
disk_step writing p = send_waiting p
disk_step recycling p = inner_test (recycle p)
disk_step gone p = p

unfoldable pub disk_thread : Pool → Pool
disk_thread p = disk_step p.phase p

-- The pools after any sequence of steps of the two sides, in any interleaving, and the contents that
-- were queued so far, in order. The destructor queues what is left before it asks for termination, and
-- may do so at any time; a sleeping thread may also wake up with no signal.
pub data Run : List Bytes → Pool → Type 0 where
  created : Run [] new_pool
  pushed :
      {h : List Bytes} {p : Pool}
      → (content : Bytes) → p.terminate ≡ false
      → Run h p
      → Run (h ++ content ∷ []) (push_dirty content p)
  terminated : {h : List Bytes} {p : Pool} → Run h p → Run h (request_terminate p)
  spurious : {h : List Bytes} {p : Pool} → (p.phase ≡ sleeping) → Run h p → Run h (inner_test p)
  stepped : {h : List Bytes} {p : Pool} → Run h p → Run h (disk_thread p)
