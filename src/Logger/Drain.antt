-- ===== src/Logger/Drain.antt =====
-- util_lib/logger/src/logger.cpp: disable_async comes to an end.
use core_connect_binary.Base.{
  ℕ, zero, suc, ◌≡◌, refl, sym, ap, subst, ◌∙◌, Bool, true, false, Option, some, List, [], ◌∷◌,
  ◌++◌, Bytes, length, arith,
}
use core_connect_binary.Logger.Pool.{
  Pool, PoolEntry, disk_thread, push_dirty, next_buffer, Run, pushed, stepped,
}
use core_connect_binary.Logger.Progress.{three_steps-dirty}
use core_connect_binary.Logger.Line.{
  Logger, write_file, write_stream, write_line, work_if, p_do_work,
}
use core_connect_binary.Logger.Settings.{wait_until_empty, disable_async, synchronous}

-- The wait is over, with the dirty pool empty and nothing else asked of the disk thread.
abbrev Emptied : List Bytes → Option Pool → Type 0
Emptied h o = (p : Pool) × (o ≡ some p) × (p.dirty_pool ≡ []) × Run h p

wait-now :
    {h : List Bytes} (fuel : ℕ) (p : Pool) (dirty : List PoolEntry)
    → p.dirty_pool ≡ dirty
    → Run h p
    → dirty ≡ []
    → Emptied h (wait_until_empty fuel dirty p)
unfolding wait_until_empty
wait-now fuel p [] e r n = (p, refl, e, r)
wait-now fuel p (x ∷ xs) e r n = absurd (ground (arith, n))

-- A step of the wait.
wait-step :
    {h : List Bytes} (fuel : ℕ) (p : Pool) (dirty : List PoolEntry)
    → p.dirty_pool ≡ dirty
    → Run h p
    → (let q = disk_thread p in Emptied h (wait_until_empty fuel q.dirty_pool q))
    → Emptied h (wait_until_empty (suc fuel) dirty p)
unfolding wait_until_empty
wait-step fuel p [] e r next = (p, refl, e, r)
wait-step fuel p (x ∷ xs) e r next = next

wait_until_empty-Emptied :
    {h : List Bytes} (p : Pool)
    → Run h p
    → p.terminate ≡ false
    → Emptied h (wait_until_empty 3 p.dirty_pool p)
wait_until_empty-Emptied p r t =
    let q1 = disk_thread p in
    let q2 = disk_thread q1 in
    let q3 = disk_thread q2 in
    wait-step 2 p p.dirty_pool refl r (
      wait-step 1 q1 q1.dirty_pool refl (stepped r) (
        wait-step 0 q2 q2.dirty_pool refl (stepped (stepped r)) (
          wait-now 0 q3 q3.dirty_pool refl (stepped (stepped (stepped r)))
            (three_steps-dirty p r t))))

-- The pools in a reachable state, with termination not requested.
abbrev pub Alive : Pool → Type 0
Alive p = (h : List Bytes) × Run h p × (p.terminate ≡ false)

next_buffer-terminate : (bs : List ℕ) (p : Pool) → (next_buffer bs p).terminate ≡ p.terminate
unfolding next_buffer
next_buffer-terminate [] p = refl
next_buffer-terminate (b ∷ bs) p = refl

push_dirty-Alive : (content : Bytes) (p : Pool) → Alive p → Alive (push_dirty content p)
unfolding push_dirty
push_dirty-Alive content p (h, r, t) =
    (h ++ content ∷ [], pushed content t r, next_buffer-terminate p.clean_pool _ ∙ t)

write_file-Alive : (f a : Bool) (l : Logger) → Alive l.pool → Alive (write_file f a l).pool
unfolding write_file
write_file-Alive false a l v = v
write_file-Alive true true l v = push_dirty-Alive l.line l.pool v
write_file-Alive true false l v = v

write_stream-pool : (b : Bool) (l : Logger) → (write_stream b l).pool ≡ l.pool
unfolding write_stream
write_stream-pool true l = refl
write_stream-pool false l = refl

work_if-Alive : (n : ℕ) (l : Logger) → Alive l.pool → Alive (work_if n l).pool
unfolding work_if write_line
work_if-Alive zero l v = v
work_if-Alive (suc n) l v =
    let w = write_stream l.m_stream_out l in
    write_file-Alive w.m_file_out w.m_async w
      (subst Alive (sym (write_stream-pool l.m_stream_out l)) v)

p_do_work-Alive : (l : Logger) → Alive l.pool → Alive (p_do_work l).pool
unfolding p_do_work
p_do_work-Alive l v = work_if-Alive (length l.line) l v

-- If the pools are in a reachable state and termination is not requested: disable_async returns after at
-- most three steps of the disk thread, with the asynchronous mode off, the dirty pool empty and the
-- pools in a reachable state.
pub disable_async-Emptied :
    (h : List Bytes) (l : Logger)
    → Run h l.pool
    → (let p = l.pool in p.terminate) ≡ false
    → (m : Logger) × (disable_async 3 l ≡ some m)
      × (m.m_async ≡ false)
      × ((let p = m.pool in p.dirty_pool) ≡ [])
      × ((g : List Bytes) × Run g m.pool)
unfolding disable_async synchronous
disable_async-Emptied h l r t =
    let w = p_do_work l in
    let (g, run, going) = p_do_work-Alive l (h, r, t) in
    let (p, ends, empty, after) = wait_until_empty-Emptied w.pool run going in
    (record w { pool = p; m_async = false }, ap (synchronous w) ends, refl, empty, (g, after))
