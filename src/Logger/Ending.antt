-- ===== src/Logger/Ending.antt =====
-- util_lib/logger/src/logger.cpp: the destructor's wait for the disk thread comes to an end.
use core_connect_binary.Base.{
  ◌≡◌, ◌≢◌, false, refl, sym, ap, subst, ◌∙◌, true, List, [], ◌∷◌, Bytes, inl, inr, ◌⊎◌, arith,
}
use core_connect_binary.Logger.Pool.{
  PoolEntry, Phase, starting, sleeping, writing, recycling, gone, Pool, take_dirty, inner_loop,
  send_waiting, recycle, disk_step, disk_thread, request_terminate, Run, stepped, terminated,
}
use core_connect_binary.Logger.Handover.{Inv, Run-Inv, outer_test-if, woken-cases}
use core_connect_binary.Logger.Progress.{
  Idle-handed_over, is_writing, Taken, disk_step-terminate, sleeping-Known,
}

-- The thread has returned, with nothing left.
abbrev Ended : Pool → Type 0
Ended p = (p.phase ≡ gone) × (p.dirty_pool ≡ [])

-- It has returned, or is about to hand over what is left.
abbrev Ending : Pool → Type 0
Ending p = Ended p ⊎ Taken p

inner_loop-Ending :
    (d : List PoolEntry) (p : Pool)
    → p.dirty_pool ≡ d
    → p.terminate ≡ true
    → Ending (inner_loop d p)
unfolding inner_loop take_dirty
inner_loop-Ending [] p e t = inl (subst Ended (sym (outer_test-if p t)) (refl, e))
inner_loop-Ending (x ∷ d) p e t = inr (refl, refl)

inner_loop-Ended :
    (d : List PoolEntry) (p : Pool)
    → p.dirty_pool ≡ d
    → d ≡ []
    → p.terminate ≡ true
    → Ended (inner_loop d p)
unfolding inner_loop
inner_loop-Ended [] p e n t = subst Ended (sym (outer_test-if p t)) (refl, e)
inner_loop-Ended (x ∷ d) p e n t = absurd (ground (arith, n))

phase_step : (f : Phase) (p : Pool) → p.phase ≡ f → disk_thread p ≡ disk_step f p
unfolding disk_thread
phase_step f p e = ap (λ g. disk_step g p) e

disk_thread-terminate : (p : Pool) → p.terminate ≡ true → (disk_thread p).terminate ≡ true
unfolding disk_thread
disk_thread-terminate p t = disk_step-terminate p.phase p ∙ t

step-gone : (p : Pool) → Ended p → Ended (disk_thread p)
unfolding disk_step
step-gone p e = subst Ended (sym (phase_step gone p e.0)) e

step-writing :
    (p : Pool)
    → p.phase ≡ writing
    → ((disk_thread p).phase ≡ recycling) × ((disk_thread p).dirty_pool ≡ p.dirty_pool)
unfolding disk_step send_waiting
step-writing p e =
    subst (λ q. (q.phase ≡ recycling) × (q.dirty_pool ≡ p.dirty_pool))
      (sym (phase_step writing p e)) (refl, refl)

step-recycling : (p : Pool) → p.phase ≡ recycling → p.terminate ≡ true → Ending (disk_thread p)
unfolding disk_step recycle
step-recycling p e t =
    subst Ending (sym (phase_step recycling p e))
      (inner_loop-Ending p.dirty_pool (recycle p) refl t)

-- What is taken is handed over and recycled in two steps, and then the thread has returned.
two_steps-Ended : (p : Pool) → Taken p → p.terminate ≡ true → Ended (disk_thread (disk_thread p))
unfolding disk_step recycle
two_steps-Ended p (w, d) t =
    let q = disk_thread p in
    let (e, same) = step-writing p w in
    subst Ended (sym (phase_step recycling q e))
      (inner_loop-Ended q.dirty_pool (recycle q) refl (same ∙ d) (disk_thread-terminate p t))

Ending-two_steps : (p : Pool) → Ending p → p.terminate ≡ true → Ended (disk_thread (disk_thread p))
Ending-two_steps p (inl e) t = step-gone (disk_thread p) (step-gone p e)
Ending-two_steps p (inr w) t = two_steps-Ended p w t

-- From each phase of the loop.
four_steps-Ended :
    (h : List Bytes) (f : Phase) (p : Pool)
    → p.phase ≡ f
    → f ≢ starting
    → f ≢ gone
    → p.terminate ≡ true
    → Inv h p
    → Ended (disk_thread (disk_thread (disk_thread (disk_thread p))))
unfolding disk_step
four_steps-Ended h starting p e looping here t v = absurd (looping refl)
four_steps-Ended h sleeping p e looping here t v =
    let known = sleeping-Known h p e v in
    let q = disk_thread p in
    let ending : Ending q = subst Ending (sym (phase_step sleeping p e)) (
      woken-cases Ending p (λ _. inner_loop-Ending p.dirty_pool p refl t)
        (λ s. let on = known.2 t in absurd (ground (arith, s, on)))) in
    step-gone (disk_thread (disk_thread q)) (Ending-two_steps q ending (disk_thread-terminate p t))
four_steps-Ended h writing p e looping here t v =
    let q1 = disk_thread p in
    let q2 = disk_thread q1 in
    let t1 = disk_thread-terminate p t in
    Ending-two_steps q2 (step-recycling q1 (step-writing p e).0 t1) (disk_thread-terminate q1 t1)
four_steps-Ended h recycling p e looping here t v =
    let q = disk_thread p in
    step-gone (disk_thread (disk_thread q))
      (Ending-two_steps q (step-recycling p e t) (disk_thread-terminate p t))
four_steps-Ended h gone p e looping here t v = absurd (here refl)

gone-not_writing : {f : Phase} → f ≡ gone → is_writing f ≡ false
gone-not_writing e = ap is_writing e

-- In every reachable state in which the disk thread has come to its loop and has not returned: after a
-- request to terminate, four steps of the disk thread, with nothing queued in between, have handed all
-- that was queued to send_to_files, in order, and the thread has returned.
pub request_terminate-gone :
    {h : List Bytes} {p : Pool}
    → Run h p
    → p.phase ≢ starting
    → p.phase ≢ gone
    → let q = disk_thread (disk_thread (disk_thread (disk_thread (request_terminate p)))) in
      (q.phase ≡ gone) × (q.handed_over ≡ h)
unfolding request_terminate
request_terminate-gone {h} {p} r looping here =
    let asked = request_terminate p in
    let run = stepped (stepped (stepped (stepped (terminated r)))) in
    let (returned, empty) =
      four_steps-Ended h asked.phase asked refl looping here refl (Run-Inv (terminated r)) in
    (returned, Idle-handed_over h _ (Run-Inv run) (gone-not_writing returned, empty))
