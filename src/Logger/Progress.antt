-- ===== src/Logger/Progress.antt =====
-- util_lib/logger/src/logger.cpp: the disk thread hands over what is queued.
use core_connect_binary.Base.{
  ◌≡◌, ◌≢◌, refl, sym, ap, subst, ◌∙◌, Bool, true, false, List, [], ◌∷◌, ◌++◌, append-nil, arith,
  Bytes, Bool-cases, inl, inr, ◌⊎◌,
}
use core_connect_binary.Logger.Pool.{
  PoolEntry, Phase, starting, sleeping, writing, recycling, gone, Pool, contents, take_dirty,
  outer_test, inner_loop, wait_or_take, send_waiting, recycle, disk_step, disk_thread, Run, stepped,
}
use core_connect_binary.Logger.Handover.{Inv, Run-Inv, in_flight, Known, outer_test-if, woken-cases}

abbrev pub is_writing : Phase → Bool
is_writing writing = true
is_writing _ = false

-- Everything is handed over.
abbrev pub Idle : Pool → Type 0
Idle p = (is_writing p.phase ≡ false) × (p.dirty_pool ≡ [])

-- Everything will be with the next write.
abbrev pub Taken : Pool → Type 0
Taken p = (p.phase ≡ writing) × (p.dirty_pool ≡ [])

nothing-in_flight : (f : Phase) (w : List PoolEntry) → is_writing f ≡ false → in_flight f w ≡ []
nothing-in_flight starting w e = refl
nothing-in_flight sleeping w e = refl
nothing-in_flight writing w e = absurd (ground (arith, e))
nothing-in_flight recycling w e = refl
nothing-in_flight gone w e = refl

pub Idle-handed_over : (h : List Bytes) (p : Pool) → Inv h p → Idle p → p.handed_over ≡ h
Idle-handed_over h p v i =
    sym (append-nil p.handed_over)
    ∙ ap (λ c. p.handed_over ++ c) (sym (nothing-in_flight p.phase p.waiting_pool i.0))
    ∙ ap (λ c. p.handed_over ++ c) (sym (append-nil (in_flight p.phase p.waiting_pool)))
    ∙ ap (λ d. p.handed_over ++ (in_flight p.phase p.waiting_pool ++ contents d)) (sym i.1)
    ∙ v.in_order

wait_or_take-Idle :
    (d : List PoolEntry) (p : Pool) → p.dirty_pool ≡ d → d ≡ [] → Idle (wait_or_take d p)
unfolding wait_or_take
wait_or_take-Idle [] p e n = (refl, e)
wait_or_take-Idle (x ∷ d) p e n = absurd (ground (arith, n))

wait_or_take-Taken :
    (d : List PoolEntry) (p : Pool)
    → p.dirty_pool ≡ d
    → Idle (wait_or_take d p) ⊎ Taken (wait_or_take d p)
unfolding wait_or_take take_dirty
wait_or_take-Taken [] p e = inl (refl, e)
wait_or_take-Taken (x ∷ d) p e = inr (refl, refl)

outer_test-Taken : (p : Pool) → p.terminate ≡ false → Idle (outer_test p) ⊎ Taken (outer_test p)
outer_test-Taken p t =
    subst (λ q. Idle q ⊎ Taken q) (sym (outer_test-if p t)) (wait_or_take-Taken p.dirty_pool p refl)

outer_test-Idle : (p : Pool) → p.terminate ≡ false → p.dirty_pool ≡ [] → Idle (outer_test p)
outer_test-Idle p t e =
    subst Idle (sym (outer_test-if p t)) (wait_or_take-Idle p.dirty_pool p refl e)

inner_loop-Taken :
    (d : List PoolEntry) (p : Pool)
    → p.terminate ≡ false
    → Idle (inner_loop d p) ⊎ Taken (inner_loop d p)
unfolding inner_loop take_dirty
inner_loop-Taken [] p t = outer_test-Taken p t
inner_loop-Taken (x ∷ d) p t = inr (refl, refl)

inner_loop-Idle :
    (d : List PoolEntry) (p : Pool)
    → p.dirty_pool ≡ d
    → d ≡ []
    → p.terminate ≡ false
    → Idle (inner_loop d p)
unfolding inner_loop
inner_loop-Idle [] p e n t = outer_test-Idle p t e
inner_loop-Idle (x ∷ d) p e n t = absurd (ground (arith, n))

gone-terminate : (h : List Bytes) (p : Pool) → p.phase ≡ gone → Inv h p → p.terminate ≡ true
gone-terminate h p e v =
    let (_, t) : Known gone p.waiting_pool p.dirty_pool p.signalled p.terminate =
      subst (λ f. Known f p.waiting_pool p.dirty_pool p.signalled p.terminate) e v.known in
    t

-- A sleeping thread that nobody has signalled has nothing to do.
unsignalled-empty :
    (dirty : List PoolEntry) (signalled : Bool)
    → (dirty ≢ [] → signalled ≡ true)
    → signalled ≡ false
    → dirty ≡ []
unsignalled-empty [] signalled h s = refl
unsignalled-empty (x ∷ d) signalled h s =
    let on : signalled ≡ true = h (λ e. absurd (ground (arith, e))) in
    absurd (ground (arith, s, on))

pub sleeping-Known :
    (h : List Bytes) (p : Pool)
    → p.phase ≡ sleeping
    → Inv h p
    → Known sleeping p.waiting_pool p.dirty_pool p.signalled p.terminate
sleeping-Known h p e v =
    subst (λ f. Known f p.waiting_pool p.dirty_pool p.signalled p.terminate) e v.known

-- A step from elsewhere than the write.
disk_step-Taken :
    (h : List Bytes) (f : Phase) (p : Pool)
    → is_writing f ≡ false
    → p.phase ≡ f
    → p.terminate ≡ false
    → Inv h p
    → Idle (disk_step f p) ⊎ Taken (disk_step f p)
unfolding disk_step recycle
disk_step-Taken h starting p w e t v = outer_test-Taken p t
disk_step-Taken h sleeping p w e t v =
    let known = sleeping-Known h p e v in
    woken-cases (λ q. Idle q ⊎ Taken q) p (λ _. inner_loop-Taken p.dirty_pool p t)
      (λ s. inl (ap is_writing e, unsignalled-empty p.dirty_pool p.signalled known.1 s))
disk_step-Taken h writing p w e t v = absurd (ground (arith, w))
disk_step-Taken h recycling p w e t v = inner_loop-Taken p.dirty_pool (recycle p) t
disk_step-Taken h gone p w e t v = absurd (ground (arith, t, gone-terminate h p e v))

disk_step-Idle :
    (f : Phase) (p : Pool)
    → p.phase ≡ f
    → p.terminate ≡ false
    → p.dirty_pool ≡ []
    → Idle (disk_step f p)
unfolding disk_step recycle send_waiting
disk_step-Idle starting p e t d = outer_test-Idle p t d
disk_step-Idle sleeping p e t d =
    woken-cases Idle p (λ _. inner_loop-Idle p.dirty_pool p refl d t) (λ _. (ap is_writing e, d))
disk_step-Idle writing p e t d = (refl, d)
disk_step-Idle recycling p e t d = inner_loop-Idle p.dirty_pool (recycle p) refl d t
disk_step-Idle gone p e t d = (ap is_writing e, d)

-- The request to terminate is the destructor's alone.
wait_or_take-terminate :
    (d : List PoolEntry) (p : Pool) → (wait_or_take d p).terminate ≡ p.terminate
unfolding wait_or_take take_dirty
wait_or_take-terminate [] p = refl
wait_or_take-terminate (x ∷ d) p = refl

outer_test-terminate : (p : Pool) → (outer_test p).terminate ≡ p.terminate
outer_test-terminate p = elim (Bool-cases p.terminate) [
  | inl t ↦ ap (λ q. q.terminate) (outer_test-if p t)
  | inr t ↦ ap (λ q. q.terminate) (outer_test-if p t) ∙ wait_or_take-terminate p.dirty_pool p
]

inner_loop-terminate : (d : List PoolEntry) (p : Pool) → (inner_loop d p).terminate ≡ p.terminate
unfolding inner_loop take_dirty
inner_loop-terminate [] p = outer_test-terminate p
inner_loop-terminate (x ∷ d) p = refl

pub disk_step-terminate : (f : Phase) (p : Pool) → (disk_step f p).terminate ≡ p.terminate
unfolding disk_step recycle send_waiting
disk_step-terminate starting p = outer_test-terminate p
disk_step-terminate sleeping p =
    woken-cases (λ q. q.terminate ≡ p.terminate) p (λ _. inner_loop-terminate p.dirty_pool p)
      (λ _. refl)
disk_step-terminate writing p = refl
disk_step-terminate recycling p = inner_loop-terminate p.dirty_pool (recycle p)
disk_step-terminate gone p = refl

-- From anywhere, one step away from the write.
disk_step-writing :
    (f : Phase) (p : Pool) → is_writing f ≡ true → is_writing (disk_step f p).phase ≡ false
unfolding disk_step send_waiting
disk_step-writing starting p w = absurd (ground (arith, w))
disk_step-writing sleeping p w = absurd (ground (arith, w))
disk_step-writing writing p w = refl
disk_step-writing recycling p w = absurd (ground (arith, w))
disk_step-writing gone p w = absurd (ground (arith, w))

either-dirty : (p : Pool) → Idle p ⊎ Taken p → p.dirty_pool ≡ []
either-dirty p (inl i) = i.1
either-dirty p (inr i) = i.1

two_steps-Idle :
    {h : List Bytes} (p : Pool)
    → Run h p
    → p.terminate ≡ false
    → is_writing p.phase ≡ false
    → Idle (disk_thread (disk_thread p))
unfolding disk_thread
two_steps-Idle {h} p r t w =
    let q = disk_thread p in
    disk_step-Idle q.phase q refl (disk_step-terminate p.phase p ∙ t)
      (either-dirty q (disk_step-Taken h p.phase p w refl t (Run-Inv r)))

third_step-Idle : (p : Pool) → p.terminate ≡ false → Idle p → Idle (disk_thread p)
unfolding disk_thread
third_step-Idle p t i = disk_step-Idle p.phase p refl t i.1

disk_thread-terminate : (p : Pool) → (disk_thread p).terminate ≡ p.terminate
unfolding disk_thread
disk_thread-terminate p = disk_step-terminate p.phase p

disk_thread-writing :
    (p : Pool) → is_writing p.phase ≡ true → is_writing (disk_thread p).phase ≡ false
unfolding disk_thread
disk_thread-writing p w = disk_step-writing p.phase p w

three_steps-Idle :
    {h : List Bytes} (p : Pool)
    → Run h p
    → p.terminate ≡ false
    → Idle (disk_thread (disk_thread (disk_thread p)))
three_steps-Idle p r t = elim (Bool-cases (is_writing p.phase)) [
  | inl w ↦
      two_steps-Idle (disk_thread p) (stepped r) (disk_thread-terminate p ∙ t)
        (disk_thread-writing p w)
  | inr w ↦
      let q = disk_thread p in
      third_step-Idle (disk_thread q) (disk_thread-terminate q ∙ disk_thread-terminate p ∙ t)
        (two_steps-Idle p r t w)
]

pub three_steps-dirty :
    {h : List Bytes} (p : Pool)
    → Run h p
    → p.terminate ≡ false
    → (let q = disk_thread (disk_thread (disk_thread p)) in q.dirty_pool) ≡ []
three_steps-dirty p r t = (three_steps-Idle p r t).1

-- In every reachable state in which termination is not requested, three steps of the disk thread, with
-- nothing queued in between, have handed all that was queued so far to send_to_files, in order.
pub disk_thread-handed_over :
    {h : List Bytes} {p : Pool}
    → Run h p
    → p.terminate ≡ false
    → (let q = disk_thread (disk_thread (disk_thread p)) in q.handed_over) ≡ h
disk_thread-handed_over {h} {p} r t =
    Idle-handed_over h (disk_thread (disk_thread (disk_thread p)))
      (Run-Inv (stepped (stepped (stepped r)))) (three_steps-Idle p r t)
