-- ===== src/Logger/Handover.antt =====
-- util_lib/logger/src/logger.cpp: no log data is lost or reordered between the threads, and no buffer
-- has two users.
use core_connect_binary.Base.{
  ℕ, ◌+◌, ◌≤◌, ◌≡◌, ◌≢◌, refl, sym, ap, subst, ◌∙◌, Bool, true, false, List, [], ◌∷◌, ◌++◌,
  append-nil, append_assoc, ◌==◌, ==_iff, ==_false, if◌then◌else◌, arith, Bytes, Bool-cases, inl,
  inr,
}
use core_connect_binary.Logger.Counts.{
  count, count-append, count-back_first, contents-append, buffers-append,
}
use core_connect_binary.Logger.Pool.{
  PoolEntry, Phase, starting, sleeping, writing, recycling, gone, Pool, contents, buffers, new_pool,
  push_dirty, request_terminate, take_dirty, outer_test, inner_loop, wait_or_take, next_buffer,
  send_waiting, recycle, woken, disk_step, disk_thread, Run, created, pushed, terminated, spurious,
  stepped,
}

-- What is taken, but not handed over.
abbrev pub in_flight : Phase → List PoolEntry → List Bytes
in_flight writing waiting = contents waiting
in_flight _ waiting = []

-- How often a buffer is in use, clean, queued or being written.
abbrev pub owners : Pool → ℕ → ℕ
owners p x =
    (if x == p.current then 1 else 0)
    + count x p.clean_pool
    + count x (buffers p.waiting_pool)
    + count x (buffers p.dirty_pool)

-- What each phase knows of the waiting and the dirty pool, the signal and the request to terminate: a
-- thread that sleeps over a dirty pool or a request to terminate has been signalled, and one that is
-- gone was asked to terminate.
abbrev pub Known : Phase → List PoolEntry → List PoolEntry → Bool → Bool → Type 0
Known starting waiting dirty signalled terminate = waiting ≡ []
Known sleeping waiting dirty signalled terminate =
    (waiting ≡ []) × (dirty ≢ [] → signalled ≡ true) × (terminate ≡ true → signalled ≡ true)
Known writing waiting dirty signalled terminate = Unit {0}
Known recycling waiting dirty signalled terminate = Unit {0}
Known gone waiting dirty signalled terminate = (waiting ≡ []) × (terminate ≡ true)

pub record Inv (h : List Bytes) (p : Pool) : Type 0 where
  pub in_order : p.handed_over ++ (in_flight p.phase p.waiting_pool ++ contents p.dirty_pool) ≡ h
  pub single : (x : ℕ) → owners p x ≤ 1
  pub unused : (x : ℕ) → p.allocated ≤ x → owners p x ≡ 0
  pub known : Known p.phase p.waiting_pool p.dirty_pool p.signalled p.terminate

new_pool-Inv : Inv [] new_pool
unfolding new_pool
new_pool-Inv = record {
  in_order = refl;
  single = λ x. ground arith;
  unused = λ x h. ground arith;
  known = refl;
}

-- The pools while the disk thread looks at them.
record Looked (h : List Bytes) (p : Pool) : Type 0 where
  in_order : p.handed_over ++ contents p.dirty_pool ≡ h
  empty : p.waiting_pool ≡ []
  single : (x : ℕ) → owners p x ≤ 1
  unused : (x : ℕ) → p.allocated ≤ x → owners p x ≡ 0

take_dirty-Inv : (h : List Bytes) (p : Pool) → Looked h p → Inv h (take_dirty p)
unfolding take_dirty
take_dirty-Inv h p l = record {
  in_order = ap (λ c. p.handed_over ++ c) (append-nil (contents p.dirty_pool)) ∙ l.in_order;
  single = λ x.
      let one = l.single x in
      let none_waiting = ap (λ w. count x (buffers w)) l.empty in omega (arith, one, none_waiting);
  unused = λ x new. let zero_owners = l.unused x new in omega (arith, zero_owners);
  known = tt;
}

wait_or_take-Inv :
    (h : List Bytes) (p : Pool) (d : List PoolEntry)
    → p.dirty_pool ≡ d
    → p.terminate ≡ false
    → Looked h p
    → Inv h (wait_or_take d p)
unfolding wait_or_take
wait_or_take-Inv h p [] e t l = record {
  in_order = l.in_order;
  single = l.single;
  unused = l.unused;
  known = (l.empty, (λ ne. absurd (ne e)), λ asked. absurd (ground (arith, t, asked)));
}
wait_or_take-Inv h p (x ∷ d) e t l = take_dirty-Inv h p l

pub outer_test-if :
    (p : Pool) {b : Bool}
    → p.terminate ≡ b
    → outer_test p ≡ (if b then record p { phase = gone } else wait_or_take p.dirty_pool p)
unfolding outer_test
outer_test-if p t = ap (λ b. if b then record p { phase = gone } else wait_or_take p.dirty_pool p) t

outer_test-Inv : (h : List Bytes) (p : Pool) → Looked h p → Inv h (outer_test p)
outer_test-Inv h p l = elim (Bool-cases p.terminate) [
  | inl t ↦
      subst (Inv h) (sym (outer_test-if p t)) (record {
        in_order = l.in_order;
        single = l.single;
        unused = l.unused;
        known = (l.empty, t);
      })
  | inr t ↦ subst (Inv h) (sym (outer_test-if p t)) (wait_or_take-Inv h p p.dirty_pool refl t l)
]

inner_loop-Inv :
    (h : List Bytes) (p : Pool) (d : List PoolEntry)
    → p.dirty_pool ≡ d
    → Looked h p
    → Inv h (inner_loop d p)
unfolding inner_loop
inner_loop-Inv h p [] e l = outer_test-Inv h p l
inner_loop-Inv h p (x ∷ d) e l = take_dirty-Inv h p l

recycle-Looked : (h : List Bytes) (p : Pool) → p.phase ≡ recycling → Inv h p → Looked h (recycle p)
unfolding recycle
recycle-Looked h p e v = record {
  in_order =
      rw⁻¹ (ap (λ f. p.handed_over ++ (in_flight f p.waiting_pool ++ contents p.dirty_pool)) e)
        v.in_order;
  empty = refl;
  single = λ x.
      let one = v.single x in
      let back = count-back_first x (buffers p.waiting_pool) p.clean_pool in
      omega (arith, one, back);
  unused = λ x new.
      let none_owns = v.unused x new in
      let back = count-back_first x (buffers p.waiting_pool) p.clean_pool in
      omega (arith, none_owns, back);
}

-- With a clean buffer the old one loses an owner; a new buffer gets its first.
next_buffer-single :
    (c : List ℕ) (p : Pool)
    → p.clean_pool ≡ c
    → ((x : ℕ) → owners p x ≤ 1 + (if x == p.current then 1 else 0))
    → ((x : ℕ) → p.allocated ≤ x → owners p x ≡ 0)
    → let q = next_buffer c p in
      ((x : ℕ) → owners q x ≤ 1) × ((x : ℕ) → q.allocated ≤ x → owners q x ≡ 0)
unfolding next_buffer
next_buffer-single [] p e one new = (
  (λ x.
      let o = one x in
      elim (Bool-cases (x == p.allocated)) [
        | inl fresh ↦
            let none_owns = new x (omega (arith, (==_iff x p.allocated).0 fresh)) in
            rw fresh (omega (arith, none_owns))
        | inr old ↦ rw old (omega (arith, o))
      ]),
  λ x h.
      let none_owns = new x (omega (arith, h)) in
      rw (==_false {a = x} {b = p.allocated} (λ z. omega (arith, z, h))) (omega (arith, none_owns)),
)
next_buffer-single (b ∷ bs) p e one new = (
  (λ x. let clean = ap (count x) e in let o = one x in omega (arith, clean, o)),
  λ x h. let clean = ap (count x) e in let o = new x h in omega (arith, clean, o),
)

next_buffer-Inv :
    (h : List Bytes) (c : List ℕ) (p : Pool)
    → p.handed_over ++ (in_flight p.phase p.waiting_pool ++ contents p.dirty_pool) ≡ h
    → Known p.phase p.waiting_pool p.dirty_pool p.signalled p.terminate
    → (let q = next_buffer c p in
        ((x : ℕ) → owners q x ≤ 1) × ((x : ℕ) → q.allocated ≤ x → owners q x ≡ 0))
    → Inv h (next_buffer c p)
unfolding next_buffer
next_buffer-Inv h [] p o known owned = record {
  in_order = o;
  single = owned.0;
  unused = owned.1;
  known = known;
}
next_buffer-Inv h (b ∷ bs) p o known owned = record {
  in_order = o;
  single = owned.0;
  unused = owned.1;
  known = known;
}

Known-pushed :
    (f : Phase) (waiting dirty more : List PoolEntry) (signalled terminate : Bool)
    → terminate ≡ false
    → Known f waiting dirty signalled terminate
    → Known f waiting more true terminate
Known-pushed starting waiting dirty more signalled terminate t k = k
Known-pushed sleeping waiting dirty more signalled terminate t k = (k.0, (λ _. refl), λ _. refl)
Known-pushed writing waiting dirty more signalled terminate t k = tt
Known-pushed recycling waiting dirty more signalled terminate t k = tt
Known-pushed gone waiting dirty more signalled terminate t k = absurd (ground (arith, t, k.1))

push_dirty-Inv :
    (h : List Bytes) (p : Pool) (content : Bytes)
    → p.terminate ≡ false
    → Inv h p
    → Inv (h ++ content ∷ []) (push_dirty content p)
unfolding push_dirty
push_dirty-Inv h p content t v =
    let queued = record p {
      dirty_pool = p.dirty_pool ++ record { buf = p.current; content = content } ∷ [];
      signalled = true;
    } in
    let more : (x : ℕ)
        → count x (buffers queued.dirty_pool)
          ≡ count x (buffers p.dirty_pool) + (if x == p.current then 1 else 0) =
      λ x.
        ap (count x) (buffers-append p.dirty_pool _)
        ∙ count-append x (buffers p.dirty_pool) (p.current ∷ [])
        ∙ omega arith in
    let owned =
      next_buffer-single p.clean_pool queued refl
        (λ x. let o = v.single x in let m = more x in omega (arith, o, m))
        (λ x n. let o = v.unused x n in let m = more x in omega (arith, o, m)) in
    let flying = in_flight p.phase p.waiting_pool in
    next_buffer-Inv (h ++ content ∷ []) p.clean_pool queued
      (ap (λ c. p.handed_over ++ (flying ++ c)) (contents-append p.dirty_pool _)
        ∙ ap (λ c. p.handed_over ++ c)
            (sym (append_assoc flying (contents p.dirty_pool) (content ∷ [])))
        ∙ sym (append_assoc p.handed_over (flying ++ contents p.dirty_pool) (content ∷ []))
        ∙ ap (λ c. c ++ content ∷ []) v.in_order)
      (Known-pushed p.phase p.waiting_pool p.dirty_pool queued.dirty_pool p.signalled p.terminate t
        v.known)
      owned

Known-terminated :
    (f : Phase) (waiting dirty : List PoolEntry) (signalled terminate : Bool)
    → Known f waiting dirty signalled terminate
    → Known f waiting dirty true true
Known-terminated starting waiting dirty signalled terminate k = k
Known-terminated sleeping waiting dirty signalled terminate k = (k.0, (λ _. refl), λ _. refl)
Known-terminated writing waiting dirty signalled terminate k = tt
Known-terminated recycling waiting dirty signalled terminate k = tt
Known-terminated gone waiting dirty signalled terminate k = (k.0, refl)

-- What holds of a sleeping thread's next step, woken or not.
pub woken-cases :
    (P : Pool → Type 0) (p : Pool)
    → (p.signalled ≡ true → P (inner_loop p.dirty_pool p))
    → (p.signalled ≡ false → P p)
    → P (woken p.signalled p)
unfolding woken
woken-cases P p wakes sleeps = elim (Bool-cases p.signalled) [
  | inl s ↦ subst (λ b. P (woken b p)) (sym s) (wakes s)
  | inr s ↦ subst (λ b. P (woken b p)) (sym s) (sleeps s)
]

sleeping-Inv :
    (h : List Bytes) (p : Pool) → p.phase ≡ sleeping → Inv h p → Inv h (inner_loop p.dirty_pool p)
sleeping-Inv h p e v =
    let known : Known sleeping p.waiting_pool p.dirty_pool p.signalled p.terminate =
      subst (λ f. Known f p.waiting_pool p.dirty_pool p.signalled p.terminate) e v.known in
    inner_loop-Inv h p p.dirty_pool refl (record {
      in_order =
          ap (λ f. p.handed_over ++ (in_flight f p.waiting_pool ++ contents p.dirty_pool)) (sym e)
          ∙ v.in_order;
      empty = known.0;
      single = v.single;
      unused = v.unused;
    })

disk_step-Inv :
    (h : List Bytes) (p : Pool) (f : Phase) → p.phase ≡ f → Inv h p → Inv h (disk_step f p)
unfolding disk_step send_waiting
disk_step-Inv h p starting e v =
    let empty : Known starting p.waiting_pool p.dirty_pool p.signalled p.terminate =
      subst (λ f. Known f p.waiting_pool p.dirty_pool p.signalled p.terminate) e v.known in
    outer_test-Inv h p (record {
      in_order =
          ap (λ f. p.handed_over ++ (in_flight f p.waiting_pool ++ contents p.dirty_pool)) (sym e)
          ∙ v.in_order;
      empty = empty;
      single = v.single;
      unused = v.unused;
    })
disk_step-Inv h p sleeping e v = woken-cases (Inv h) p (λ _. sleeping-Inv h p e v) (λ _. v)
disk_step-Inv h p writing e v = record {
  in_order =
      append_assoc p.handed_over (contents p.waiting_pool) (contents p.dirty_pool)
      ∙ ap (λ f. p.handed_over ++ (in_flight f p.waiting_pool ++ contents p.dirty_pool)) (sym e)
      ∙ v.in_order;
  single = v.single;
  unused = v.unused;
  known = tt;
}
disk_step-Inv h p recycling e v =
    inner_loop-Inv h (recycle p) (let q = recycle p in q.dirty_pool) refl (recycle-Looked h p e v)
disk_step-Inv h p gone e v = v

-- After any interleaving of queueing, termination, steps of the disk thread and spurious wake-ups, the
-- contents handed to send_to_files, those about to be handed over and those queued, one after the other, are the contents queued so far in order;
-- no buffer is at two places among the current one, the clean, the waiting and the dirty pool; buffers
-- not yet allocated are nowhere; a disk thread that sleeps over queued buffers or over a request to
-- terminate has been signalled, and one that is gone was asked to terminate.
pub Run-Inv : {h : List Bytes} {p : Pool} → Run h p → Inv h p
unfolding disk_thread request_terminate
Run-Inv created = new_pool-Inv
Run-Inv (pushed {h} {p} content t r) = push_dirty-Inv h p content t (Run-Inv r)
Run-Inv (spurious {h} {p} e r) = sleeping-Inv h p e (Run-Inv r)
Run-Inv (terminated {h} {p} r) =
    let v = Run-Inv r in
    record {
      in_order = v.in_order;
      single = v.single;
      unused = v.unused;
      known = Known-terminated p.phase p.waiting_pool p.dirty_pool p.signalled p.terminate v.known;
    }
Run-Inv (stepped {h} {p} r) = disk_step-Inv h p p.phase refl (Run-Inv r)
