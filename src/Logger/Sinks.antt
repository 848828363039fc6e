-- ===== src/Logger/Sinks.antt =====
-- util_lib/logger/src/logger.cpp: where p_do_work brings the buffer: to the stream, to the file, or to the
-- disk thread.
use core_connect_binary.Base.{
  ℕ, zero, suc, ◌≡◌, refl, sym, ap, ◌∙◌, Bool, true, false, List, [], ◌∷◌, ◌++◌, append-nil,
  append_assoc, length, Bytes, arith, ◌⊎◌, inl, inr,
}
use core_connect_binary.Logger.Pool.{Pool, contents, push_dirty, next_buffer}
use core_connect_binary.Logger.Counts.{contents-append}
use core_connect_binary.Logger.Handover.{in_flight}
use core_connect_binary.Logger.Line.{
  Logger, write_file, write_stream, write_line, work_if, p_do_work, p_do_work_if,
}

abbrev pub concat : List Bytes → Bytes
concat [] = []
concat (b ∷ bs) = b ++ concat bs

concat-append : (bs cs : List Bytes) → concat (bs ++ cs) ≡ concat bs ++ concat cs
concat-append [] cs = refl
concat-append (b ∷ bs) cs =
    ap (λ c. b ++ c) (concat-append bs cs) ∙ sym (append_assoc b (concat bs) (concat cs))

concat-append_one : (bs : List Bytes) (c : Bytes) → concat (bs ++ c ∷ []) ≡ concat bs ++ c
concat-append_one bs c = concat-append bs (c ∷ []) ∙ ap (λ d. concat bs ++ d) (append-nil c)

pub data Sink : Type 0 where
  stream file disk : Sink

-- The buffers that the disk thread has been given.
abbrev pub queued : Pool → List Bytes
queued p = p.handed_over ++ (in_flight p.phase p.waiting_pool ++ contents p.dirty_pool)

abbrev pub received : Sink → Logger → Bytes
received stream l = l.out_stream
received file l = concat l.sent
received disk l = concat (queued l.pool)

abbrev pub Enabled : Sink → Logger → Type 0
Enabled stream l = l.m_stream_out ≡ true
Enabled file l = (l.m_file_out ≡ true) × (l.m_async ≡ false)
Enabled disk l = (l.m_file_out ≡ true) × (l.m_async ≡ true)

next_buffer-queued : (bs : List ℕ) (p : Pool) → queued (next_buffer bs p) ≡ queued p
unfolding next_buffer
next_buffer-queued [] p = refl
next_buffer-queued (b ∷ bs) p = refl

push_dirty-queued :
    (content : Bytes) (p : Pool) → queued (push_dirty content p) ≡ queued p ++ content ∷ []
unfolding push_dirty
push_dirty-queued content p =
    let flying = in_flight p.phase p.waiting_pool in
    next_buffer-queued p.clean_pool _
    ∙ ap (λ c. p.handed_over ++ (flying ++ c)) (contents-append p.dirty_pool _)
    ∙ ap (λ c. p.handed_over ++ c)
        (sym (append_assoc flying (contents p.dirty_pool) (content ∷ [])))
    ∙ sym (append_assoc p.handed_over (flying ++ contents p.dirty_pool) (content ∷ []))

write_stream-received :
    (b : Bool) (l : Logger)
    → l.m_stream_out ≡ b
    → Enabled stream l
    → received stream (write_stream b l) ≡ l.out_stream ++ l.line
unfolding write_stream
write_stream-received true l e on = refl
write_stream-received false l e on = absurd (ground (arith, e, on))

write_file-received :
    (f a : Bool) (l : Logger)
    → l.m_file_out ≡ f
    → l.m_async ≡ a
    → Enabled file l
    → received file (write_file f a l) ≡ received file l ++ l.line
unfolding write_file
write_file-received false a l ef ea on = absurd (ground (arith, ef, on.0))
write_file-received true true l ef ea on = absurd (ground (arith, ea, on.1))
write_file-received true false l ef ea on = concat-append_one l.sent l.line

write_file-queued :
    (f a : Bool) (l : Logger)
    → l.m_file_out ≡ f
    → l.m_async ≡ a
    → Enabled disk l
    → received disk (write_file f a l) ≡ received disk l ++ l.line
unfolding write_file
write_file-queued false a l ef ea on = absurd (ground (arith, ef, on.0))
write_file-queued true false l ef ea on = absurd (ground (arith, ea, on.1))
write_file-queued true true l ef ea on =
    ap concat (push_dirty-queued l.line l.pool) ∙ concat-append_one (queued l.pool) l.line

-- `m` is `l` but for the buffer and what the sinks have received.
abbrev pub Kept : Logger → Logger → Type 0
Kept l m = record m { line = l.line; pool = l.pool; out_stream = l.out_stream; sent = l.sent } ≡ l

write_file-rest :
    (f a : Bool) (l k : Logger)
    → (let w = write_file f a l in
        record w { line = k.line; pool = k.pool; out_stream = k.out_stream; sent = k.sent })
      ≡ record l { line = k.line; pool = k.pool; out_stream = k.out_stream; sent = k.sent }
unfolding write_file
write_file-rest false a l k = refl
write_file-rest true true l k = refl
write_file-rest true false l k = refl

write_stream-rest :
    (b : Bool) (l : Logger)
    → (let w = write_stream b l in
        record w { line = l.line; pool = l.pool; out_stream = l.out_stream; sent = l.sent })
      ≡ l
unfolding write_stream
write_stream-rest true l = refl
write_stream-rest false l = refl

write_stream-file :
    (b : Bool) (l : Logger)
    → (let w = write_stream b l in
        (w.line ≡ l.line)
        × (w.sent ≡ l.sent)
        × (w.pool ≡ l.pool)
        × (w.m_file_out ≡ l.m_file_out)
        × (w.m_async ≡ l.m_async))
unfolding write_stream
write_stream-file true l = (refl, refl, refl, refl, refl)
write_stream-file false l = (refl, refl, refl, refl, refl)

write_file-stream :
    (f a : Bool) (l : Logger) → (let w = write_file f a l in w.out_stream ≡ l.out_stream)
unfolding write_file
write_file-stream false a l = refl
write_file-stream true true l = refl
write_file-stream true false l = refl

write_line-received :
    (s : Sink) (l : Logger) → Enabled s l → received s (write_line l) ≡ received s l ++ l.line
unfolding write_line
write_line-received stream l on =
    let w = write_stream l.m_stream_out l in
    write_file-stream w.m_file_out w.m_async w ∙ write_stream-received l.m_stream_out l refl on
write_line-received file l on =
    let w = write_stream l.m_stream_out l in
    let (line, sent, pool, out, async) = write_stream-file l.m_stream_out l in
    write_file-received w.m_file_out w.m_async w refl refl (out ∙ on.0, async ∙ on.1)
    ∙ ap (λ x. concat w.sent ++ x) line
    ∙ ap (λ x. concat x ++ l.line) sent
write_line-received disk l on =
    let w = write_stream l.m_stream_out l in
    let (line, sent, pool, out, async) = write_stream-file l.m_stream_out l in
    write_file-queued w.m_file_out w.m_async w refl refl (out ∙ on.0, async ∙ on.1)
    ∙ ap (λ x. concat (queued w.pool) ++ x) line
    ∙ ap (λ x. concat (queued x) ++ l.line) pool

write_line-Kept : (l : Logger) → Kept l (write_line l)
unfolding write_line
write_line-Kept l =
    let w = write_stream l.m_stream_out l in
    write_file-rest w.m_file_out w.m_async w l ∙ write_stream-rest l.m_stream_out l

write_line-line : (l : Logger) → (write_line l).line ≡ []
unfolding write_line
write_line-line l = refl

work_if-Kept : (n : ℕ) (l : Logger) → Kept l (work_if n l)
unfolding work_if
work_if-Kept zero l = refl
work_if-Kept (suc n) l = write_line-Kept l

length-zero : (xs : Bytes) → length xs ≡ 0 → xs ≡ []
length-zero [] e = refl
length-zero (x ∷ xs) e = absurd (omega (arith, e))

work_if-line : (n : ℕ) (l : Logger) → length l.line ≡ n → (work_if n l).line ≡ []
unfolding work_if
work_if-line zero l e = length-zero l.line e
work_if-line (suc n) l e = write_line-line l

work_if-received :
    (s : Sink) (n : ℕ) (l : Logger)
    → length l.line ≡ n
    → Enabled s l
    → received s (work_if n l) ≡ received s l ++ l.line
unfolding work_if
work_if-received s zero l e on =
    sym (append-nil (received s l)) ∙ ap (λ x. received s l ++ x) (sym (length-zero l.line e))
work_if-received s (suc n) l e on = write_line-received s l on

pub p_do_work-line : (l : Logger) → (p_do_work l).line ≡ []
unfolding p_do_work
p_do_work-line l = work_if-line (length l.line) l refl

-- What has been logged: what the sink has, and what it will get from the buffer.
abbrev pub logged : Sink → Logger → Bytes
logged s l = received s l ++ l.line

p_do_work-logged : (s : Sink) (l : Logger) → Enabled s l → logged s (p_do_work l) ≡ logged s l
unfolding p_do_work
p_do_work-logged s l on =
    ap (λ x. received s (p_do_work l) ++ x) (p_do_work-line l)
    ∙ append-nil (received s (p_do_work l))
    ∙ work_if-received s (length l.line) l refl on

p_do_work-Kept : (l : Logger) → Kept l (p_do_work l)
unfolding p_do_work
p_do_work-Kept l = work_if-Kept (length l.line) l

pub p_do_work_if-logged :
    (s : Sink) (b : Bool) (l : Logger) → Enabled s l → logged s (p_do_work_if b l) ≡ logged s l
unfolding p_do_work_if
p_do_work_if-logged s true l on = p_do_work-logged s l on
p_do_work_if-logged s false l on = refl

pub p_do_work_if-Kept : (b : Bool) (l : Logger) → Kept l (p_do_work_if b l)
unfolding p_do_work_if
p_do_work_if-Kept true l = p_do_work-Kept l
p_do_work_if-Kept false l = refl

-- The buffer is empty, or as it was because the test failed.
pub p_do_work_if-line :
    (b : Bool) (l : Logger)
    → ((p_do_work_if b l).line ≡ []) ⊎ ((b ≡ false) × ((p_do_work_if b l).line ≡ l.line))
unfolding p_do_work_if
p_do_work_if-line true l = inl (p_do_work-line l)
p_do_work_if-line false l = inr (refl, refl)

pub Enabled-Kept : (s : Sink) (l m : Logger) → Kept l m → Enabled s l → Enabled s m
Enabled-Kept stream l m k on = ap (λ x. x.m_stream_out) k ∙ on
Enabled-Kept file l m k on = (ap (λ x. x.m_file_out) k ∙ on.0, ap (λ x. x.m_async) k ∙ on.1)
Enabled-Kept disk l m k on = (ap (λ x. x.m_file_out) k ∙ on.0, ap (λ x. x.m_async) k ∙ on.1)
