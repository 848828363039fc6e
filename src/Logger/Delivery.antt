-- ===== src/Logger/Delivery.antt =====
-- util_lib/logger/src/logger.cpp: on a file that takes what is written, send_to_files ends, and all of its
-- bytes are in the file.
use core_connect_binary.Base.{
  ℕ, zero, suc, ◌+◌, ◌≤◌, ◌<◌, ◌≡◌, refl, sym, ap, ◌∙◌, inl, inr, true, false, ◌||◌, Option, some,
  List, [], ◌∷◌, ◌++◌, arith, append-nil, append_assoc, length, length-drop, append-take-drop,
  length-append, take, drop, Bytes, Bool-cases,
}
use core_connect_binary.Base.Int.{ℤ, pos, negsuc, pos_part, ltb_ℤ}
use core_connect_binary.Kernel.{Kernel, is_eintr, is_eagain}
use core_connect_binary.Logger.Pool.{PoolEntry, contents}
use core_connect_binary.Logger.Sinks.{concat}
use core_connect_binary.Logger.Files.{
  FileTurn, wrote, again, broken, file_turn, write_all, write_pool, send_to_files, send_pool,
  closed, and_then,
}

-- A file system that opens the file and takes what is written: `content w` is what is in the file. A
-- positive result of `write` counts the bytes that were taken from the front, at most all of them;
-- another one, for a buffer with bytes, takes none and is EINTR or EAGAIN, which `patience` bounds.
pub record IsDisk {W : Type 0} (k : Kernel W) (open_fd : Option Bytes → W → ℤ × W)
    (file_name : Option Bytes) : Type 0 where
  pub content : W → Bytes
  pub patience : W → ℕ
  pub opened :
      (w : W)
      → (ltb_ℤ (open_fd file_name w).0 (pos 0) ≡ false)
        × (content (open_fd file_name w).1 ≡ content w)
        × (patience (open_fd file_name w).1 ≤ patience w)
  pub left : (fd : ℤ) (w : W) → content (k.close_fd fd w).1 ≡ content w
  pub taken :
      (fd : ℤ) (src : Bytes) (w : W)
      → ltb_ℤ (pos 0) (k.write_fd fd src w).0 ≡ true
      → pos_part (k.write_fd fd src w).0 ≤ length src
        × content (k.write_fd fd src w).1 ≡ content w ++ take (pos_part (k.write_fd fd src w).0) src
        × patience (k.write_fd fd src w).1 ≤ patience w
  pub delayed :
      (fd : ℤ) (b : ℕ) (src : Bytes) (w : W)
      → ltb_ℤ (pos 0) (k.write_fd fd (b ∷ src) w).0 ≡ false
      → content (k.write_fd fd (b ∷ src) w).1 ≡ content w
        × ((is_eintr (k.errno (k.write_fd fd (b ∷ src) w).1)
              || is_eagain (k.errno (k.write_fd fd (b ∷ src) w).1))
            ≡ true)
        × patience (k.write_fd fd (b ∷ src) w).1 < patience w

pos_part-positive : (n : ℤ) → ltb_ℤ (pos 0) n ≡ true → 0 < pos_part n
pos_part-positive (pos n) h = ground arith
pos_part-positive (negsuc n) h = ground arith

module _ {W : Type 0} (k : Kernel W) (open_fd : Option Bytes → W → ℤ × W) (file_name : Option Bytes)
    (d : IsDisk k open_fd file_name) where
  -- A result that exists, with `src` added to the file.
  abbrev Added : Bytes → W → Option W → Type 0
  Added src w o =
      (w1 : W) × (o ≡ some w1)
      × (d.content w1 ≡ d.content w ++ src)
      × (d.patience w1 ≤ d.patience w)

  abbrev TurnOf : Bytes → W → W → FileTurn → Type 0
  TurnOf src w w1 (wrote n) =
      (0 < n)
      × (n ≤ length src)
      × (d.content w1 ≡ d.content w ++ take n src)
      × (d.patience w1 ≤ d.patience w)
  TurnOf src w w1 again = (d.content w1 ≡ d.content w) × (d.patience w1 < d.patience w)
  TurnOf src w w1 broken = ⊥

  turn-TurnOf :
      (fd : ℤ) (b : ℕ) (src : Bytes) (w : W)
      → TurnOf
          (b ∷ src)
          w
          (k.write_fd fd (b ∷ src) w).1
          (file_turn (k.write_fd fd (b ∷ src) w).0 (k.errno (k.write_fd fd (b ∷ src) w).1))
  unfolding file_turn
  turn-TurnOf fd b src w = elim (Bool-cases (ltb_ℤ (pos 0) (k.write_fd fd (b ∷ src) w).0)) [
    | inl some_taken ↦
        let (within, traffic, patient) = d.taken fd (b ∷ src) w some_taken in
        rw some_taken
          (pos_part-positive (k.write_fd fd (b ∷ src) w).0 some_taken, within, traffic, patient)
    | inr none_taken ↦
        let (traffic, temporary, impatient) = d.delayed fd b src w none_taken in
        rw none_taken (rw temporary (traffic, impatient))
  ]

  write_all-Added :
      (fuel : ℕ) (fd : ℤ) (src : Bytes) (w : W)
      → length src + d.patience w ≤ fuel
      → Added src w (write_all k open_fd fuel fd src w)
  unfolding write_all
  write_all-Added fuel fd [] w enough = (w, refl, sym (append-nil (d.content w)), omega arith)
  write_all-Added zero fd (b ∷ src) w enough = absurd (omega (arith, enough))
  write_all-Added (suc fuel) fd (b ∷ src) w enough =
      let w1 = (k.write_fd fd (b ∷ src) w).1 in
      let step =
        elim (file_turn (k.write_fd fd (b ∷ src) w).0 (k.errno w1))
          as (λ t.
            TurnOf (b ∷ src) w w1 t
            → Added (b ∷ src) w (elim t as (λ t. Option W) [
              | wrote n ↦ write_all k open_fd fuel fd (drop n (b ∷ src)) w1
              | again ↦ write_all k open_fd fuel fd (b ∷ src) w1
              | broken ↦ some w1
            ])) [
              | wrote n ↦ λ turn.
                  let (positive, within, traffic, patient) = turn in
                  let rest = length-drop n (b ∷ src) in
                  let (w2, ends, added, left) =
                    write_all-Added fuel fd (drop n (b ∷ src)) w1
                      (omega (arith, rest, positive, within, patient, enough)) in
                  (
                    w2,
                    ends,
                    added
                        ∙ ap (λ s. s ++ drop n (b ∷ src)) traffic
                        ∙ append_assoc (d.content w) (take n (b ∷ src)) (drop n (b ∷ src))
                        ∙ ap (λ s. d.content w ++ s) (append-take-drop n (b ∷ src)),
                    omega (arith, left, patient),
                  )
              | again ↦ λ turn.
                  let (traffic, impatient) = turn in
                  let (w2, ends, added, left) =
                    write_all-Added fuel fd (b ∷ src) w1 (omega (arith, impatient, enough)) in
                  (w2, ends, added ∙ ap (λ s. s ++ b ∷ src) traffic, omega (arith, left, impatient))
              | broken ↦ λ turn. absurd turn
            ] in
      step (turn-TurnOf fd b src w)

  write_pool-Added :
      (fuel : ℕ) (fd : ℤ) (es : List PoolEntry) (w : W)
      → length (concat (contents es)) + d.patience w ≤ fuel
      → Added (concat (contents es)) w (write_pool k open_fd fuel fd es w)
  unfolding write_pool
  write_pool-Added fuel fd [] w enough = (w, refl, sym (append-nil (d.content w)), omega arith)
  write_pool-Added fuel fd (e ∷ es) w enough =
      let all = length-append e.content (concat (contents es)) in
      let (w1, ends, added, left) =
        write_all-Added fuel fd e.content w (omega (arith, all, enough)) in
      let (w2, ends2, added2, left2) =
        write_pool-Added fuel fd es w1 (omega (arith, all, enough, left)) in
      (
        w2,
        ap (λ o. and_then o (λ w1. write_pool k open_fd fuel fd es w1)) ends ∙ ends2,
        added2
            ∙ ap (λ s. s ++ concat (contents es)) added
            ∙ append_assoc (d.content w) e.content (concat (contents es)),
        omega (arith, left, left2),
      )

  -- After the file is closed.
  closed-Added :
      (src : Bytes) (w w1 : W) (fd : ℤ) (o : Option W)
      → d.content w1 ≡ d.content w
      → Added src w1 o
      → (w2 : W) × (closed k open_fd fd o ≡ some w2) × (d.content w2 ≡ d.content w ++ src)
  unfolding closed
  closed-Added src w w1 fd o same (w2, ends, added, left) = (
    (k.close_fd fd w2).1,
    ap (closed k open_fd fd) ends,
    d.left fd w2 ∙ added ∙ ap (λ s. s ++ src) same,
  )

-- On such a file system, with fuel for every byte and every interruption to come: send_to_files of a
-- buffer returns, and the file has then got all bytes of the buffer, in order, behind what it had.
pub send_to_files-content :
    {W : Type 0} (k : Kernel W) (open_fd : Option Bytes → W → ℤ × W) (file_name : Option Bytes)
    → (d : IsDisk k open_fd file_name) → (fuel : ℕ) (buf : Bytes) (w : W)
    → length buf + d.patience w ≤ fuel
    → (w1 : W) × (send_to_files k open_fd fuel file_name buf w ≡ some w1)
      × (d.content w1 ≡ d.content w ++ buf)
unfolding send_to_files
send_to_files-content k open_fd file_name d fuel [] w enough =
    (w, refl, sym (append-nil (d.content w)))
send_to_files-content k open_fd file_name d fuel (b ∷ buf) w enough =
    let (opens, same, patient) = d.opened w in
    let (fd, w1) = open_fd file_name w in
    rw opens (
      closed-Added k open_fd file_name d (b ∷ buf) w w1 fd
        (write_all k open_fd fuel fd (b ∷ buf) w1) same
        (write_all-Added k open_fd file_name d fuel fd (b ∷ buf) w1
          (omega (arith, enough, patient))))

-- On such a file system, with fuel for every byte and every interruption to come: send_to_files of the
-- disk thread returns, and the file has then got the contents of all buffers of the waiting pool, in
-- order, behind what it had.
pub send_pool-content :
    {W : Type 0} (k : Kernel W) (open_fd : Option Bytes → W → ℤ × W) (file_name : Option Bytes)
    → (d : IsDisk k open_fd file_name) → (fuel : ℕ) (waiting_pool : List PoolEntry) (w : W)
    → length (concat (contents waiting_pool)) + d.patience w ≤ fuel
    → (w1 : W) × (send_pool k open_fd fuel file_name waiting_pool w ≡ some w1)
      × (d.content w1 ≡ d.content w ++ concat (contents waiting_pool))
unfolding send_pool
send_pool-content k open_fd file_name d fuel waiting_pool w enough =
    let (opens, same, patient) = d.opened w in
    let (fd, w1) = open_fd file_name w in
    rw opens (
      closed-Added k open_fd file_name d (concat (contents waiting_pool)) w w1 fd
        (write_pool k open_fd fuel fd waiting_pool w1) same
        (write_pool-Added k open_fd file_name d fuel fd waiting_pool w1
          (omega (arith, enough, patient))))
