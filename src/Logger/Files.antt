-- ===== src/Logger/Files.antt =====
-- util_lib/logger/src/logger.cpp: the two functions send_to_files, over the system calls of Kernel and
-- the parameter `open_fd`, which is `::open` with the flags and the mode of the source.
use core_connect_binary.Base.{
  ℕ, zero, suc, ◌||◌, Option, none, some, List, [], ◌∷◌, drop, if◌then◌else◌, Bytes,
}
use core_connect_binary.Base.Int.{ℤ, pos, pos_part, ltb_ℤ}
use core_connect_binary.Kernel.{Kernel, Errno, is_eintr, is_eagain}
use core_connect_binary.Logger.Pool.{PoolEntry}

-- A round of `while (len)`: bytes were written, or another try, or `break`.
pub data FileTurn : Type 0 where
  wrote : ℕ → FileTurn
  again : FileTurn
  broken : FileTurn

unfoldable pub file_turn : ℤ → Errno → FileTurn
file_turn num errno =
    if ltb_ℤ (pos 0) num
    then wrote (pos_part num)
    else if is_eintr errno || is_eagain errno
    then again
    else broken

abbrev pub and_then : {W : Type 0} → Option W → (W → Option W) → Option W
and_then none f = none
and_then (some w) f = f w

module _ {W : Type 0} (k : Kernel W) (open_fd : Option Bytes → W → ℤ × W) where
  -- `while (len)`; nothing if the fuel runs out.
  unfoldable pub write_all : ℕ → ℤ → Bytes → W → Option W
  write_all fuel fd [] w = some w
  write_all zero fd (b ∷ src) w = none
  write_all (suc fuel) fd (b ∷ src) w =
      let (num, w1) = k.write_fd fd (b ∷ src) w in
      elim (file_turn num (k.errno w1)) as (λ t. Option W) [
        | wrote n ↦ write_all fuel fd (drop n (b ∷ src)) w1
        | again ↦ write_all fuel fd (b ∷ src) w1
        | broken ↦ some w1
      ]

  unfoldable pub closed : ℤ → Option W → Option W
  closed fd none = none
  closed fd (some w) = some (k.close_fd fd w).1

  -- `send_to_files(const char *buf, int len)`
  unfoldable pub send_to_files : ℕ → Option Bytes → Bytes → W → Option W
  send_to_files fuel file_name [] w = some w
  send_to_files fuel file_name (b ∷ buf) w =
      let (fd, w1) = open_fd file_name w in
      if ltb_ℤ fd (pos 0) then some w1 else closed fd (write_all fuel fd (b ∷ buf) w1)

  unfoldable pub write_pool : ℕ → ℤ → List PoolEntry → W → Option W
  write_pool fuel fd [] w = some w
  write_pool fuel fd (e ∷ es) w =
      and_then (write_all fuel fd e.content w) (λ w1. write_pool fuel fd es w1)

  -- `send_to_files(std::deque<struct pool_entry> &waiting_pool)`: `fuel` for each buffer.
  unfoldable pub send_pool : ℕ → Option Bytes → List PoolEntry → W → Option W
  send_pool fuel file_name waiting_pool w =
      let (fd, w1) = open_fd file_name w in
      if ltb_ℤ fd (pos 0) then some w1 else closed fd (write_pool fuel fd waiting_pool w1)
