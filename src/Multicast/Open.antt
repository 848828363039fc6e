-- ===== src/Multicast/Open.antt =====
-- util_lib/multicast/src/multicast.cpp: what `open` does with the descriptor.
use core_connect_binary.Base.{◌≡◌, true}
use core_connect_binary.Base.Int.{ℤ}
use core_connect_binary.Kernel.{Kernel, is_minus_one}
use core_connect_binary.Multicast.Defs.{Multicast, Texts}

module _ {W : Type 0} (k : Kernel W) (texts : Texts) where
  -- The last call of the system was a `close` of `fd` that failed.
  abbrev pub CloseFails : ℤ → W → Type 0
  CloseFails fd after =
      (w : W) × (is_minus_one (k.close_fd fd w).0 ≡ true) × ((k.close_fd fd w).1 ≡ after)
