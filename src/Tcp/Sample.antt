-- ===== src/Tcp/Sample.antt =====
-- The small system of Kernel.Sample does what POSIX says of `write`.
use core_connect_binary.Base.{
  zero, suc, ◌≤◌, ◌<◌, ◌≡◌, refl, true, false, [], ◌∷◌, ◌++◌, arith, length, take, Bytes,
}
use core_connect_binary.Base.Int.{pos, pos_part, ltb_ℤ}
use core_connect_binary.Kernel.{is_eintr}
use core_connect_binary.Kernel.Sample.{
  World, world, write_some, errno_of, written, pending, test_kernel,
}
use core_connect_binary.Tcp.WriteData.{IsPosix}

pub test_kernel-taken :
    (src : Bytes) (w : World)
    → ltb_ℤ (pos 0) (write_some src w).0 ≡ true
    → pos_part (write_some src w).0 ≤ length src
      × written (write_some src w).1 ≡ written w ++ take (pos_part (write_some src w).0) src
      × pending (write_some src w).1 ≤ pending w
test_kernel-taken src (world out (suc n) e) h = absurd (ground (arith, h))
test_kernel-taken [] (world out zero e) h = absurd (ground (arith, h))
test_kernel-taken (b ∷ []) (world out zero e) h = (omega arith, refl, omega arith)
test_kernel-taken (b ∷ c ∷ src) (world out zero e) h = (omega arith, refl, omega arith)

pub test_kernel-refused :
    (src : Bytes) (w : World)
    → ltb_ℤ (pos 0) (write_some src w).0 ≡ false
    → written (write_some src w).1 ≡ written w
      × (is_eintr (errno_of (write_some src w).1) ≡ true → pending (write_some src w).1 < pending w)
test_kernel-refused src (world out (suc n) e) h = (refl, λ _. omega arith)
test_kernel-refused [] (world out zero e) h = (refl, λ z. absurd (ground (arith, z)))
test_kernel-refused (b ∷ []) (world out zero e) h = absurd (ground (arith, h))
test_kernel-refused (b ∷ c ∷ src) (world out zero e) h = absurd (ground (arith, h))

abbrev pub test_kernel-IsPosix : IsPosix test_kernel
test_kernel-IsPosix = record {
  sent = written;
  patience = pending;
  taken = λ fd src w h. test_kernel-taken src w h;
  refused = λ fd src w h. test_kernel-refused src w h;
}
