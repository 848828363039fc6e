-- ===== src/Base/Memory.antt =====
-- Memory as lists of bytes: `memcpy` into an array, `strlen`, little-endian numbers.
use Prim.Native.Nat.{ℕ, zero, suc, ◌+◌, ◌*◌, ◌/◌, ◌%◌, ◌^◌, ◌≤◌, ◌<◌}
use mathlib.Core.Path.{◌≡◌, refl, ap, sym, ◌∙◌}
use mathlib.Core.List.{List, [], ◌∷◌, ◌++◌, append-nil}
use native.Mathlib.Omega.{arith}
use native.Mathlib.Nat.{pow-suc}
use core_connect_binary.Base.Lists.{length, take}
use core_connect_binary.Base.Tests.{◌==◌, if◌then◌else◌}

abbrev pub Bytes : Type 0
Bytes = List ℕ

-- `memcpy(dst + offset, src, n)` for the `n` bytes of `src`. What would fall behind the end of the
-- array is not written; the callers' guards are proved to rule that out.
unfoldable pub memcpy : Bytes → ℕ → Bytes → Bytes
memcpy dst offset [] = dst
memcpy [] offset (x ∷ src) = []
memcpy (b ∷ dst) zero (x ∷ src) = x ∷ memcpy dst zero src
memcpy (b ∷ dst) (suc offset) (x ∷ src) = b ∷ memcpy dst offset (x ∷ src)

pub length-memcpy :
    (dst : Bytes) (offset : ℕ) (src : Bytes) → length (memcpy dst offset src) ≡ length dst
unfolding memcpy
length-memcpy dst offset [] = refl
length-memcpy [] offset (x ∷ src) = refl
length-memcpy (b ∷ dst) zero (x ∷ src) = ap suc (length-memcpy dst zero src)
length-memcpy (b ∷ dst) (suc offset) (x ∷ src) = ap suc (length-memcpy dst offset (x ∷ src))

take_zero-memcpy :
    (dst src : Bytes) → length src ≤ length dst → take (length src) (memcpy dst 0 src) ≡ src
unfolding memcpy
take_zero-memcpy dst [] h = refl
take_zero-memcpy [] (x ∷ src) h = absurd (omega arith)
take_zero-memcpy (b ∷ dst) (x ∷ src) h = ap (◌∷◌ x) (take_zero-memcpy dst src (omega arith))

-- What stands before the end of the copied bytes: the old prefix and the copied bytes.
pub take-memcpy :
    (dst : Bytes) (offset : ℕ) (src : Bytes)
    → offset + length src ≤ length dst
    → take (offset + length src) (memcpy dst offset src) ≡ take offset dst ++ src
unfolding memcpy
take-memcpy dst zero src h =
    ap (λ k. take k (memcpy dst 0 src)) {y = length src} (omega arith)
    ∙ take_zero-memcpy dst src (omega arith)
take-memcpy dst (suc offset) [] h =
    ap (λ k. take k dst) {y = suc offset} (omega arith) ∙ sym (append-nil (take (suc offset) dst))
take-memcpy [] (suc offset) (x ∷ src) h = absurd (omega arith)
take-memcpy (b ∷ dst) (suc offset) (x ∷ src) h =
    ap (λ k. take k (memcpy (b ∷ dst) (suc offset) (x ∷ src))) {y = suc (offset + length (x ∷ src))}
      (omega arith)
    ∙ ap (◌∷◌ b) (take-memcpy dst offset (x ∷ src) (omega arith))

-- `strlen`: the bytes before the first NUL.
unfoldable pub c_string : Bytes → Bytes
c_string [] = []
c_string (c ∷ cs) = if c == 0 then [] else c ∷ c_string cs

-- The bytes in memory of a number of `width` bytes on a little-endian machine.
unfoldable pub le_bytes : ℕ → ℕ → Bytes
le_bytes zero v = []
le_bytes (suc width) v = (v % 256) ∷ le_bytes width (v / 256)

unfoldable pub le_value : Bytes → ℕ
le_value [] = 0
le_value (b ∷ bs) = b + 256 * le_value bs

pub length-le_bytes : (width v : ℕ) → length (le_bytes width v) ≡ width
unfolding le_bytes
length-le_bytes zero v = refl
length-le_bytes (suc width) v = ap suc (length-le_bytes width (v / 256))

-- Reading back the bytes of a number that fits in `width` bytes.
pub le_value-le_bytes : (width v : ℕ) → v < 256 ^ width → le_value (le_bytes width v) ≡ v
unfolding le_bytes le_value
le_value-le_bytes zero v h = omega arith
le_value-le_bytes (suc width) v h =
    let small : v / 256 < 256 ^ width = omega (arith, pow-suc 256 width) in
    omega (arith, le_value-le_bytes width (v / 256) small)
