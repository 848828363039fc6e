-- ===== src/Base/Results.antt =====
-- Results of calls that may run out of fuel.
use Prim.Native.Nat.{ℕ}
use mathlib.Core.Option.{Option, none, some}

-- The caller returns 0, whatever the call returned.
unfoldable pub ignore_ret {ℓ} : {A : Type ℓ} → Option (ℕ × A) → Option (ℕ × A)
ignore_ret none = none
ignore_ret (some (ret, a)) = some (0, a)
