-- ===== src/Base/Text.antt =====
-- Letters of the ASCII characters, as the C library takes them.
use Prim.Native.Nat.{ℕ, ◌+◌}
use mathlib.Core.Bool.{Bool, ◌&&◌}
use mathlib.Core.List.{[], ◌∷◌}
use core_connect_binary.Base.Memory.{Bytes}
use core_connect_binary.Base.Tests.{leb, ◌==◌, if◌then◌else◌}

-- `tolower` on a byte.
abbrev pub to_lower : ℕ → ℕ
to_lower c = if leb b'A' c && leb c b'Z' then c + 32 else c

-- `!strncasecmp(buf, c, 1)`: the first byte, 0 where the text ends.
abbrev pub is_command : ℕ → Bytes → Bool
is_command c [] = to_lower c == 0
is_command c (x ∷ buf) = to_lower x == to_lower c
