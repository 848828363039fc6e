-- ===== src/Logger/Text.antt =====
-- util_lib/logger/src/logger.cpp: what process_data hands on is its input cut into lines, each with its
-- header and its newline, whatever the buffer held and wherever it is flushed.
use core_connect_binary.Base.{
  ℕ, suc, ◌≡◌, ap, Bool, true, false, ◌||◌, List, [], ◌∷◌, ◌++◌, ◌==◌, if◌then◌else◌, Bytes,
}
use core_connect_binary.Timestamp.Clock.{TimeVal, Tm}
use core_connect_binary.Logger.Levels.{Level}
use core_connect_binary.Logger.Line.{Logger}
use core_connect_binary.Logger.Stamp.{Stamped}
use core_connect_binary.Logger.Sinks.{Sink, Enabled, logged}
use core_connect_binary.Logger.Lines.{header, added}

-- The bytes that end a line.
abbrev pub is_end : ℕ → Bool
is_end c = c == b'\n' || (c == b'\r' || c == 0)

abbrev pub add_first : ℕ → List Bytes → List Bytes
add_first c [] = (c ∷ []) ∷ []
add_first c (line ∷ lines) = (c ∷ line) ∷ lines

-- The input cut into lines; what follows the last end is a line unless it is empty.
abbrev pub split_lines : Bytes → List Bytes
split_lines [] = []
split_lines (c ∷ src) = if is_end c then [] ∷ split_lines src else add_first c (split_lines src)

split_lines-if :
    (c : ℕ) (src : Bytes) {b : Bool}
    → is_end c ≡ b
    → split_lines (c ∷ src) ≡ (if b then [] ∷ split_lines src else add_first c (split_lines src))
split_lines-if c src e =
    ap (λ b. if b then [] ∷ split_lines src else add_first c (split_lines src)) e

module _ (tm_of : ℕ → Tm) (clock : ℕ → TimeVal) (name : Bytes) (level : Level) where
  -- The text of the lines, the first of them with the time of call `k`.
  abbrev pub render : ℕ → List Bytes → Bytes
  render k [] = []
  render k (line ∷ lines) =
      header tm_of clock name level (clock k) ++ (line ++ b'\n' ∷ render (suc k) lines)

  -- The same when the header of the first line is out already.
  abbrev continue : ℕ → List Bytes → Bytes
  continue k [] = b'\n' ∷ []
  continue k (line ∷ lines) = line ++ b'\n' ∷ render k lines

  abbrev rest : Bool → ℕ → List Bytes → Bytes
  rest true k lines = render k lines
  rest false k lines = continue k lines

  abbrev next_call : Bool → ℕ → ℕ
  next_call true k = suc k
  next_call false k = k

  -- What the loop needs of a logger, and keeps.
  record Ready (s : Sink) (l : Logger) : Type 0 where
    stamped : Stamped tm_of l
    enabled : Enabled s l

  record Processed (s : Sink) (b : Bool) (c : ℕ) (l m : Logger) : Type 0 where
    ready : Ready s m
    calls : m.calls ≡ next_call b l.calls
    text : logged s m ≡ logged s l ++ added tm_of clock name level b c l
