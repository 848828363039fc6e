-- ===== src/Latency/Defs.antt =====
-- util_lib/latency/h/latency.hpp and src/latency.cpp. The array of counters is a function of the index.
-- The counts are numbers; the percentages and the average, which are only printed, are left out.
use core_connect_binary.Base.{
  ℕ, zero, suc, ◌+◌, ◌-◌, Bool, true, false, Option, none, some, List, [], ◌∷◌, ltb, leb, ◌==◌,
  if◌then◌else◌,
}
use core_connect_binary.Base.Int.{ℤ, pos, negsuc, ◌+ℤ◌}

unfoldable pub million : ℕ
million = 1000000

pub record Latency : Type 0 where
  pub counters : ℕ → ℕ
  pub under : ℕ
  pub over : ℕ
  pub total_count : ℕ
  pub total_time : ℤ
  pub display_range : ℕ

unfoldable pub size : Latency → ℕ
size l = l.total_count

-- `++counters[usec]`
abbrev pub bump : ℕ → (ℕ → ℕ) → ℕ → ℕ
bump usec counters i = if i == usec then counters i + 1 else counters i

-- Where a latency is counted.
unfoldable pub classify : ℤ → Latency → Latency
classify (negsuc n) l = record l { under = l.under + 1 }
classify (pos n) l =
    if leb million n
    then record l { over = l.over + 1 }
    else record l { counters = bump n l.counters }

unfoldable pub add : ℤ → Latency → Latency
add usec l =
    classify usec (record l { total_count = l.total_count + 1; total_time = l.total_time +ℤ usec })

unfoldable pub reset_counters : Latency → Latency
reset_counters l = record l {
  counters = λ i. 0;
  under = 0;
  over = 0;
  total_count = 0;
  total_time = pos 0;
}

unfoldable pub set_display_range : ℤ → Latency → Latency
set_display_range (negsuc n) l = record l { display_range = 100 }
set_display_range (pos n) l = record l { display_range = if ltb 100000 n then 100 else n }

-- The constructor, on what the members hold before.
unfoldable pub latency : Latency → Latency
latency l = record (reset_counters l) { display_range = 50 }

-- The inner loop: the sum of `len` counters from `i` on.
unfoldable pub range_sum : (ℕ → ℕ) → ℕ → ℕ → ℕ
range_sum counters i zero = 0
range_sum counters i (suc len) = counters i + range_sum counters (suc i) len

-- A line of the output.
pub record Row : Type 0 where
  pub first : ℕ
  pub last : ℕ
  pub range_total : ℕ
  pub running_total : ℕ

-- A range without a count is not printed.
abbrev pub row_if : ℕ → Row → List Row → List Row
row_if zero row rows = rows
row_if (suc n) row rows = row ∷ rows

unfoldable pub cons_row : Row → Option (List Row) → Option (List Row)
cons_row row none = none
cons_row row (some rows) = some (row_if row.range_total row rows)

-- The loop over the ranges from `i` on, after `running` counts: nothing when the rounds run out.
unfoldable pub ranges : ℕ → Latency → ℕ → ℕ → Option (List Row)
ranges zero l i running = if ltb i million then none else some []
ranges (suc rounds) l i running =
    let range_len = if ltb l.display_range (million - i) then l.display_range else million - i in
    let range_total = range_sum l.counters i range_len in
    let rest = ranges rounds l (i + l.display_range) (running + range_total) in
    if ltb i million
    then cons_row
        (record {
          first = i;
          last = i + range_len - 1;
          range_total = range_total;
          running_total = running + range_total;
        })
        rest
    else some []

-- The lines, and the object after a reset if it is asked for.
unfoldable pub calc : ℕ → Bool → Latency → Option (List Row) × Latency
calc rounds reset_counter l = (ranges rounds l 0 0, if reset_counter then reset_counters l else l)

-- The last line has the average time: an integer division by the total, which must not be 0.
unfoldable pub averaged : ℕ → Option (List Row) × Latency → Option Latency
averaged zero (rows, l) = none
averaged (suc n) (none, l) = none
averaged (suc n) (some rows, l) = some l

-- The object after the same into a named file, which may not open: then nothing happens. Nothing when
-- the rounds run out or the division fails.
unfoldable pub calc_file : Bool → ℕ → Bool → Latency → Option Latency
calc_file true rounds reset_counter l = averaged l.total_count (calc rounds reset_counter l)
calc_file false rounds reset_counter l = some l
