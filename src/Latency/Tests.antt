-- ===== src/Latency/Tests.antt =====
-- A small run of the counters.
use core_connect_binary.Base.{ℕ, ◌+◌, ◌≡◌, refl, true, some, List, zero, suc, arith}
use core_connect_binary.Base.Int.{pos}
use core_connect_binary.Latency.Defs.{million, Latency, add, calc, Row, range_sum}
use core_connect_binary.Latency.Ranges.{Counted, sum_rows, RunsFrom, calc-total}

abbrev two_under : Latency
two_under = record {
  counters = λ i. 0;
  under = 2;
  over = 0;
  total_count = 2;
  total_time = pos 0;
  display_range = 5;
}

zeros-sum : (i len : ℕ) → range_sum (λ n. 0) i len ≡ 0
unfolding range_sum
zeros-sum i zero = refl
zeros-sum i (suc len) = omega (arith, zeros-sum (suc i) len)

two_under-Counted : Counted two_under
two_under-Counted = let zeros = zeros-sum 0 million in omega (arith, zeros)

calc-total_example :
    let m = add (pos 7) two_under in
    Counted m
    × (m.total_count ≡ 3)
    × ((rows : List Row) × ((calc million true m).0 ≡ some rows)
        × (m.total_count ≡ m.under + m.over + sum_rows rows)
        × RunsFrom 0 rows)
calc-total_example = calc-total (pos 7) two_under true two_under-Counted (omega arith)
