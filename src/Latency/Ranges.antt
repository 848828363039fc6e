-- ===== src/Latency/Ranges.antt =====
-- util_lib/latency: every latency is counted once, and every count is shown once.
use core_connect_binary.Base.{
  none, true, false, ℕ, zero, suc, ◌+◌, ◌-◌, ◌≤◌, ◌<◌, ◌≡◌, inl, inr, refl, sym, ap, ap₂, subst,
  ◌∙◌, Bool, Option, some, List, [], ◌∷◌, ltb, leb, ltb-false, ◌==◌, ==_false, if◌then◌else◌,
  Bool-cases, arith,
}
use core_connect_binary.Base.Int.{ℤ, pos, negsuc}
use core_connect_binary.Latency.Defs.{
  averaged, calc_file, million, Latency, bump, classify, add, range_sum, Row, row_if, cons_row,
  ranges, calc,
}

range_sum-split :
    (counters : ℕ → ℕ) (i a b : ℕ)
    → range_sum counters i (a + b) ≡ range_sum counters i a + range_sum counters (i + a) b
unfolding range_sum
range_sum-split counters i zero b =
    ap (range_sum counters i) {y = b} (omega arith)
    ∙ ap (λ j. range_sum counters j b) {y = i + 0} (omega arith)
    ∙ omega arith
range_sum-split counters i (suc a) b =
    ap (range_sum counters i) {y = suc (a + b)} (omega arith)
    ∙ ap (λ n. counters i + n)
        (range_sum-split counters (suc i) a b
          ∙ ap (λ j. range_sum counters (suc i) a + range_sum counters j b) {y = i + suc a}
              (omega arith))
    ∙ omega arith

-- A counter before the range does not count.
range_sum-before :
    (counters : ℕ → ℕ) (n i len : ℕ)
    → n < i
    → range_sum (bump n counters) i len ≡ range_sum counters i len
unfolding range_sum
range_sum-before counters n i zero h = refl
range_sum-before counters n i (suc len) h =
    ap₂ (λ b r. (if b then counters i + 1 else counters i) + r)
      (==_false {a = i} {b = n} (λ e. omega (arith, e, h)))
      (range_sum-before counters n (suc i) len (omega (arith, h)))

-- One inside the range counts once.
range_sum-inside :
    (counters : ℕ → ℕ) (n i len : ℕ)
    → i ≤ n
    → n < i + len
    → range_sum (bump n counters) i len ≡ range_sum counters i len + 1
unfolding range_sum
range_sum-inside counters n i zero low high = absurd (omega (arith, low, high))
range_sum-inside counters n i (suc len) low high = elim (Bool-cases (i == n)) [
  | inl here ↦
      let rest = range_sum-before counters n (suc i) len (ground (arith, here)) in
      rw here (omega (arith, rest))
  | inr later ↦
      let rest =
        range_sum-inside counters n (suc i) len (ground (arith, later, low))
          (omega (arith, high)) in
      rw later (omega (arith, rest))
]

-- All latencies are below 0, above the last counter, or counted.
abbrev pub Counted : Latency → Type 0
Counted l = l.total_count ≡ l.under + l.over + range_sum l.counters 0 million

classify-Counted :
    (usec : ℤ) (l : Latency)
    → l.total_count ≡ l.under + l.over + range_sum l.counters 0 million + 1
    → Counted (classify usec l)
unfolding classify
classify-Counted (negsuc n) l c = omega (arith, c)
classify-Counted (pos n) l c = elim (Bool-cases (leb million n)) [
  | inl large ↦ rw large (omega (arith, c))
  | inr small ↦
      let inside = range_sum-inside l.counters n 0 million (omega arith) (ground (arith, small)) in
      rw small (omega (arith, c, inside))
]

add-Counted : (usec : ℤ) (l : Latency) → Counted l → Counted (add usec l)
unfolding add
add-Counted usec l c = classify-Counted usec _ (omega (arith, c))

abbrev pub sum_rows : List Row → ℕ
sum_rows [] = 0
sum_rows (r ∷ rows) = r.range_total + sum_rows rows

-- Every row has the sum up to itself.
abbrev pub RunsFrom : ℕ → List Row → Type 0
RunsFrom running [] = Unit {0}
RunsFrom running (r ∷ rows) =
    (r.running_total ≡ running + r.range_total) × RunsFrom r.running_total rows

abbrev Shown : ℕ → ℕ → Option (List Row) → Type 0
Shown running total o =
    (rows : List Row) × (o ≡ some rows) × (sum_rows rows ≡ total) × RunsFrom running rows

row_if-sum :
    (n : ℕ) (r : Row) (rows : List Row)
    → r.range_total ≡ n
    → sum_rows (row_if n r rows) ≡ r.range_total + sum_rows rows
row_if-sum zero r rows e = omega (arith, e)
row_if-sum (suc n) r rows e = refl

row_if-RunsFrom :
    (n running : ℕ) (r : Row) (rows : List Row)
    → r.range_total ≡ n
    → r.running_total ≡ running + r.range_total
    → RunsFrom r.running_total rows
    → RunsFrom running (row_if n r rows)
row_if-RunsFrom zero running r rows e t more =
    subst (λ k. RunsFrom k rows) (omega (arith, t, e)) more
row_if-RunsFrom (suc n) running r rows e t more = (t, more)

cons_row-Shown :
    (r : Row) (running total : ℕ) (o : Option (List Row))
    → r.running_total ≡ running + r.range_total
    → Shown r.running_total total o
    → Shown running (r.range_total + total) (cons_row r o)
unfolding cons_row
cons_row-Shown r running total o t (rows, ends, all, more) = (
  row_if r.range_total r rows,
  ap (cons_row r) ends,
  row_if-sum r.range_total r rows refl ∙ ap (λ n. r.range_total + n) all,
  row_if-RunsFrom r.range_total running r rows refl t more,
)

range_sum-none : (counters : ℕ → ℕ) (i : ℕ) → range_sum counters i 0 ≡ 0
unfolding range_sum
range_sum-none counters i = refl

past_end : (counters : ℕ → ℕ) (i : ℕ) → million ≤ i → range_sum counters i (million - i) ≡ 0
past_end counters i h =
    ap (range_sum counters i) {y = 0} (omega (arith, h)) ∙ range_sum-none counters i

classify-range :
    (usec : ℤ) (l : Latency)
    → (let m = classify usec l in
        (m.display_range ≡ l.display_range) × (m.total_count ≡ l.total_count))
unfolding classify
classify-range (negsuc n) l = (refl, refl)
classify-range (pos n) l = elim (Bool-cases (leb million n)) [
  | inl large ↦ rw large (refl, refl)
  | inr small ↦ rw small (refl, refl)
]

add-range :
    (usec : ℤ) (l : Latency)
    → (let m = add usec l in
        (m.display_range ≡ l.display_range) × (m.total_count ≡ l.total_count + 1))
unfolding add
add-range usec l = classify-range usec _

-- The counters from `i` on are those of the range, and those behind it.
range-step :
    (counters : ℕ → ℕ) (display_range i : ℕ)
    → (let len = if ltb display_range (million - i) then display_range else million - i in
        range_sum counters i (million - i)
        ≡ range_sum counters i len
          + range_sum counters (i + display_range) (million - (i + display_range)))
range-step counters display_range i = elim (Bool-cases (ltb display_range (million - i))) [
  | inl inner ↦
      let whole : million - i ≡ display_range + (million - (i + display_range)) =
        ground (arith, inner) in
      rw inner (
        ap (range_sum counters i) whole
        ∙ range_sum-split counters i display_range (million - (i + display_range)))
  | inr final ↦
      let none_left : million - (i + display_range) ≡ 0 = ground (arith, final) in
      let empty =
        ap (range_sum counters (i + display_range)) none_left
        ∙ range_sum-none counters (i + display_range) in
      rw final (omega (arith, empty))
]

ranges-Shown :
    (rounds : ℕ) (l : Latency) (i running : ℕ)
    → 0 < l.display_range
    → million ≤ rounds + i
    → Shown running (range_sum l.counters i (million - i)) (ranges rounds l i running)
unfolding ranges
ranges-Shown zero l i running some_range enough =
    rw (ltb-false {a = i} {b = million} (omega (arith, enough)))
      ([], refl, sym (past_end l.counters i (omega (arith, enough))), tt)
ranges-Shown (suc rounds) l i running some_range enough = elim (Bool-cases (ltb i million)) [
  | inr done ↦ rw done ([], refl, sym (past_end l.counters i (ground (arith, done))), tt)
  | inl more ↦
      let len = if ltb l.display_range (million - i) then l.display_range else million - i in
      let row : Row = record {
        first = i;
        last = i + len - 1;
        range_total = range_sum l.counters i len;
        running_total = running + range_sum l.counters i len;
      } in
      rw more (
        subst
          (λ n. Shown running n (
            cons_row row
              (ranges rounds l (i + l.display_range) (running + range_sum l.counters i len))))
          (sym (range-step l.counters l.display_range i))
          (cons_row-Shown row running _ _ refl (
            ranges-Shown rounds l (i + l.display_range) (running + range_sum l.counters i len)
              some_range (omega (arith, enough, some_range)))))
]

-- When every latency so far is below 0, above the last counter, or counted, and the display range is
-- positive: after another latency the same holds, and the total is one more; and calc, within a million
-- rounds of its loop, returns lines whose counts, with those below and above, add up to the total, each
-- line with the running total of the counts up to it.
pub calc-total :
    (usec : ℤ) (l : Latency) (reset_counter : Bool)
    → Counted l
    → 0 < l.display_range
    → let m = add usec l in
      Counted m
      × (m.total_count ≡ l.total_count + 1)
      × ((rows : List Row) × ((calc million reset_counter m).0 ≡ some rows)
          × (m.total_count ≡ m.under + m.over + sum_rows rows)
          × RunsFrom 0 rows)
unfolding calc
calc-total usec l reset_counter c some_range =
    let m = add usec l in
    let counted = add-Counted usec l c in
    let (kept, one_more) = add-range usec l in
    let (rows, ends, all, runs) =
      ranges-Shown million m 0 0 (omega (arith, some_range, kept)) (omega arith) in
    let whole : range_sum m.counters 0 (million - 0) ≡ range_sum m.counters 0 million =
      ap (range_sum m.counters 0) {x = million - 0} {y = million} (omega arith) in
    (counted, one_more, (rows, ends, omega (arith, counted, all, whole), runs))

averaged-some :
    (n : ℕ) (o : Option (List Row) × Latency) (rows : List Row)
    → 0 < n
    → o.0 ≡ some rows
    → averaged n o ≡ some o.1
unfolding averaged
averaged-some zero o rows pos_n e = absurd (omega (arith, pos_n))
averaged-some (suc n) (none, l) rows pos_n e = absurd (ground (arith, e))
averaged-some (suc n) (some r, l) rows pos_n e = refl

-- With a positive display range and a positive total, the file is written.
pub calc_file-ends :
    (opens : Bool) (l : Latency)
    → 0 < l.display_range
    → 0 < l.total_count
    → (m : Latency) × (calc_file opens million true l ≡ some m)
unfolding calc_file calc
calc_file-ends false l some_range counted = (l, refl)
calc_file-ends true l some_range counted =
    let (rows, ends, _, _) = ranges-Shown million l 0 0 some_range (omega arith) in
    (_, averaged-some l.total_count (calc million true l) rows counted ends)
