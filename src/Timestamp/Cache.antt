-- ===== src/Timestamp/Cache.antt =====
-- util_lib/time/src/timestamp.cpp: the caches of the clock's texts do not show.
use core_connect_binary.Base.{
  ℕ, zero, suc, ◌+◌, ◌*◌, ◌/◌, ◌≤◌, ◌<◌, ◌^◌, ◌≡◌, refl, sym, ap, subst, ◌∙◌, ◌⊎◌, inl, inr, true,
  [], arith, ltb, ltb-false, ◌==◌, ==_iff, Bool-cases, Bytes,
}
use core_connect_binary.Timestamp.Clock.{
  TimeType, local, gmt, same_type, TimeVal, Tm, digits_upto, last_digits, format_d, hmsu, put_usecs,
  TextCache, Timestamp, refresh, hmsu_today, DayCache, second_of_day, usecs_today, usecs_today_slow,
}

digits_upto_le : (w fuel n : ℕ) → n < 10 ^ suc w → digits_upto fuel n ≤ suc w
unfolding digits_upto
digits_upto_le w zero n h = omega arith
digits_upto_le zero (suc fuel) n h = ground arith
digits_upto_le (suc w) (suc fuel) n h =
    let power : 10 ^ suc (suc w) ≡ 10 * 10 ^ suc w = omega arith in
    let least = digits_upto_le w fuel (n / 10) (omega (arith, h, power)) in
    elim (Bool-cases (ltb n 10)) [
      | inl small ↦ rw small (omega arith)
      | inr large ↦ rw large (omega (arith, least))
    ]

-- A number that fits is printed with its last `w` digits.
pub format_d_fits : (w n : ℕ) → n < 10 ^ suc w → format_d (suc w) n ≡ last_digits (suc w) n []
unfolding format_d
format_d_fits w n h = rw (ltb-false {a = suc w} {b = digits_upto n n} (digits_upto_le w n n h)) refl

-- The ranges of the broken-down time that the C library documents, with a year of at most four digits.
pub record IsTm (tm : Tm) : Type 0 where
  pub sec : tm.tm_sec ≤ 60
  pub minute : tm.tm_min ≤ 59
  pub hour : tm.tm_hour ≤ 23
  pub mday : tm.tm_mday ≤ 31
  pub mon : tm.tm_mon ≤ 11
  pub year : tm.tm_year + 1900 < 10000

hmsu-put_usecs :
    (tm : Tm) (usecs tmp : ℕ)
    → IsTm tm
    → usecs < 1000000
    → tmp < 1000000
    → put_usecs (hmsu tm usecs) 14 tmp ≡ hmsu tm tmp
unfolding hmsu put_usecs last_digits
hmsu-put_usecs tm usecs tmp v h1 h2 =
    rw
      (
        format_d_fits 1 tm.tm_hour (omega (arith, v)),
        format_d_fits 1 tm.tm_min (omega (arith, v)),
        format_d_fits 1 tm.tm_sec (omega (arith, v)),
        format_d_fits 5 usecs (omega arith),
        format_d_fits 5 tmp (omega arith),
      )
      refl

same_type-eq : (a b : TimeType) → same_type a b ≡ true → a ≡ b
same_type-eq local local h = refl
same_type-eq local gmt h = absurd (ground (arith, h))
same_type-eq gmt local h = absurd (ground (arith, h))
same_type-eq gmt gmt h = refl

module _ (tm_of : TimeType → ℕ → Tm) where
  -- The cache was never used, or it holds the text of its time.
  abbrev pub Coherent : (Tm → ℕ → Bytes) → TextCache → Type 0
  Coherent format c =
      (c.time ≡ 0)
      ⊎ ((c.text ≡ format (tm_of c.last_type_called c.time) c.usecs) × (c.usecs < 1000000))

  refresh-text :
      (format : Tm → ℕ → Bytes) (last : ℕ)
      → ((tm : Tm) (usecs tmp : ℕ)
          → IsTm tm
          → usecs < 1000000
          → tmp < 1000000
          → put_usecs (format tm usecs) last tmp ≡ format tm tmp)
      → (value : TimeType) (tv : TimeVal) (c : TextCache) → 0 < tv.tv_sec
      → tv.tv_usec < 1000000
      → IsTm (tm_of value tv.tv_sec)
      → Coherent format c
      → let c1 = refresh tm_of format last value tv c in
        (c1.text ≡ format (tm_of value tv.tv_sec) tv.tv_usec) × Coherent format c1
  unfolding refresh
  refresh-text format last put value tv c started fits ranges coherent =
      elim (Bool-cases (tv.tv_sec == c.time)) [
        | inr other ↦ rw other (refl, inr (refl, fits))
        | inl now ↦ rw now (elim (Bool-cases (same_type c.last_type_called value)) [
          | inr other ↦ rw other (refl, inr (refl, fits))
          | inl same ↦ rw same (elim coherent [
            | inl unused ↦ absurd (omega (arith, started, unused, (==_iff tv.tv_sec c.time).0 now))
            | inr held ↦
                let time = (==_iff tv.tv_sec c.time).0 now in
                let who = same_type-eq c.last_type_called value same in
                let moved : (u : ℕ)
                    → format (tm_of c.last_type_called c.time) u
                      ≡ format (tm_of value tv.tv_sec) u =
                  λ u i. format (tm_of (who i) (sym time i)) u in
                let old = tm_of c.last_type_called c.time in
                let same_tm : old ≡ tm_of value tv.tv_sec = λ i. tm_of (who i) (sym time i) in
                elim (Bool-cases (tv.tv_usec == c.usecs)) [
                  | inl usec ↦ rw usec (
                    held.0
                        ∙ moved c.usecs
                        ∙ ap (format (tm_of value tv.tv_sec))
                            (sym ((==_iff tv.tv_usec c.usecs).0 usec)),
                    inr held,
                  )
                  | inr later ↦
                      let text : put_usecs c.text last tv.tv_usec ≡ format old tv.tv_usec =
                        ap (λ x. put_usecs x last tv.tv_usec) held.0
                        ∙ put old c.usecs tv.tv_usec (subst IsTm (sym same_tm) ranges) held.1
                            fits in
                      rw later (text ∙ moved tv.tv_usec, inr (text, fits))
                ]
          ])
        ])
      ]

  -- At any time of the epoch but its first second, with the fields of `localtime_r` and
  -- `gmtime_r` in the ranges that the C library documents, `hmsu_today` returns on every coherent
  -- cache the text of the time of the clock, and leaves the cache coherent.
  pub hmsu_today-text :
      (value : TimeType) (tv : TimeVal) (t : Timestamp)
      → 0 < tv.tv_sec
      → tv.tv_usec < 1000000
      → IsTm (tm_of value tv.tv_sec)
      → Coherent hmsu t.m
      → let (text, t1) = hmsu_today tm_of value tv t in
        (text ≡ hmsu (tm_of value tv.tv_sec) tv.tv_usec) × Coherent hmsu t1.m
  unfolding hmsu_today
  hmsu_today-text value tv t = refresh-text hmsu 14 hmsu-put_usecs value tv t.m

module _ (tm_of : TimeType → ℕ → Tm) where
  -- The day cache was never used, or it holds the second of the day of its time.
  abbrev pub DayCoherent : DayCache → Type 0
  DayCoherent c = (c.time ≡ 0) ⊎ (c.daysec ≡ second_of_day tm_of (tm_of c.last_type_called c.time))

  -- At any time of the epoch but its first second, `usecs_today` returns what `usecs_today_slow`
  -- computes anew, on every coherent day cache, and leaves the cache coherent.
  pub usecs_today-slow :
      (value : TimeType) (tv : TimeVal) (t : Timestamp)
      → 0 < tv.tv_sec
      → DayCoherent t.ml
      → let (usecs, t1) = usecs_today tm_of value tv t in
        (usecs ≡ usecs_today_slow tm_of value tv) × DayCoherent t1.ml
  unfolding usecs_today usecs_today_slow
  usecs_today-slow value tv t started coherent =
      let c = t.ml in
      elim (Bool-cases (tv.tv_sec == c.time)) [
        | inr other ↦ rw other (refl, inr refl)
        | inl now ↦ rw now (elim (Bool-cases (same_type c.last_type_called value)) [
          | inr other ↦ rw other (refl, inr refl)
          | inl same ↦ rw same (elim coherent [
            | inl unused ↦ absurd (omega (arith, started, unused, (==_iff tv.tv_sec c.time).0 now))
            | inr held ↦
                let time = (==_iff tv.tv_sec c.time).0 now in
                let who = same_type-eq c.last_type_called value same in
                (
                  ap (λ s. s * 1000000 + tv.tv_usec)
                      (held ∙ λ i. second_of_day tm_of (tm_of (who i) (sym time i))),
                  inr held,
                )
          ])
        ])
      ]
