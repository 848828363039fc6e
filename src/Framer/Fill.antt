-- ===== src/Framer/Fill.antt =====
-- The byte-by-byte framer over whole pieces of a stream.
use core_connect_binary.Base.{
  ℕ, zero, suc, ◌+◌, ◌-◌, ◌*◌, ◌≤◌, ◌<◌, ◌≡◌, refl, sym, ap, ◌∙◌, [], ◌∷◌, ◌++◌, arith, ltb, ◌==◌,
  length, Bytes, min, append-nil, append_assoc, length-append, ltb-true, ltb-false, le-cases, inl,
  inr, Bool-cases, ◌≢◌, ◌%◌, ◌^◌,
}
use native.Mathlib.Numerals.{sub-one}
use core_connect_binary.Framer.Spec.{
  Progress, idle, half, filling, Result, going, failed, deliver, advance, feed, run, continue,
}

module _ {H : Type 0} (process_rx_frame : H → ℕ → Bytes → ℕ × H)
    (header_counted stream max : ℕ) where
  abbrev pub spec_run : Progress → H → Bytes → Result H
  spec_run = run process_rx_frame header_counted stream max

  abbrev pub spec_continue : Result H → Bytes → Result H
  spec_continue = continue process_rx_frame header_counted stream max

  abbrev pub spec_advance : Bytes → ℕ → H → Result H
  spec_advance = advance process_rx_frame header_counted stream max

  resume :
      (r : Result H) (bs : Bytes)
      → (elim r [ going p h ↦ spec_run p h bs | failed c h ↦ failed c h ]) ≡ spec_continue r bs
  unfolding continue
  resume (going p h) bs = refl
  resume (failed c h) bs = refl

  pub run-cons :
      (p : Progress) (h : H) (b : ℕ) (bs : Bytes)
      → spec_run p h (b ∷ bs)
        ≡ spec_continue (feed process_rx_frame header_counted stream max p h b) bs
  unfolding run
  run-cons p h b bs = resume (feed process_rx_frame header_counted stream max p h b) bs

  continue-append :
      (a b : Bytes) (r : Result H) → spec_continue r (a ++ b) ≡ spec_continue (spec_continue r a) b
  unfolding run continue
  continue-append [] b (going p h) = refl
  continue-append [] b (failed c h) = refl
  continue-append (x ∷ a) b (failed c h) = refl
  continue-append (x ∷ a) b (going p h) =
      run-cons p h x (a ++ b)
      ∙ continue-append a b (feed process_rx_frame header_counted stream max p h x)
      ∙ ap (λ r. spec_continue r b) (sym (run-cons p h x a))

  -- Feeding two pieces one after the other is feeding them at once.
  pub run-append :
      (a b : Bytes) (p : Progress) (h : H)
      → spec_run p h (a ++ b) ≡ spec_continue (spec_run p h a) b
  unfolding continue
  run-append a b p h = continue-append a b (going p h)

  -- One byte of a body that is not complete.
  pub continue-advance_suc :
      (got : Bytes) (need x : ℕ) (h : H) (rest : Bytes)
      → length got + 1 ≤ max
      → spec_continue (spec_advance got (suc need) h) (x ∷ rest)
        ≡ spec_continue (spec_advance (got ++ x ∷ []) need h) rest
  unfolding feed advance
  continue-advance_suc got need x h rest fits =
      unfold continue in
      run-cons (filling got (suc need)) h x rest
      ∙ rw (ltb-false {a = max} {b = length got + 1} fits, sub-one) refl

  -- A piece of a body that the frame and the limit have room for.
  pub continue-advance :
      (xs got : Bytes) (need : ℕ) (h : H) (rest : Bytes)
      → length xs ≤ need
      → length got + length xs ≤ max
      → spec_continue (spec_advance got need h) (xs ++ rest)
        ≡ spec_continue (spec_advance (got ++ xs) (need - length xs) h) rest
  continue-advance [] got need h rest le fits =
      ap (λ g. spec_continue (spec_advance g need h) rest) (sym (append-nil got))
      ∙ ap (λ n. spec_continue (spec_advance (got ++ []) n h) rest) {y = need - 0} (omega arith)
  continue-advance (x ∷ xs) got zero h rest le fits = absurd (omega arith)
  continue-advance (x ∷ xs) got (suc need) h rest le fits =
      continue-advance_suc got need x h (xs ++ rest) (omega arith)
      ∙ continue-advance xs (got ++ x ∷ []) need h rest (omega arith)
          (omega (arith, length-append got (x ∷ [])))
      ∙ ap (λ g. spec_continue (spec_advance g (need - length xs) h) rest)
          (append_assoc got (x ∷ []) xs)
      ∙ ap (λ n. spec_continue (spec_advance (got ++ x ∷ xs) n h) rest)
          {y = suc need - suc (length xs)} (omega arith)

  continue-advance_full :
      (got : Bytes) (need x : ℕ) (h : H) (rest : Bytes)
      → max < length got + 1
      → spec_continue (spec_advance got (suc need) h) (x ∷ rest) ≡ failed 5002 h
  unfolding feed advance continue
  continue-advance_full got need x h rest full =
      run-cons (filling got (suc need)) h x rest
      ∙ rw (ltb-true {a = max} {b = length got + 1} full) refl

  -- A body whose bytes go over the limit is refused, and nothing of it is delivered.
  pub continue-advance_over :
      (src got : Bytes) (need : ℕ) (h : H)
      → length got ≤ max
      → max < length got + min need (length src)
      → spec_continue (spec_advance got need h) src ≡ failed 5002 h
  continue-advance_over [] got need h le over = absurd (omega arith)
  continue-advance_over (x ∷ src) got zero h le over = absurd (omega arith)
  continue-advance_over (x ∷ src) got (suc need) h le over = elim (le-cases (length got + 1) max) [
    | inl fits ↦
        continue-advance_suc got need x h src fits
        ∙ continue-advance_over src (got ++ x ∷ []) need h
            (omega (arith, length-append got (x ∷ []))) (omega (arith, length-append got (x ∷ [])))
    | inr full ↦ continue-advance_full got need x h src full
  ]

-- An error code is not 0.
abbrev pub NonZero : {H : Type 0} → Result H → Type 0
NonZero (going p h) = Unit
NonZero (failed c h) = c ≢ 0

module _ {H : Type 0} (process_rx_frame : H → ℕ → Bytes → ℕ × H)
    (header_counted stream max : ℕ) where
  advance-NonZero :
      (got : Bytes) (need : ℕ) (h : H)
      → NonZero (spec_advance process_rx_frame header_counted stream max got need h)
  unfolding advance deliver
  advance-NonZero got zero h = elim (Bool-cases ((process_rx_frame h stream got).0 == 0)) [
    | inl fine ↦ rw fine tt
    | inr err ↦ rw err (ground arith)
  ]
  advance-NonZero got (suc need) h = tt

  feed-NonZero :
      (p : Progress) (h : H) (b : ℕ)
      → NonZero (feed process_rx_frame header_counted stream max p h b)
  unfolding feed
  feed-NonZero idle h b = tt
  feed-NonZero (half b0) h b = elim (Bool-cases (ltb ((b0 + 256 * b) % 2 ^ 16) 2)) [
    | inl short ↦ rw short (omega arith)
    | inr enough ↦
        rw enough (advance-NonZero (b0 ∷ b ∷ []) ((b0 + 256 * b) % 2 ^ 16 - header_counted) h)
  ]
  feed-NonZero (filling got need) h b = elim (Bool-cases (ltb max (length got + 1))) [
    | inl full ↦ rw full (omega arith)
    | inr fits ↦ rw fits (advance-NonZero (got ++ b ∷ []) (need - 1) h)
  ]

  pub continue-NonZero :
      (bs : Bytes) (r : Result H)
      → NonZero r
      → NonZero (spec_continue process_rx_frame header_counted stream max r bs)
  unfolding continue run
  continue-NonZero [] (going p h) n = tt
  continue-NonZero [] (failed c h) n = n
  continue-NonZero (b ∷ bs) (failed c h) n = n
  continue-NonZero (b ∷ bs) (going p h) n =
      rw
        (resume process_rx_frame header_counted stream max
          (feed process_rx_frame header_counted stream max p h b) bs)
        (continue-NonZero bs _ (feed-NonZero p h b))
