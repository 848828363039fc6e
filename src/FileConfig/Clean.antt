-- ===== src/FileConfig/Clean.antt =====
-- util_lib/file_config/src/file_config.cpp: `clean_line`.
use core_connect_binary.Base.{
  ℕ, ◌≡◌, ◌≢◌, refl, ap, ◌∙◌, inl, inr, true, ◌&&◌, [], ◌∷◌, ◌==◌, ==_false, Bool-cases, arith,
  Bytes,
}
use core_connect_binary.FileConfig.Defs.{
  before, is_blank, is_empty, trim_end, drop_blanks, clean_line,
}

-- No byte of the line is `c`.
abbrev pub Free : ℕ → Bytes → Type 0
Free c [] = Unit
Free c (x ∷ xs) = (x ≢ c) × Free c xs

before-Free : (c : ℕ) (xs : Bytes) → Free c (before c xs)
unfolding before
before-Free c [] = tt
before-Free c (x ∷ xs) = elim (Bool-cases (x == c)) [
  | inl e ↦ rw e tt
  | inr e ↦ rw e ((λ z. absurd (ground (arith, e, z))), before-Free c xs)
]

before-keeps : (c d : ℕ) (xs : Bytes) → Free c xs → Free c (before d xs)
unfolding before
before-keeps c d [] f = tt
before-keeps c d (x ∷ xs) f = elim (Bool-cases (x == d)) [
  | inl e ↦ rw e tt
  | inr e ↦ rw e (f.0, before-keeps c d xs f.1)
]

trim_end-keeps : (c : ℕ) (xs : Bytes) → Free c xs → Free c (trim_end xs)
unfolding trim_end
trim_end-keeps c [] f = tt
trim_end-keeps c (x ∷ xs) f = elim (Bool-cases (is_blank x && is_empty (trim_end xs))) [
  | inl e ↦ rw e tt
  | inr e ↦ rw e (f.0, trim_end-keeps c xs f.1)
]

drop_blanks-keeps : (c : ℕ) (xs : Bytes) → Free c xs → Free c (drop_blanks xs)
unfolding drop_blanks
drop_blanks-keeps c [] f = tt
drop_blanks-keeps c (x ∷ xs) f = elim (Bool-cases (is_blank x)) [
  | inl e ↦ rw e (drop_blanks-keeps c xs f.1)
  | inr e ↦ rw e f
]

before_same : (c : ℕ) (xs : Bytes) → Free c xs → before c xs ≡ xs
unfolding before
before_same c [] f = refl
before_same c (x ∷ xs) f = rw (==_false f.0) (ap (λ l. x ∷ l) (before_same c xs f.1))

is_empty-nil : (xs : Bytes) → is_empty xs ≡ true → xs ≡ []
is_empty-nil [] h = refl
is_empty-nil (x ∷ xs) h = absurd (ground (arith, h))

trim_end-drop_blanks : (xs : Bytes) → trim_end (drop_blanks xs) ≡ drop_blanks (trim_end xs)
unfolding trim_end drop_blanks
trim_end-drop_blanks [] = refl
trim_end-drop_blanks (x ∷ xs) = elim (Bool-cases (is_blank x)) [
  | inr e ↦ rw (e, e) refl
  | inl e ↦ elim (Bool-cases (is_empty (trim_end xs))) [
    | inl z ↦ rw (e, z) (trim_end-drop_blanks xs ∙ ap drop_blanks (is_empty-nil (trim_end xs) z))
    | inr z ↦ rw (e, z, e) (trim_end-drop_blanks xs)
  ]
]

trim_end-trim_end : (xs : Bytes) → trim_end (trim_end xs) ≡ trim_end xs
unfolding trim_end
trim_end-trim_end [] = refl
trim_end-trim_end (x ∷ xs) = elim (Bool-cases (is_blank x && is_empty (trim_end xs))) [
  | inl e ↦ rw e refl
  | inr e ↦ rw (e, trim_end-trim_end xs, e) refl
]

drop_blanks-drop_blanks : (xs : Bytes) → drop_blanks (drop_blanks xs) ≡ drop_blanks xs
unfolding drop_blanks
drop_blanks-drop_blanks [] = refl
drop_blanks-drop_blanks (x ∷ xs) = elim (Bool-cases (is_blank x)) [
  | inl e ↦ rw e (drop_blanks-drop_blanks xs)
  | inr e ↦ rw (e, e) refl
]

-- A cleaned line has no newline and no comment character, and cleaning it again changes nothing.
pub clean_line-clean_line :
    (line : Bytes)
    → Free b'\n' (clean_line line)
      × Free b'#' (clean_line line)
      × (clean_line (clean_line line) ≡ clean_line line)
unfolding clean_line
clean_line-clean_line line =
    let cut = before b'#' (before b'\n' line) in
    let clean = drop_blanks (trim_end cut) in
    let newline = drop_blanks-keeps b'\n' (trim_end cut) (
      trim_end-keeps b'\n' cut
        (before-keeps b'\n' b'#' (before b'\n' line) (before-Free b'\n' line))) in
    let comment =
      drop_blanks-keeps b'#' (trim_end cut)
        (trim_end-keeps b'#' cut (before-Free b'#' (before b'\n' line))) in
    (
      newline,
      comment,
      rw
          (
            before_same b'\n' clean newline,
            before_same b'#' clean comment,
            trim_end-drop_blanks (trim_end cut),
            trim_end-trim_end cut,
          )
          (drop_blanks-drop_blanks (trim_end cut)),
    )
