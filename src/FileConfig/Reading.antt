-- ===== src/FileConfig/Reading.antt =====
-- util_lib/file_config/src/file_config.cpp: the reading of a file ends.
use core_connect_binary.Base.{
  c_string, ℕ, zero, suc, ◌+◌, ◌≤◌, ◌<◌, ◌≡◌, ◌≢◌, refl, inl, inr, Option, none, some, List, [],
  ◌∷◌, ◌++◌, ◌==◌, ==_false, Bool-cases, if◌then◌else◌, arith, length, length-drop, Bytes, ltb,
}
use core_connect_binary.FileConfig.Defs.{
  before, LineRead, line_read, not_read, read_line, find_section, process_section, process_line,
  stop, wrong, next, read_section, read_found, starts_with, no_config_error, FileConfig, read_file,
  read_reset, read_opened, keep_data,
}

length-before : (c : ℕ) (xs : Bytes) → length (before c xs) ≤ length xs
unfolding before
length-before c [] = omega arith
length-before c (x ∷ xs) =
    let rest = length-before c xs in
    elim (Bool-cases (x == c)) [ inl e ↦ rw e (omega arith) | inr e ↦ rw e (omega (arith, rest)) ]

-- What is left after a line is shorter.
abbrev pub Shorter : Bytes → LineRead → Type 0
Shorter file (line_read line rest) = length rest < length file
Shorter file (not_read error) = Unit

read_line-Shorter : (file : Bytes) → Shorter file (read_line file)
unfolding read_line
read_line-Shorter file =
    let line = before b'\n' file in
    let within = length-before b'\n' file in
    elim (Bool-cases (ltb 1023 (length line))) [
      | inl long ↦ rw long tt
      | inr short ↦ rw short (elim (Bool-cases (length line == length file)) [
        | inl end ↦ rw end tt
        | inr inside ↦
            let left = length-drop (length line + 1) file in
            let less : length line ≢ length file = λ z. absurd (ground (arith, inside, z)) in
            rw inside (omega (arith, left, within, less))
      ])
    ]

find_section-ends :
    (fuel : ℕ) (section file : Bytes)
    → length file < fuel
    → (found : ℕ × Bytes) × (find_section fuel section file ≡ some found)
      × (length found.1 ≤ length file)
unfolding find_section
find_section-ends zero section file h = absurd (omega (arith, h))
find_section-ends (suc fuel) section file h =
    elim (read_line file)
        as (λ r.
          Shorter file r
          → (found : ℕ × Bytes) × ((elim r as (λ r. Option (ℕ × Bytes)) [
            | not_read error ↦ some (error, file)
            | line_read line rest ↦
                if starts_with (c_string (b'[' ∷ section ++ b']' ∷ [])) line
                then some (no_config_error, rest)
                else find_section fuel section rest
          ])
              ≡ some found)
            × (length found.1 ≤ length file)) [
              | not_read error ↦ λ s. ((error, file), refl, omega arith)
              | line_read line rest ↦ λ s.
                  elim (Bool-cases (starts_with (c_string (b'[' ∷ section ++ b']' ∷ [])) line)) [
                    | inl e ↦ rw e ((no_config_error, rest), refl, omega (arith, s))
                    | inr e ↦
                        let (found, ends, shorter) =
                          find_section-ends fuel section rest (omega (arith, s, h)) in
                        rw e (found, ends, omega (arith, shorter, s))
                  ]
            ]
      (read_line-Shorter file)

process_section-ends :
    (fuel : ℕ) (file : Bytes) (es : List (Bytes × Bytes))
    → length file < fuel
    → (out : ℕ × List (Bytes × Bytes)) × (process_section fuel file es ≡ some out)
unfolding process_section
process_section-ends zero file es h = absurd (omega (arith, h))
process_section-ends (suc fuel) file es h =
    elim (read_line file)
        as (λ r.
          Shorter file r
          → (out : ℕ × List (Bytes × Bytes)) × ((elim r
                as (λ r. Option (ℕ × List (Bytes × Bytes))) [
                  | not_read error ↦ some (error, es)
                  | line_read line rest ↦
                      elim (process_line line es) as (λ r. Option (ℕ × List (Bytes × Bytes))) [
                        | stop ↦ some (no_config_error, es)
                        | wrong error ↦ some (error, es)
                        | next es' ↦ process_section fuel rest es'
                      ]
                ])
              ≡ some out)) [
                | not_read error ↦ λ s. ((error, es), refl)
                | line_read line rest ↦ λ s.
                    elim (process_line line es)
                      as (λ l.
                        (out : ℕ × List (Bytes × Bytes)) × ((elim l
                            as (λ r. Option (ℕ × List (Bytes × Bytes))) [
                              | stop ↦ some (no_config_error, es)
                              | wrong error ↦ some (error, es)
                              | next es' ↦ process_section fuel rest es'
                            ])
                          ≡ some out)) [
                            | stop ↦ ((no_config_error, es), refl)
                            | wrong error ↦ ((error, es), refl)
                            | next es' ↦ process_section-ends fuel rest es' (omega (arith, s, h))
                          ]
              ]
      (read_line-Shorter file)

read_section-ends :
    (section file : Bytes)
    → (out : ℕ × List (Bytes × Bytes)) × (read_section section file ≡ some out)
unfolding read_section read_found
read_section-ends section file =
    let (found, ends, shorter) = find_section-ends (suc (length file)) section file (omega arith) in
    rw ends (elim (Bool-cases (found.0 == no_config_error)) [
      | inl ok ↦
          rw ok (process_section-ends (suc (length file)) found.1 [] (omega (arith, shorter)))
      | inr err ↦ rw err ((found.0, []), refl)
    ])

-- A call returned; after an error no data is kept, and the reading of the data starts at its
-- beginning and goes to its end.
abbrev pub Loaded : Option (ℕ × FileConfig) → Type 0
Loaded o =
    (ret : ℕ) × (c : FileConfig) × (o ≡ some (ret, c))
    × (ret ≢ no_config_error → c.data_list ≡ [])
    × (c.place ≡ 0)
    × (c.end_place ≡ length c.data_list)

read_opened-Loaded :
    (section : Bytes) (c : FileConfig) (file : Option Bytes) → Loaded (read_opened section c file)
unfolding read_opened keep_data read_reset
read_opened-Loaded section c none = (_, _, refl, (λ _. refl), refl, refl)
read_opened-Loaded section c (some file) =
    let (out, ends) = read_section-ends section file in
    rw ends (out.0, _, refl, (λ err. rw (==_false err) refl), refl, refl)

-- Reading a file returns, whatever the object, the file system and the file hold; after an error no
-- data is kept, and the reading of the data starts at its beginning and goes to its end.
pub read_file-Loaded :
    (open_file : Bytes → Option Bytes) (config_file section_name : Bytes) (c : FileConfig)
    → Loaded (read_file open_file config_file section_name c)
unfolding read_file
read_file-Loaded open_file config_file section_name c =
    read_opened-Loaded section_name _ (open_file config_file)
