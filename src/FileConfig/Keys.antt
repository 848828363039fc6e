-- ===== src/FileConfig/Keys.antt =====
-- util_lib/file_config/src/file_config.cpp: what a lookup finds of the lines of a section.
use core_connect_binary.Base.{
  ℕ, zero, suc, ◌+◌, ◌-◌, ◌≡◌, refl, sym, ap, ◌∙◌, inl, inr, Option, none, some, [], ◌∷◌, ◌++◌,
  ◌==◌, Bool-cases, if◌then◌else◌, arith, take, drop, length, ltb, Bytes, append-nil, append_assoc,
}
use core_connect_binary.FileConfig.Defs.{
  FileConfig, less, insert, lower_bound, upper_bound, find_key, before, clean_line, is_empty,
  is_section_end, line_read, not_read, read_line, LineStep, stop, wrong, next, process_line,
  process_section, no_config_error, e_config_syntax, e_config_null_key,
}
use core_connect_binary.FileConfig.Order.{
  Entries, Sorted, matching, AllFrom-before, less_trans, less_asym, lower_bound-zero, matching-none,
  bounds-matching, insert-Sorted,
}

-- From the first place to the second there are as many entries as have the key.
lower-upper_bound :
    (key : Bytes) (es : Entries)
    → Sorted es
    → lower_bound key es + length (matching key es) ≡ upper_bound key es
unfolding lower_bound upper_bound
lower-upper_bound key [] s = refl
lower-upper_bound key (e ∷ es) s = elim (Bool-cases (less e.0 key)) [
  | inl first ↦
      let rest = lower-upper_bound key es s.1 in
      rw (first, less_asym e.0 key first) (omega (arith, rest))
  | inr from ↦ elim (Bool-cases (less key e.0)) [
    | inl past ↦ rw (from, past, matching-none key e.0 es s.0 past) refl
    | inr here ↦
        let zero_lower = lower_bound-zero key es (AllFrom-before key e.0 es from s.0) in
        let rest = lower-upper_bound key es s.1 in rw (from, here) (omega (arith, rest, zero_lower))
  ]
]

-- On sorted data: find_key leaves the data alone; the entries from the place it sets to the end it sets
-- are the entries whose key is neither before nor behind the key, all of them and in their order; and it
-- answers true exactly if there is one.
pub find_key-matching :
    (key : Bytes) (c : FileConfig)
    → Sorted c.data_list
    → let (found, d) = find_key key c in
      (d.data_list ≡ c.data_list)
      × (take (d.end_place - d.place) (drop d.place d.data_list) ≡ matching key c.data_list)
      × (found ≡ ltb 0 (length (matching key c.data_list)))
unfolding find_key
find_key-matching key c s =
    let many = lower-upper_bound key c.data_list s in
    (refl, bounds-matching key c.data_list s, ground (arith, many))

-- Where a new entry is found: behind the others of its key.
matching-insert :
    (k key value : Bytes) (es : Entries)
    → Sorted es
    → matching k (insert key value es) ≡ matching k es ++ matching k ((key, value) ∷ [])
unfolding insert
matching-insert k key value [] s = refl
matching-insert k key value (e ∷ es) s = elim (Bool-cases (less key e.0)) [
  | inl b ↦ elim (Bool-cases (less key k)) [
    | inl z ↦ rw (b, z) (sym (append-nil (matching k (e ∷ es))))
    | inr from ↦ elim (Bool-cases (less k key)) [
      | inl z ↦ rw (b, from, z) (sym (append-nil (matching k (e ∷ es))))
      | inr here ↦ elim (Bool-cases (less k e.0)) [
        | inl past ↦
            rw (b, from, here, less_asym k e.0 past, past, matching-none k e.0 es s.0 past) refl
        | inr z ↦ let no = less_trans e.0 k key z from in absurd (ground (arith, no, b))
      ]
    ]
  ]
  | inr b ↦
      let rest = matching-insert k key value es s.1 in
      rw b (elim (Bool-cases (less e.0 k)) [
        | inl z ↦ rw z rest
        | inr z ↦ elim (Bool-cases (less k e.0)) [
          | inl y ↦ rw (z, y) rest
          | inr y ↦ rw (z, y) (ap (λ l. e ∷ l) rest)
        ]
      ])
]

-- What a line of a section says, apart from any data.
abbrev pub line_entries : Bytes → LineStep
line_entries line =
    if is_empty line
    then next []
    else if is_section_end line
    then stop
    else if length (before b'=' line) == length line
    then wrong e_config_syntax
    else if is_empty (clean_line (before b'=' line))
    then wrong e_config_null_key
    else next (
        (clean_line (before b'=' line), clean_line (drop (length (before b'=' line) + 1) line))
        ∷ [])

abbrev with_front : Entries → Option (ℕ × Entries) → Option (ℕ × Entries)
with_front new none = none
with_front new (some (ret, es)) = some (ret, new ++ es)

-- The entries of the lines up to the end of the section, in the order of the file, and the code.
abbrev pub section_entries : ℕ → Bytes → Option (ℕ × Entries)
section_entries zero file = none
section_entries (suc fuel) file = elim (read_line file) [
  | not_read error ↦ some (error, [])
  | line_read line rest ↦ elim (line_entries line) [
    | stop ↦ some (no_config_error, [])
    | wrong error ↦ some (error, [])
    | next new ↦ with_front new (section_entries fuel rest)
  ]
]

-- The data after the entries, from the data before.
abbrev pub Gained : Entries → Option (ℕ × Entries) → Option (ℕ × Entries) → Type 0
Gained es none none = Unit {0}
Gained es none (some r) = ⊥
Gained es (some r) none = ⊥
Gained es (some (ret, added)) (some (ret2, after)) =
    (ret2 ≡ ret)
    × Sorted after
    × ((k : Bytes) → matching k after ≡ matching k es ++ matching k added)

-- The step that the data takes.
abbrev LineGained : Entries → LineStep → LineStep → Type 0
LineGained es stop stop = Unit {0}
LineGained es (wrong a) (wrong b) = b ≡ a
LineGained es (next new) (next after) =
    Sorted after × ((k : Bytes) → matching k after ≡ matching k es ++ matching k new)
LineGained es _ _ = ⊥

process_line-LineGained :
    (line : Bytes) (es : Entries)
    → Sorted es
    → LineGained es (line_entries line) (process_line line es)
unfolding process_line
process_line-LineGained line es s = elim (Bool-cases (is_empty line)) [
  | inl empty ↦ rw empty (s, λ k. sym (append-nil (matching k es)))
  | inr full ↦ elim (Bool-cases (is_section_end line)) [
    | inl end ↦ rw (full, end) tt
    | inr more ↦ elim (Bool-cases (length (before b'=' line) == length line)) [
      | inl bad ↦ rw (full, more, bad) refl
      | inr good ↦ elim (Bool-cases (is_empty (clean_line (before b'=' line)))) [
        | inl nameless ↦ rw (full, more, good, nameless) refl
        | inr named ↦
            let key = clean_line (before b'=' line) in
            let value = clean_line (drop (length (before b'=' line) + 1) line) in
            rw (full, more, good, named)
              ((insert-Sorted key value es s).0, λ k. matching-insert k key value es s)
      ]
    ]
  ]
]

with_front-Gained :
    (es mid new : Entries) (o p : Option (ℕ × Entries))
    → ((k : Bytes) → matching k mid ≡ matching k es ++ matching k new)
    → ((k : Bytes) (a b : Entries) → matching k (a ++ b) ≡ matching k a ++ matching k b)
    → Gained mid o p
    → Gained es (with_front new o) p
with_front-Gained es mid new none none first split g = tt
with_front-Gained es mid new none (some p) first split g = g
with_front-Gained es mid new (some o) none first split g = g
with_front-Gained es mid new (some (ret, added)) (some (ret2, after)) first split g = (
  g.0,
  g.1,
  λ k.
      g.2 k
      ∙ ap (λ m. m ++ matching k added) (first k)
      ∙ append_assoc (matching k es) (matching k new) (matching k added)
      ∙ ap (λ m. matching k es ++ m) (sym (split k new added)),
)

matching-append : (k : Bytes) (a b : Entries) → matching k (a ++ b) ≡ matching k a ++ matching k b
matching-append k [] b = refl
matching-append k (e ∷ a) b =
    let rest = matching-append k a b in
    elim (Bool-cases (less e.0 k)) [
      | inl z ↦ rw z rest
      | inr z ↦ elim (Bool-cases (less k e.0)) [
        | inl y ↦ rw (z, y) rest
        | inr y ↦ rw (z, y) (ap (λ l. e ∷ l) rest)
      ]
    ]

-- The rest of a section behind a line.
process_rest :
    (fuel : ℕ) (rest : Bytes) (es : Entries)
    → Sorted es
    → (said did : LineStep)
    → ((mid : Entries)
        → Sorted mid
        → Gained mid (section_entries fuel rest) (process_section fuel rest mid))
    → LineGained es said did
    → Gained es
        (elim said as (λ t. Option (ℕ × Entries)) [
          | stop ↦ some (no_config_error, [])
          | wrong error ↦ some (error, [])
          | next new ↦ with_front new (section_entries fuel rest)
        ])
        (elim did as (λ t. Option (ℕ × Entries)) [
          | stop ↦ some (no_config_error, es)
          | wrong error ↦ some (error, es)
          | next mid ↦ process_section fuel rest mid
        ])
process_rest fuel rest es s stop stop goes g = (refl, s, λ k. sym (append-nil (matching k es)))
process_rest fuel rest es s (wrong a) (wrong b) goes g =
    (g, s, λ k. sym (append-nil (matching k es)))
process_rest fuel rest es s (next new) (next mid) goes g =
    with_front-Gained es mid new (section_entries fuel rest) (process_section fuel rest mid) g.1
      matching-append (goes mid g.0)
process_rest fuel rest es s stop (wrong b) goes g = absurd g
process_rest fuel rest es s stop (next b) goes g = absurd g
process_rest fuel rest es s (wrong a) stop goes g = absurd g
process_rest fuel rest es s (wrong a) (next b) goes g = absurd g
process_rest fuel rest es s (next a) stop goes g = absurd g
process_rest fuel rest es s (next a) (wrong b) goes g = absurd g

-- On sorted data, whatever the file: process_section ends with the code that the lines up to the end of
-- the section, an error or the end of the file call for, or both run out of rounds; the data is sorted
-- again, and for every key its entries are those from before and then those of the lines, in the order
-- of the file.
pub process_section-Gained :
    (fuel : ℕ) (file : Bytes) (es : Entries)
    → Sorted es
    → Gained es (section_entries fuel file) (process_section fuel file es)
unfolding process_section
process_section-Gained zero file es s = tt
process_section-Gained (suc fuel) file es s =
    elim (read_line file)
      as (λ r.
        Gained es
          (elim r as (λ r. Option (ℕ × Entries)) [
            | not_read error ↦ some (error, [])
            | line_read line rest ↦ elim (line_entries line) as (λ t. Option (ℕ × Entries)) [
              | stop ↦ some (no_config_error, [])
              | wrong error ↦ some (error, [])
              | next new ↦ with_front new (section_entries fuel rest)
            ]
          ])
          (elim r as (λ r. Option (ℕ × Entries)) [
            | not_read error ↦ some (error, es)
            | line_read line rest ↦ elim (process_line line es) as (λ t. Option (ℕ × Entries)) [
              | stop ↦ some (no_config_error, es)
              | wrong error ↦ some (error, es)
              | next es' ↦ process_section fuel rest es'
            ]
          ])) [
            | not_read error ↦ (refl, s, λ k. sym (append-nil (matching k es)))
            | line_read line rest ↦
                process_rest fuel rest es s (line_entries line) (process_line line es)
                  (λ mid sorted. process_section-Gained fuel rest mid sorted)
                  (process_line-LineGained line es s)
          ]
