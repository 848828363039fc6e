-- ===== src/FileConfig/Defs.antt =====
-- util_lib/file_config/src/file_config.cpp: the class `file_config`.
-- An open file is the list of the bytes that are still to be read, and the file system a function from
-- names. `m_data`, a multimap, is a list of pairs in the order of the keys, and its iterators are
-- places in it.
use core_connect_binary.Base.{
  ℕ, zero, suc, ◌+◌, Bool, true, false, ◌&&◌, ◌||◌, not, Option, none, some, List, [], ◌∷◌, ◌++◌,
  ltb, ◌==◌, if◌then◌else◌, length, drop, get_elem?, Bytes, c_string,
}

-- The codes of file_config.hpp.
abbrev pub no_config_error : ℕ
no_config_error = 0

abbrev pub e_config_open : ℕ
e_config_open = 2000

abbrev pub e_config_syntax : ℕ
e_config_syntax = 2001

abbrev pub e_config_null_key : ℕ
e_config_null_key = 2002

abbrev pub e_config_eof : ℕ
e_config_eof = 2003

abbrev pub e_config_read : ℕ
e_config_read = 2004

pub record FileConfig : Type 0 where
  pub file_name : Bytes
  pub section_name : Bytes
  pub data_list : List (Bytes × Bytes)
  pub place : ℕ
  pub end_place : ℕ

-- What stands before the first `c`, or all: `find` and `resize`.
unfoldable pub before : ℕ → Bytes → Bytes
before c [] = []
before c (x ∷ xs) = if x == c then [] else x ∷ before c xs

abbrev pub is_blank : ℕ → Bool
is_blank c = c == b'\t' || c == b' '

abbrev pub is_empty : Bytes → Bool
is_empty [] = true
is_empty (x ∷ xs) = false

-- `find_last_not_of("\t ")` and `resize`.
unfoldable pub trim_end : Bytes → Bytes
trim_end [] = []
trim_end (x ∷ xs) = let rest = trim_end xs in if is_blank x && is_empty rest then [] else x ∷ rest

-- `find_first_not_of("\t ")` and `substr`, on a line that is blank only if it is empty.
unfoldable pub drop_blanks : Bytes → Bytes
drop_blanks [] = []
drop_blanks (x ∷ xs) = if is_blank x then drop_blanks xs else x ∷ xs

unfoldable pub clean_line : Bytes → Bytes
clean_line line = drop_blanks (trim_end (before b'#' (before b'\n' line)))

-- A line and what follows it, or an error code.
pub data LineRead : Type 0 where
  line_read : Bytes → Bytes → LineRead
  not_read : ℕ → LineRead

-- `getline` into a buffer of 1024 bytes fails on a line of more than 1023; a line that the end of the
-- file cuts off counts as the end of the file.
unfoldable pub read_line : Bytes → LineRead
read_line file =
    let line = before b'\n' file in
    if ltb 1023 (length line)
    then not_read e_config_read
    else if length line == length file
    then not_read e_config_eof
    else line_read (clean_line (c_string line)) (drop (length line + 1) file)

-- `line.find(text) == 0`
unfoldable pub starts_with : Bytes → Bytes → Bool
starts_with [] line = true
starts_with (c ∷ text) [] = false
starts_with (c ∷ text) (x ∷ line) = c == x && starts_with text line

-- The order of `std::string`.
unfoldable pub less : Bytes → Bytes → Bool
less xs [] = false
less [] (y ∷ ys) = true
less (x ∷ xs) (y ∷ ys) = if x == y then less xs ys else ltb x y

-- `multimap::insert`, `lower_bound` and `upper_bound`.
unfoldable pub insert : Bytes → Bytes → List (Bytes × Bytes) → List (Bytes × Bytes)
insert key value [] = (key, value) ∷ []
insert key value (e ∷ es) =
    let rest = insert key value es in if less key e.0 then (key, value) ∷ e ∷ es else e ∷ rest

unfoldable pub lower_bound : Bytes → List (Bytes × Bytes) → ℕ
lower_bound key [] = 0
lower_bound key (e ∷ es) = let rest = lower_bound key es in if less e.0 key then suc rest else 0

unfoldable pub upper_bound : Bytes → List (Bytes × Bytes) → ℕ
upper_bound key [] = 0
upper_bound key (e ∷ es) = let rest = upper_bound key es in if less key e.0 then 0 else suc rest

-- `[END]` and `[end]`
abbrev pub is_section_end : Bytes → Bool
is_section_end line =
    starts_with (b'[' ∷ b'E' ∷ b'N' ∷ b'D' ∷ b']' ∷ []) line
    || starts_with (b'[' ∷ b'e' ∷ b'n' ∷ b'd' ∷ b']' ∷ []) line

-- The loops read a line in every round, so that a round for every byte and one more are enough;
-- `none` is what is left without fuel.
unfoldable pub find_section : ℕ → Bytes → Bytes → Option (ℕ × Bytes)
find_section zero section file = none
find_section (suc fuel) section file = elim (read_line file) [
  | not_read error ↦ some (error, file)
  | line_read line rest ↦
      let later = find_section fuel section rest in
      if starts_with (c_string (b'[' ∷ section ++ b']' ∷ [])) line
      then some (no_config_error, rest)
      else later
]

-- What a line does in `process_section`: it ends the section, is an error, or changes the data.
pub data LineStep : Type 0 where
  stop : LineStep
  wrong : ℕ → LineStep
  next : List (Bytes × Bytes) → LineStep

unfoldable pub process_line : Bytes → List (Bytes × Bytes) → LineStep
process_line line es =
    if is_empty line
    then next es
    else if is_section_end line
    then stop
    else let name = before b'=' line in
      if length name == length line
      then wrong e_config_syntax
      else let key = clean_line name in
        let value = clean_line (drop (length name + 1) line) in
        if is_empty key then wrong e_config_null_key else next (insert key value es)

unfoldable pub process_section :
    ℕ → Bytes → List (Bytes × Bytes) → Option (ℕ × List (Bytes × Bytes))
process_section zero file es = none
process_section (suc fuel) file es = elim (read_line file) [
  | not_read error ↦ some (error, es)
  | line_read line rest ↦ elim (process_line line es) [
    | stop ↦ some (no_config_error, es)
    | wrong error ↦ some (error, es)
    | next es' ↦ process_section fuel rest es'
  ]
]

unfoldable pub read_reset : FileConfig → FileConfig
read_reset c = record c { place = 0; end_place = length c.data_list }

-- The constructor.
unfoldable pub file_config : FileConfig
file_config = record { file_name = []; section_name = []; data_list = []; place = 0; end_place = 0 }

-- The two steps of `read_file` on an open file.
unfoldable pub read_found : ℕ → Option (ℕ × Bytes) → Option (ℕ × List (Bytes × Bytes))
read_found fuel none = none
read_found fuel (some (ret, rest)) =
    if ret == no_config_error then process_section fuel rest [] else some (ret, [])

unfoldable pub read_section : Bytes → Bytes → Option (ℕ × List (Bytes × Bytes))
read_section section file =
    read_found (suc (length file)) (find_section (suc (length file)) section file)

-- The end of `read_file`: an error leaves no data.
unfoldable pub keep_data : FileConfig → Option (ℕ × List (Bytes × Bytes)) → Option (ℕ × FileConfig)
keep_data c none = none
keep_data c (some (ret, es)) =
    some (ret, read_reset (record c { data_list = if ret == no_config_error then es else [] }))

-- `read_file` once the file is opened, or is not.
unfoldable pub read_opened : Bytes → FileConfig → Option Bytes → Option (ℕ × FileConfig)
read_opened section c none = some (e_config_open, read_reset (record c { data_list = [] }))
read_opened section c (some file) = keep_data c (read_section section file)

unfoldable pub read_file :
    (Bytes → Option Bytes) → Bytes → Bytes → FileConfig → Option (ℕ × FileConfig)
read_file open_file config_file section_name c =
    read_opened section_name
      (record c { file_name = config_file; section_name = section_name; data_list = [] })
      (open_file config_file)

unfoldable pub read_key_value : FileConfig → Option (Bytes × Bytes) × FileConfig
read_key_value c =
    if c.place == c.end_place
    then (none, c)
    else (get_elem? c.data_list c.place, record c { place = c.place + 1 })

unfoldable pub find_key : Bytes → FileConfig → Bool × FileConfig
find_key key c =
    let first = lower_bound key c.data_list in
    let last = upper_bound key c.data_list in
    (not (first == last), record c { place = first; end_place = last })
