-- ===== src/FileConfig/Tests.antt =====
-- util_lib/file_config on concrete lines.
use core_connect_binary.Base.{◌≡◌, some, Bytes, [], ◌∷◌, ◌-◌, take, drop, refl, length, ltb}
use core_connect_binary.FileConfig.Defs.{
  FileConfig, clean_line, read_file, file_config, less, find_key, process_section,
}
use core_connect_binary.FileConfig.Order.{Entries, Sorted, matching}
use core_connect_binary.FileConfig.Keys.{
  Gained, section_entries, find_key-matching, process_section-Gained,
}
use core_connect_binary.FileConfig.Clean.{Free, clean_line-clean_line}
use core_connect_binary.FileConfig.Reading.{Loaded, read_file-Loaded}

-- " a # b"
abbrev commented : Bytes
commented = b' ' ∷ b'a' ∷ b' ' ∷ b'#' ∷ b' ' ∷ b'b' ∷ []

clean_line-clean_line_example :
    Free b'\n' (clean_line commented)
    × Free b'#' (clean_line commented)
    × (clean_line (clean_line commented) ≡ clean_line commented)
clean_line-clean_line_example = clean_line-clean_line commented

-- "[S]", "a=b" and "[END]"
abbrev small_file : Bytes
small_file =
    b'[' ∷ b'S' ∷ b']' ∷ b'\n' ∷ b'a' ∷ b'=' ∷ b'b' ∷ b'\n' ∷ b'[' ∷ b'E' ∷ b'N' ∷ b'D' ∷ b']'
    ∷ b'\n' ∷ []

read_file-Loaded_example :
    Loaded (read_file (λ name. some small_file) (b'f' ∷ []) (b'S' ∷ []) file_config)
read_file-Loaded_example =
    read_file-Loaded (λ name. some small_file) (b'f' ∷ []) (b'S' ∷ []) file_config

-- Two values of one key, and one of another.
abbrev small_data : Entries
small_data = (b'a' ∷ [], b'1' ∷ []) ∷ (b'a' ∷ [], b'0' ∷ []) ∷ (b'b' ∷ [], []) ∷ []

small_data-Sorted : Sorted small_data
unfolding less
small_data-Sorted = ((refl, (refl, tt)), ((refl, tt), (tt, tt)))

abbrev loaded : FileConfig
loaded = record file_config { data_list = small_data }

find_key-matching_example :
    let (found, d) = find_key (b'a' ∷ []) loaded in
    (d.data_list ≡ small_data)
    × (take (d.end_place - d.place) (drop d.place d.data_list) ≡ matching (b'a' ∷ []) small_data)
    × (found ≡ ltb 0 (length (matching (b'a' ∷ []) small_data)))
find_key-matching_example = find_key-matching (b'a' ∷ []) loaded small_data-Sorted

-- "a=b" and "[END]", on data that is there.
abbrev section_rest : Bytes
section_rest = b'a' ∷ b'=' ∷ b'b' ∷ b'\n' ∷ b'[' ∷ b'E' ∷ b'N' ∷ b'D' ∷ b']' ∷ b'\n' ∷ []

process_section-Gained_example :
    Gained small_data (section_entries 3 section_rest) (process_section 3 section_rest small_data)
process_section-Gained_example = process_section-Gained 3 section_rest small_data small_data-Sorted
