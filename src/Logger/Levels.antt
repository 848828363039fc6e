-- ===== src/Logger/Levels.antt =====
-- util_lib/logger: the levels and their texts.
use core_connect_binary.Base.{
  ℕ, ◌≡◌, refl, Bool, true, false, Option, none, some, List, [], ◌∷◌, ◌==◌, leb, if◌then◌else◌,
  Bytes, c_string,
}

pub data Level : Type 0 where
  debug_9 debug_8 debug_7 debug_6 debug_5 debug_4 debug_3 debug_2 debug_1 debug_0 info warning error
        fatal always :
      Level

-- The value of the enumerator.
unfoldable pub rank : Level → ℕ
rank debug_9 = 0
rank debug_8 = 1
rank debug_7 = 2
rank debug_6 = 3
rank debug_5 = 4
rank debug_4 = 5
rank debug_3 = 6
rank debug_2 = 7
rank debug_1 = 8
rank debug_0 = 9
rank info = 10
rank warning = 11
rank error = 12
rank fatal = 13
rank always = 14

abbrev debug_text : ℕ → Bytes
debug_text digit = b'D' ∷ b'e' ∷ b'b' ∷ b'u' ∷ b'g' ∷ b'_' ∷ digit ∷ b' ' ∷ []

-- `str_log_levels`
unfoldable pub get_str_level : Level → Bytes
get_str_level debug_9 = debug_text b'9'
get_str_level debug_8 = debug_text b'8'
get_str_level debug_7 = debug_text b'7'
get_str_level debug_6 = debug_text b'6'
get_str_level debug_5 = debug_text b'5'
get_str_level debug_4 = debug_text b'4'
get_str_level debug_3 = debug_text b'3'
get_str_level debug_2 = debug_text b'2'
get_str_level debug_1 = debug_text b'1'
get_str_level debug_0 = debug_text b'0'
get_str_level info = b'I' ∷ b'n' ∷ b'f' ∷ b'o' ∷ b' ' ∷ b' ' ∷ b' ' ∷ b' ' ∷ []
get_str_level warning = b'W' ∷ b'a' ∷ b'r' ∷ b'n' ∷ b'i' ∷ b'n' ∷ b'g' ∷ b' ' ∷ []
get_str_level error = b'E' ∷ b'r' ∷ b'r' ∷ b'o' ∷ b'r' ∷ b' ' ∷ b' ' ∷ b' ' ∷ []
get_str_level fatal = b'F' ∷ b'a' ∷ b't' ∷ b'a' ∷ b'l' ∷ b' ' ∷ b' ' ∷ b' ' ∷ []
get_str_level always = b'A' ∷ b'l' ∷ b'w' ∷ b'a' ∷ b'y' ∷ b's' ∷ b' ' ∷ b' ' ∷ []

-- `enum_log_levels`
unfoldable pub enum_log_levels : List Level
enum_log_levels =
    debug_9 ∷ debug_8 ∷ debug_7 ∷ debug_6 ∷ debug_5 ∷ debug_4 ∷ debug_3 ∷ debug_2 ∷ debug_1
    ∷ debug_0 ∷ info ∷ warning ∷ error ∷ fatal ∷ always ∷ []

-- `!strncmp(text, str, strlen(str))` for a text without a NUL.
unfoldable pub strncmp_zero : Bytes → Bytes → Bool
strncmp_zero text [] = true
strncmp_zero [] (c ∷ str) = false
strncmp_zero (d ∷ text) (c ∷ str) = if d == c then strncmp_zero text str else false

-- The loop over the levels.
unfoldable pub first_level : List Level → Bytes → Option Level
first_level [] str = none
first_level (l ∷ ls) str =
    let rest = first_level ls str in if strncmp_zero (get_str_level l) str then some l else rest

unfoldable pub get_level_from_str : Bytes → Option Level
get_level_from_str str = first_level enum_log_levels (c_string str)

unfoldable pub logging_required : Level → Level → Bool
logging_required m_log_level level = leb (rank m_log_level) (rank level)

-- The text of every level, with its NUL, is read as that level.
pub get_level_from_str-get_str_level : (l : Level) → get_level_from_str (get_str_level l) ≡ some l
unfolding get_level_from_str get_str_level first_level enum_log_levels strncmp_zero c_string
get_level_from_str-get_str_level debug_9 = refl
get_level_from_str-get_str_level debug_8 = refl
get_level_from_str-get_str_level debug_7 = refl
get_level_from_str-get_str_level debug_6 = refl
get_level_from_str-get_str_level debug_5 = refl
get_level_from_str-get_str_level debug_4 = refl
get_level_from_str-get_str_level debug_3 = refl
get_level_from_str-get_str_level debug_2 = refl
get_level_from_str-get_str_level debug_1 = refl
get_level_from_str-get_str_level debug_0 = refl
get_level_from_str-get_str_level info = refl
get_level_from_str-get_str_level warning = refl
get_level_from_str-get_str_level error = refl
get_level_from_str-get_str_level fatal = refl
get_level_from_str-get_str_level always = refl
