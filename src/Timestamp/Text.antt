-- ===== src/Timestamp/Text.antt =====
-- util_lib/time/h/timestamp.hpp: times of the day as text.
-- A `char` is the number of its byte, and a store into a `char` keeps the low 8 bits. Times are not
-- negative here, so that C's division is that of the numbers; text that is read may hold any byte,
-- and the sums over `src[i] - '0'` are integers. Those sums fit in the `int` or `long` of the source
-- for every text of digits.
use core_connect_binary.Base.{
  ℕ, ◌+◌, ◌-◌, ◌*◌, ◌/◌, ◌%◌, Bool, false, ◌&&◌, Option, none, some, [], ◌∷◌, ltb, leb, ◌==◌,
  if◌then◌else◌, length, get_or, Bytes, c_string,
}
use core_connect_binary.Base.Int.{ℤ, pos, negsuc, ◌+ℤ◌, ◌-ℤ◌, ◌*ℤ◌}

-- `d + '0'` stored in a `char`
abbrev pub digit : ℕ → ℕ
digit d = (d + b'0') % 256

-- The texts include their NUL.
unfoldable pub secs_to_cstring : ℕ → Bytes
secs_to_cstring ts =
    let hrs = ts / (60 * 60) in
    let mins = (ts - hrs * 60 * 60) / 60 in
    let secs = ts - hrs * 60 * 60 - mins * 60 in
    digit (hrs / 10)
    ∷ digit (hrs % 10)
    ∷ b':'
    ∷ digit (mins / 10)
    ∷ digit (mins % 10)
    ∷ b':'
    ∷ digit (secs / 10)
    ∷ digit (secs % 10)
    ∷ 0
    ∷ []

unfoldable pub msecs_to_cstring : ℕ → Bytes
msecs_to_cstring ts =
    let hrs = ts / (1000 * 60 * 60) in
    let mins = (ts - hrs * 1000 * 60 * 60) / (1000 * 60) in
    let secs = (ts - hrs * 1000 * 60 * 60 - mins * 1000 * 60) / 1000 in
    let millis = ts - hrs * 1000 * 60 * 60 - mins * 1000 * 60 - secs * 1000 in
    digit (hrs / 10)
    ∷ digit (hrs % 10)
    ∷ b':'
    ∷ digit (mins / 10)
    ∷ digit (mins % 10)
    ∷ b':'
    ∷ digit (secs / 10)
    ∷ digit (secs % 10)
    ∷ b'.'
    ∷ digit (millis / 10 / 10)
    ∷ digit (millis / 10 % 10)
    ∷ digit (millis % 10)
    ∷ 0
    ∷ []

unfoldable pub usecs_to_cstring : ℕ → Bytes
usecs_to_cstring ts =
    let hrs = ts / (1000000 * 60 * 60) in
    let mins = (ts - hrs * 1000000 * 60 * 60) / (1000000 * 60) in
    let secs = (ts - hrs * 1000000 * 60 * 60 - mins * 1000000 * 60) / 1000000 in
    let usecs = ts - hrs * 1000000 * 60 * 60 - mins * 1000000 * 60 - secs * 1000000 in
    let usecs1 = usecs / 10 in
    let usecs2 = usecs1 / 10 in
    let usecs3 = usecs2 / 10 in
    let usecs4 = usecs3 / 10 in
    digit (hrs / 10)
    ∷ digit (hrs % 10)
    ∷ b':'
    ∷ digit (mins / 10)
    ∷ digit (mins % 10)
    ∷ b':'
    ∷ digit (secs / 10)
    ∷ digit (secs % 10)
    ∷ b'.'
    ∷ digit (usecs4 / 10)
    ∷ digit (usecs4 % 10)
    ∷ digit (usecs3 % 10)
    ∷ digit (usecs2 % 10)
    ∷ digit (usecs1 % 10)
    ∷ digit (usecs % 10)
    ∷ 0
    ∷ []

unfoldable pub nsecs_to_cstring : ℕ → Bytes
nsecs_to_cstring ts =
    let hrs = ts / (1000000000 * 60 * 60) in
    let mins = (ts - hrs * 1000000000 * 60 * 60) / (1000000000 * 60) in
    let secs = (ts - hrs * 1000000000 * 60 * 60 - mins * 1000000000 * 60) / 1000000000 in
    let nsecs = ts - hrs * 1000000000 * 60 * 60 - mins * 1000000000 * 60 - secs * 1000000000 in
    let nsecs1 = nsecs / 10 in
    let nsecs2 = nsecs1 / 10 in
    let nsecs3 = nsecs2 / 10 in
    let nsecs4 = nsecs3 / 10 in
    let nsecs5 = nsecs4 / 10 in
    let nsecs6 = nsecs5 / 10 in
    let nsecs7 = nsecs6 / 10 in
    digit (hrs / 10)
    ∷ digit (hrs % 10)
    ∷ b':'
    ∷ digit (mins / 10)
    ∷ digit (mins % 10)
    ∷ b':'
    ∷ digit (secs / 10)
    ∷ digit (secs % 10)
    ∷ b'.'
    ∷ digit (nsecs7 / 10)
    ∷ digit (nsecs7 % 10)
    ∷ digit (nsecs6 % 10)
    ∷ digit (nsecs5 % 10)
    ∷ digit (nsecs4 % 10)
    ∷ digit (nsecs3 % 10)
    ∷ digit (nsecs2 % 10)
    ∷ digit (nsecs1 % 10)
    ∷ digit (nsecs % 10)
    ∷ 0
    ∷ []

-- `std::string(dst)`: the text without its NUL.
unfoldable pub secs_to_string : ℕ → Bytes
secs_to_string ts = c_string (secs_to_cstring ts)

unfoldable pub msecs_to_string : ℕ → Bytes
msecs_to_string ts = c_string (msecs_to_cstring ts)

unfoldable pub usecs_to_string : ℕ → Bytes
usecs_to_string ts = c_string (usecs_to_cstring ts)

unfoldable pub nsecs_to_string : ℕ → Bytes
nsecs_to_string ts = c_string (nsecs_to_cstring ts)

-- `src[i]`; behind the end of what the pointer points to stands 0.
abbrev pub char_at : Bytes → ℕ → ℕ
char_at src i = get_or src i 0

-- The value of a (signed) `char`.
abbrev pub signed_char : ℕ → ℤ
signed_char c = if ltb c 128 then pos c else negsuc (255 - c)

-- `src[i] - '0'`
abbrev pub value_at : Bytes → ℕ → ℤ
value_at src i = signed_char (char_at src i) -ℤ pos b'0'

-- `(src[i] - '0') * 10 + (src[i + 1] - '0')`
abbrev pub pair_at : Bytes → ℕ → ℕ → ℤ
pair_at src i j = value_at src i *ℤ pos 10 +ℤ value_at src j

unfoldable pub msecs_from_hhmmssmmm : Bytes → ℤ
msecs_from_hhmmssmmm src =
    pair_at src 0 1 *ℤ pos 3600000
    +ℤ pair_at src 3 4 *ℤ pos 60000
    +ℤ pair_at src 6 7 *ℤ pos 1000
    +ℤ (value_at src 9 *ℤ pos 100 +ℤ value_at src 10 *ℤ pos 10 +ℤ value_at src 11)

unfoldable pub usecs_from_hhmmss : Bytes → ℤ
usecs_from_hhmmss src =
    pair_at src 0 1 *ℤ pos 3600000000
    +ℤ pair_at src 3 4 *ℤ pos 60000000
    +ℤ pair_at src 6 7 *ℤ pos 1000000

unfoldable pub mins_from_hhmm : Bytes → ℤ
mins_from_hhmm src = pair_at src 0 1 *ℤ pos 60 +ℤ pair_at src 3 4

unfoldable pub secs_from_hhmmss : Bytes → ℤ
secs_from_hhmmss src = pair_at src 0 1 *ℤ pos 3600 +ℤ pair_at src 3 4 *ℤ pos 60 +ℤ pair_at src 6 7

unfoldable pub usecs_from_hhmmssmmm : Bytes → ℤ
usecs_from_hhmmssmmm src = msecs_from_hhmmssmmm src *ℤ pos 1000

unfoldable pub usecs_from_hhmmssuuuuuu : Bytes → ℤ
usecs_from_hhmmssuuuuuu src =
    pair_at src 0 1 *ℤ pos 3600000000
    +ℤ pair_at src 3 4 *ℤ pos 60000000
    +ℤ pair_at src 6 7 *ℤ pos 1000000
    +ℤ (value_at src 9 *ℤ pos 100000
        +ℤ value_at src 10 *ℤ pos 10000
        +ℤ value_at src 11 *ℤ pos 1000
        +ℤ value_at src 12 *ℤ pos 100
        +ℤ value_at src 13 *ℤ pos 10
        +ℤ value_at src 14)

abbrev pub is_digit : ℕ → Bool
is_digit c = leb b'0' c && leb c b'9'

-- `(value[i] - '0') * 10 + (value[j] - '0')` of two digits
abbrev pub two_digits : Bytes → ℕ → ℕ → ℕ
two_digits value i j = (char_at value i - b'0') * 10 + (char_at value j - b'0')

-- A null pointer is `none`. The tests `h >= 0` and the like hold for digits.
unfoldable pub validate_hhmm : Option Bytes → Bool
validate_hhmm none = false
validate_hhmm (some value) =
    if length (c_string value) == 5
      && char_at value 2 == b':'
      && is_digit (char_at value 0)
      && is_digit (char_at value 1)
      && is_digit (char_at value 3)
      && is_digit (char_at value 4)
    then leb (two_digits value 0 1) 23 && leb (two_digits value 3 4) 59
    else false

unfoldable pub validate_hhmmss : Option Bytes → Bool
validate_hhmmss none = false
validate_hhmmss (some value) =
    if length (c_string value) == 8
      && char_at value 2 == b':'
      && char_at value 5 == b':'
      && is_digit (char_at value 0)
      && is_digit (char_at value 1)
      && is_digit (char_at value 3)
      && is_digit (char_at value 4)
      && is_digit (char_at value 6)
      && is_digit (char_at value 7)
    then leb (two_digits value 0 1) 23
      && leb (two_digits value 3 4) 59
      && leb (two_digits value 6 7) 59
    else false
