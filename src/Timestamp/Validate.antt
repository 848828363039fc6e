-- ===== src/Timestamp/Validate.antt =====
-- util_lib/time/h/timestamp.hpp: validate_hhmmss against the printer of times.
use core_connect_binary.Base.{
  ℕ, ◌+◌, ◌-◌, ◌*◌, ◌/◌, ◌%◌, ◌<◌, ◌≡◌, refl, true, [], ◌∷◌, arith, ltb, leb-true, Bytes, c_string,
  length, some,
}
use core_connect_binary.Timestamp.Text.{digit, is_digit, secs_to_cstring, validate_hhmmss}

is_digit-digit : (d : ℕ) → d < 10 → is_digit (digit d) ≡ true
is_digit-digit d h = ground arith

two_digits-digit : (n : ℕ) → n < 100 → (digit (n / 10) - b'0') * 10 + (digit (n % 10) - b'0') ≡ n
two_digits-digit n h = omega arith

-- A character of the text keeps its place in the string.
c_string-digit : (d : ℕ) (cs : Bytes) → d < 10 → c_string (digit d ∷ cs) ≡ digit d ∷ c_string cs
unfolding c_string
c_string-digit d cs h = ground arith

c_string-colon : (cs : Bytes) → c_string (b':' ∷ cs) ≡ b':' ∷ c_string cs
unfolding c_string
c_string-colon cs = refl

c_string-nul : c_string (0 ∷ []) ≡ []
unfolding c_string
c_string-nul = refl

length-secs_to_cstring : (ts : ℕ) → ts < 360000 → length (c_string (secs_to_cstring ts)) ≡ 8
unfolding secs_to_cstring
length-secs_to_cstring ts h =
    let hrs = ts / (60 * 60) in
    let mins = (ts - hrs * 60 * 60) / 60 in
    let secs = ts - hrs * 60 * 60 - mins * 60 in
    rw
      (
        c_string-digit (hrs / 10) _ (omega arith),
        c_string-digit (hrs % 10) _ (omega arith),
        c_string-colon _,
        c_string-digit (mins / 10) _ (omega arith),
        c_string-digit (mins % 10) _ (omega arith),
        c_string-colon _,
        c_string-digit (secs / 10) _ (omega arith),
        c_string-digit (secs % 10) _ (omega arith),
        c_string-nul,
      )
      refl

-- A time below 100 hours, printed to the second, passes the validation exactly when it is a time of a
-- day, below 24 hours.
pub validate_hhmmss-secs_to_cstring :
    (ts : ℕ) → ts < 360000 → validate_hhmmss (some (secs_to_cstring ts)) ≡ ltb ts 86400
unfolding validate_hhmmss secs_to_cstring
validate_hhmmss-secs_to_cstring ts h =
    let hrs = ts / (60 * 60) in
    let mins = (ts - hrs * 60 * 60) / 60 in
    let secs = ts - hrs * 60 * 60 - mins * 60 in
    rw
      (
        length-secs_to_cstring ts h,
        is_digit-digit (hrs / 10) (omega arith),
        is_digit-digit (hrs % 10) (omega arith),
        is_digit-digit (mins / 10) (omega arith),
        is_digit-digit (mins % 10) (omega arith),
        is_digit-digit (secs / 10) (omega arith),
        is_digit-digit (secs % 10) (omega arith),
        two_digits-digit hrs (omega arith),
        two_digits-digit mins (omega arith),
        two_digits-digit secs (omega arith),
      )
      (rw (leb-true {a = mins} {b = 59} (omega arith), leb-true {a = secs} {b = 59} (omega arith))
        (ground arith))
