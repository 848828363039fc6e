-- ===== src/Timestamp/RoundTrip.antt =====
-- util_lib/time/h/timestamp.hpp: a time of the day printed and read again.
use core_connect_binary.Base.{
  ℕ, ◌+◌, ◌-◌, ◌*◌, ◌/◌, ◌%◌, ◌<◌, ◌≡◌, refl, ap, true, arith, ltb, ltb-true,
}
use core_connect_binary.Base.Int.{pos, ◌+ℤ◌, ◌-ℤ◌, ◌*ℤ◌, pos-add, pos-mul, pos-sub}
use core_connect_binary.Timestamp.Text.{
  digit, signed_char, secs_to_cstring, msecs_to_cstring, usecs_to_cstring, secs_from_hhmmss,
  msecs_from_hhmmssmmm, usecs_from_hhmmssuuuuuu,
}

-- The value of the character of a digit.
value-digit : (d : ℕ) → d < 10 → signed_char (digit d) -ℤ pos b'0' ≡ pos d
value-digit d h =
    let small : (d + b'0') % 256 ≡ d + b'0' = omega arith in
    let low : ltb (d + b'0') 128 ≡ true = ltb-true {a = d + b'0'} {b = 128} (omega arith) in
    rw (small, low, pos-sub (d + b'0') b'0' (omega arith)) (ap pos {y = d} (omega arith))

-- The value of two digits is the number they print.
pair-digits :
    (n : ℕ)
    → n < 100
    → (signed_char (digit (n / 10)) -ℤ pos b'0') *ℤ pos 10
        +ℤ (signed_char (digit (n % 10)) -ℤ pos b'0')
      ≡ pos n
pair-digits n h =
    rw
      (
        value-digit (n / 10) (omega arith),
        value-digit (n % 10) (omega arith),
        pos-mul (n / 10) 10,
        pos-add (n / 10 * 10) (n % 10),
      )
      (ap pos {y = n} (omega arith))

-- A time of the day below 100 hours, printed to the second and read again, is that time.
pub secs_from_hhmmss-secs_to_cstring :
    (ts : ℕ) → ts < 360000 → secs_from_hhmmss (secs_to_cstring ts) ≡ pos ts
unfolding secs_from_hhmmss secs_to_cstring
secs_from_hhmmss-secs_to_cstring ts h =
    let hrs = ts / (60 * 60) in
    let mins = (ts - hrs * 60 * 60) / 60 in
    let secs = ts - hrs * 60 * 60 - mins * 60 in
    rw
      (
        pair-digits hrs (omega arith),
        pair-digits mins (omega arith),
        pair-digits secs (omega arith),
        pos-mul hrs 3600,
        pos-mul mins 60,
        pos-add (hrs * 3600) (mins * 60),
        pos-add (hrs * 3600 + mins * 60) secs,
      )
      (ap pos {y = ts} (omega arith))

-- The value of three digits is the number they print.
triple-digits :
    (n : ℕ)
    → n < 1000
    → (signed_char (digit (n / 10 / 10)) -ℤ pos b'0') *ℤ pos 100
        +ℤ (signed_char (digit (n / 10 % 10)) -ℤ pos b'0') *ℤ pos 10
        +ℤ (signed_char (digit (n % 10)) -ℤ pos b'0')
      ≡ pos n
triple-digits n h =
    rw
      (
        value-digit (n / 10 / 10) (omega arith),
        value-digit (n / 10 % 10) (omega arith),
        value-digit (n % 10) (omega arith),
        pos-mul (n / 10 / 10) 100,
        pos-mul (n / 10 % 10) 10,
        pos-add (n / 10 / 10 * 100) (n / 10 % 10 * 10),
        pos-add (n / 10 / 10 * 100 + n / 10 % 10 * 10) (n % 10),
      )
      (ap pos {y = n} (omega arith))

-- The sum the parsers make of hours, minutes, seconds and a fraction, each in its unit.
total :
    (a b c d k l m : ℕ)
    → pos a *ℤ pos k +ℤ pos b *ℤ pos l +ℤ pos c *ℤ pos m +ℤ pos d ≡ pos (a * k + b * l + c * m + d)
total a b c d k l m =
    rw
      (
        pos-mul a k,
        pos-mul b l,
        pos-mul c m,
        pos-add (a * k) (b * l),
        pos-add (a * k + b * l) (c * m),
        pos-add (a * k + b * l + c * m) d,
      )
      refl

-- A time of the day below 100 hours, printed to the millisecond and read again, is that time.
pub msecs_from_hhmmssmmm-msecs_to_cstring :
    (ts : ℕ) → ts < 360000000 → msecs_from_hhmmssmmm (msecs_to_cstring ts) ≡ pos ts
unfolding msecs_from_hhmmssmmm msecs_to_cstring
msecs_from_hhmmssmmm-msecs_to_cstring ts h =
    let hrs = ts / (1000 * 60 * 60) in
    let mins = (ts - hrs * 1000 * 60 * 60) / (1000 * 60) in
    let secs = (ts - hrs * 1000 * 60 * 60 - mins * 1000 * 60) / 1000 in
    let millis = ts - hrs * 1000 * 60 * 60 - mins * 1000 * 60 - secs * 1000 in
    rw
      (
        pair-digits hrs (omega arith),
        pair-digits mins (omega arith),
        pair-digits secs (omega arith),
        triple-digits millis (omega arith),
        total hrs mins secs millis 3600000 60000 1000,
      )
      (ap pos {y = ts} (omega arith))

-- The value of six digits is the number they print.
six-digits :
    (n : ℕ)
    → n < 1000000
    → (signed_char (digit (n / 10 / 10 / 10 / 10 / 10)) -ℤ pos b'0') *ℤ pos 100000
        +ℤ (signed_char (digit (n / 10 / 10 / 10 / 10 % 10)) -ℤ pos b'0') *ℤ pos 10000
        +ℤ (signed_char (digit (n / 10 / 10 / 10 % 10)) -ℤ pos b'0') *ℤ pos 1000
        +ℤ (signed_char (digit (n / 10 / 10 % 10)) -ℤ pos b'0') *ℤ pos 100
        +ℤ (signed_char (digit (n / 10 % 10)) -ℤ pos b'0') *ℤ pos 10
        +ℤ (signed_char (digit (n % 10)) -ℤ pos b'0')
      ≡ pos n
six-digits n h =
    let d5 = n / 10 / 10 / 10 / 10 / 10 in
    let d4 = n / 10 / 10 / 10 / 10 % 10 in
    let d3 = n / 10 / 10 / 10 % 10 in
    let d2 = n / 10 / 10 % 10 in
    let d1 = n / 10 % 10 in
    rw
      (
        value-digit d5 (omega arith),
        value-digit d4 (omega arith),
        value-digit d3 (omega arith),
        value-digit d2 (omega arith),
        value-digit d1 (omega arith),
        value-digit (n % 10) (omega arith),
        pos-mul d2 100,
        total d5 d4 d3 (d2 * 100) 100000 10000 1000,
        pos-mul d1 10,
        pos-add (d5 * 100000 + d4 * 10000 + d3 * 1000 + d2 * 100) (d1 * 10),
        pos-add (d5 * 100000 + d4 * 10000 + d3 * 1000 + d2 * 100 + d1 * 10) (n % 10),
      )
      (ap pos {y = n} (omega arith))

-- A time of the day below 100 hours, printed to the microsecond and read again, is that time.
pub usecs_from_hhmmssuuuuuu-usecs_to_cstring :
    (ts : ℕ) → ts < 360000000000 → usecs_from_hhmmssuuuuuu (usecs_to_cstring ts) ≡ pos ts
unfolding usecs_from_hhmmssuuuuuu usecs_to_cstring
usecs_from_hhmmssuuuuuu-usecs_to_cstring ts h =
    let hrs = ts / (1000000 * 60 * 60) in
    let mins = (ts - hrs * 1000000 * 60 * 60) / (1000000 * 60) in
    let secs = (ts - hrs * 1000000 * 60 * 60 - mins * 1000000 * 60) / 1000000 in
    let usecs = ts - hrs * 1000000 * 60 * 60 - mins * 1000000 * 60 - secs * 1000000 in
    rw
      (
        pair-digits hrs (omega arith),
        pair-digits mins (omega arith),
        pair-digits secs (omega arith),
        six-digits usecs (omega arith),
        total hrs mins secs usecs 3600000000 60000000 1000000,
      )
      (ap pos {y = ts} (omega arith))
