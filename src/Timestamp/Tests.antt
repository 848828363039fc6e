-- ===== src/Timestamp/Tests.antt =====
-- util_lib/time on concrete times.
use core_connect_binary.Base.{◌≡◌, arith, ltb, some}
use core_connect_binary.Base.Int.{pos}
use core_connect_binary.Timestamp.Text.{
  secs_to_cstring, msecs_to_cstring, usecs_to_cstring, secs_from_hhmmss, msecs_from_hhmmssmmm,
  usecs_from_hhmmssuuuuuu, validate_hhmmss,
}
use core_connect_binary.Timestamp.RoundTrip.{
  secs_from_hhmmss-secs_to_cstring, msecs_from_hhmmssmmm-msecs_to_cstring,
  usecs_from_hhmmssuuuuuu-usecs_to_cstring,
}
use core_connect_binary.Timestamp.Validate.{validate_hhmmss-secs_to_cstring}

-- 23:59:59
secs_from_hhmmss-secs_to_cstring_example : secs_from_hhmmss (secs_to_cstring 86399) ≡ pos 86399
secs_from_hhmmss-secs_to_cstring_example = secs_from_hhmmss-secs_to_cstring 86399 (omega arith)

msecs_from_hhmmssmmm-msecs_to_cstring_example :
    msecs_from_hhmmssmmm (msecs_to_cstring 86399007) ≡ pos 86399007
msecs_from_hhmmssmmm-msecs_to_cstring_example =
    msecs_from_hhmmssmmm-msecs_to_cstring 86399007 (omega arith)

usecs_from_hhmmssuuuuuu-usecs_to_cstring_example :
    usecs_from_hhmmssuuuuuu (usecs_to_cstring 86399000021) ≡ pos 86399000021
usecs_from_hhmmssuuuuuu-usecs_to_cstring_example =
    usecs_from_hhmmssuuuuuu-usecs_to_cstring 86399000021 (omega arith)

validate_hhmmss-secs_to_cstring_example :
    validate_hhmmss (some (secs_to_cstring 90000)) ≡ ltb 90000 86400
validate_hhmmss-secs_to_cstring_example = validate_hhmmss-secs_to_cstring 90000 (omega arith)
