-- ===== src/Multicast/Tests.antt =====
-- util_lib/multicast over a concrete system.
use core_connect_binary.Base.Int.{pos}
use core_connect_binary.Multicast.Defs.{Texts}

abbrev test_texts : Texts
test_texts = record { inet_addr = λ text. 5; atoi = λ text. pos 1000 }
