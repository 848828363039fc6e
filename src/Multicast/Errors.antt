-- ===== src/Multicast/Errors.antt =====
-- util_lib/multicast/h/multicast.hpp: `enum multicast_errors`.
use core_connect_binary.Base.{ℕ}

abbrev pub e_mc_no_error : ℕ
e_mc_no_error = 0

abbrev pub e_mc_open_already : ℕ
e_mc_open_already = 8000

abbrev pub e_mc_socket : ℕ
e_mc_socket = 8001

abbrev pub e_mc_closed_already : ℕ
e_mc_closed_already = 8002

abbrev pub e_mc_close : ℕ
e_mc_close = 8003

abbrev pub e_mc_illegal_operation : ℕ
e_mc_illegal_operation = 8004

abbrev pub e_mc_would_block : ℕ
e_mc_would_block = 8005

abbrev pub e_mc_read : ℕ
e_mc_read = 8006

abbrev pub e_mc_write : ℕ
e_mc_write = 8007

abbrev pub e_mc_short_write : ℕ
e_mc_short_write = 8008

abbrev pub e_mc_set_timestamp : ℕ
e_mc_set_timestamp = 8009

abbrev pub e_mc_set_sock_reuse : ℕ
e_mc_set_sock_reuse = 8010

abbrev pub e_mc_add_membership : ℕ
e_mc_add_membership = 8011

abbrev pub e_mc_set_buffer : ℕ
e_mc_set_buffer = 8012

abbrev pub e_mc_bind : ℕ
e_mc_bind = 8013

abbrev pub e_mc_set_write_interface : ℕ
e_mc_set_write_interface = 8014

abbrev pub e_mc_set_loopback_enabled : ℕ
e_mc_set_loopback_enabled = 8015

abbrev pub e_clear_flags : ℕ
e_clear_flags = 8016

abbrev pub e_get_flags : ℕ
e_get_flags = 8017

abbrev pub e_set_flags : ℕ
e_set_flags = 8018
