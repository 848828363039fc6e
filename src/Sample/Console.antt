-- ===== src/Sample/Console.antt =====
-- src/sample_test_client_moonx.cpp: the commands of the console. The REST call of `prompt_symbols`, whose
-- answer is only printed, is the parameter `get_instruments`.
use core_connect_binary.Base.{ℕ, Option, some, if◌then◌else◌, Bytes, is_command}
use core_connect_binary.Kernel.{Kernel}
use core_connect_binary.Sample.Session.{Sample}
use core_connect_binary.Sample.Prompts.{Cin}
use core_connect_binary.Sample.Sending.{
  terminate, process_a_logoff, prompt_new_order, prompt_modify_order, prompt_cancel_order,
  prompt_cancel_all_orders, prompt_modify_leverage, prompt_working_orders_request,
  prompt_fills_request,
}

module _ {W : Type 0} (k : Kernel W) (ev_terminate : W → ℕ × W) (fuel : Bytes → W → ℕ) (cin : Cin W)
    (get_instruments : W → W) where
  abbrev pub prompt_symbols : Sample W → Option (ℕ × Sample W)
  prompt_symbols c = some (0, record c { world = get_instruments c.world })

  -- The tests in the order of the code, which compare one character each: those for "1", "10" and "11"
  -- come after the one for "12".
  unfoldable pub console_read : Bytes → Sample W → Option (ℕ × Sample W)
  console_read buf c =
      if is_command b'Q' buf
      then some (terminate k ev_terminate fuel c)
      else if is_command b'1' buf
      then process_a_logoff k ev_terminate fuel c
      else if is_command b'1' buf
      then prompt_new_order k ev_terminate fuel cin c
      else if is_command b'2' buf
      then prompt_modify_order k ev_terminate fuel cin c
      else if is_command b'3' buf
      then prompt_cancel_order k ev_terminate fuel cin c
      else if is_command b'4' buf
      then prompt_cancel_all_orders k ev_terminate fuel cin c
      else if is_command b'5' buf
      then prompt_modify_leverage k ev_terminate fuel cin c
      else if is_command b'6' buf
      then prompt_working_orders_request k ev_terminate fuel cin c
      else if is_command b'7' buf
      then prompt_fills_request k ev_terminate fuel cin c
      else if is_command b'8' buf
      then some (0, c)
      else if is_command b'9' buf
      then prompt_symbols c
      else if is_command b'1' buf
      then some (0, c)
      else if is_command b'1' buf
      then process_a_logoff k ev_terminate fuel c
      else some (0, c)
