-- ===== src/Client/Commands.antt =====
-- src/binary_gateway_load_test_client.cpp: the commands of the console return, and what they leave alone.
use core_connect_binary.Base.{
  ℕ, ◌≡◌, ◌<◌, refl, ap, Bool, true, false, Option, none, some, [], ◌∷◌, Bytes, take, if◌then◌else◌,
  ignore_ret, is_command,
}
use core_connect_binary.Kernel.{Kernel}
use core_connect_binary.Framer.Defs.{GenericFramer}
use core_connect_binary.Tcp.WriteData.{IsPosix}
use core_connect_binary.Client.Json.{Json, from_brace, document}
use core_connect_binary.Client.Session.{OrderStats, Client}
use core_connect_binary.Client.Sending.{tcp_write, terminate}
use core_connect_binary.Client.Watch.{enough_fuel, tcp_write-Wrote}
use core_connect_binary.Client.Structures.{structure, write_structure, process_json_structures}
use core_connect_binary.Client.Setup.{set_up, set_up_if, process_a_new_order}
use core_connect_binary.Client.Requests.{
  Frames, Stale, send_document, process_a_modify_order, process_a_cancel_order,
  process_a_cancel_all_orders, process_working_orders, process_get_fills, process_a_logoff,
}
use core_connect_binary.Latency.Defs.{million}
use core_connect_binary.Latency.Ranges.{calc_file-ends}
use core_connect_binary.Client.Console.{
  Console, check_set, latency_done, do_latency, on_client, start_bulk, process_a_new_order_bulk,
  console_read,
}

-- The members that no command changes.
abbrev pub unchanged : {W : Type 0} → Client W → GenericFramer × OrderStats × Bool × ℕ × ℕ
unchanged c =
    (c.framer, (let o = c.orders in o.stats), c.tcp_connected, c.tcp_rx_idle_count, c.idle_count)

-- A command came to its end.
abbrev Ended : {W : Type 0} → Client W → Option (ℕ × Client W) → Type 0
Ended {W} c o = (ret : ℕ) × (m : Client W) × (o ≡ some (ret, m)) × (unchanged m ≡ unchanged c)

abbrev pub ConsoleEnded : {W : Type 0} → Console W → Option (ℕ × Console W) → Type 0
ConsoleEnded {W} s o =
    (ret : ℕ) × (m : Console W) × (o ≡ some (ret, m)) × (unchanged m.client ≡ unchanged s.client)

if-ConsoleEnded :
    {W : Type 0} (b : Bool) (s : Console W) {x y : Option (ℕ × Console W)}
    → ConsoleEnded s x
    → ConsoleEnded s y
    → ConsoleEnded s (if b then x else y)
if-ConsoleEnded true s ex ey = ex
if-ConsoleEnded false s ex ey = ey

on_client-ConsoleEnded :
    {W : Type 0} (s : Console W) {o : Option (ℕ × Client W)}
    → Ended s.client o
    → ConsoleEnded s (on_client s o)
unfolding on_client
on_client-ConsoleEnded s (ret, m, e, h) = (ret, record s { client = m }, ap (on_client s) e, h)

module _ {W : Type 0} (k : Kernel W) (p : IsPosix k) (ev_terminate : W → ℕ × W) where
  abbrev fuel : Bytes → W → ℕ
  fuel = enough_fuel k p ev_terminate

  terminate-Ended : (c : Client W) → Ended c (some (terminate k ev_terminate fuel c))
  unfolding terminate
  terminate-Ended c =
      ((ev_terminate c.world).0, record c { world = (ev_terminate c.world).1 }, refl, refl)

  sent-Ended :
      (src : Bytes) (c : Client W) → Ended c (ignore_ret (tcp_write k ev_terminate fuel src c))
  unfolding ignore_ret
  sent-Ended src c =
      let (ret, m, ends, wrote) = tcp_write-Wrote k p ev_terminate src c in
      (0, m, ap ignore_ret ends, ap unchanged wrote)

  module _ {D V : Type 0} (j : Json D V) where
    write_structure-Ended :
        (buf : Bytes) (c : Client W) → Ended c (write_structure j k ev_terminate fuel buf c)
    unfolding write_structure
    write_structure-Ended [] c = (0, c, refl, refl)
    write_structure-Ended (x ∷ buf) c =
        let (writebuf, offset) = structure j (j.parse (x ∷ buf)) in
        sent-Ended (take offset writebuf) c

    process_json_structures-Ended :
        (buf : Bytes) (c : Client W) → Ended c (process_json_structures j k ev_terminate fuel buf c)
    unfolding process_json_structures
    process_json_structures-Ended buf c = write_structure-Ended (from_brace buf) c

    module _ (frames : Frames) (stale : Stale) where
      send_document-Ended :
          (make : D → Bytes) (o : Option D) (c : Client W)
          → Ended c (send_document j frames stale k ev_terminate fuel make o c)
      unfolding send_document
      send_document-Ended make none c = (0, c, refl, refl)
      send_document-Ended make (some doc) c = sent-Ended (make doc) c

      modify-Ended :
          (buf : Bytes) (c : Client W)
          → Ended c (process_a_modify_order j frames stale k ev_terminate fuel buf c)
      unfolding process_a_modify_order
      modify-Ended buf c = send_document-Ended _ (document j buf) c

      cancel-Ended :
          (buf : Bytes) (c : Client W)
          → Ended c (process_a_cancel_order j frames stale k ev_terminate fuel buf c)
      unfolding process_a_cancel_order
      cancel-Ended buf c = send_document-Ended _ (document j buf) c

      cancel_all-Ended :
          (buf : Bytes) (c : Client W)
          → Ended c (process_a_cancel_all_orders j frames stale k ev_terminate fuel buf c)
      unfolding process_a_cancel_all_orders
      cancel_all-Ended buf c = send_document-Ended _ (document j buf) c

      working-Ended :
          (buf : Bytes) (c : Client W)
          → Ended c (process_working_orders j frames stale k ev_terminate fuel buf c)
      unfolding process_working_orders
      working-Ended buf c = send_document-Ended _ (document j buf) c

      fills-Ended :
          (buf : Bytes) (c : Client W)
          → Ended c (process_get_fills j frames stale k ev_terminate fuel buf c)
      unfolding process_get_fills
      fills-Ended buf c = send_document-Ended _ (document j buf) c

      logoff-Ended :
          (c : Client W) → Ended c (process_a_logoff j frames stale k ev_terminate fuel c)
      unfolding process_a_logoff
      logoff-Ended c = sent-Ended _ c

      module _ (tmr_load_add : ℕ → W → ℕ × W) where
        set_up_if-unchanged :
            (o : Option D) (c : Client W) → unchanged (set_up_if j tmr_load_add o c) ≡ unchanged c
        unfolding set_up_if set_up
        set_up_if-unchanged none c = refl
        set_up_if-unchanged (some doc) c = refl

        new_order-Ended :
            (buf : Bytes) (c : Client W)
            → Ended c (some (0, process_a_new_order j tmr_load_add buf c))
        unfolding process_a_new_order
        new_order-Ended buf c = (0, _, refl, set_up_if-unchanged (document j buf) c)

        check_set-Ended : (c : Client W) → Ended c (some (0, check_set c))
        unfolding check_set
        check_set-Ended c = (0, _, refl, refl)

        start_bulk-unchanged :
            (o : Option D) (s : Console W)
            → unchanged (let t = start_bulk j stale o s in t.client) ≡ unchanged s.client
        unfolding start_bulk
        start_bulk-unchanged none s = refl
        start_bulk-unchanged (some doc) s = refl

        bulk-ConsoleEnded :
            (buf : Bytes) (s : Console W)
            → ConsoleEnded s (some (0, process_a_new_order_bulk j stale buf s))
        unfolding process_a_new_order_bulk
        bulk-ConsoleEnded buf s = (0, _, refl, start_bulk-unchanged (document j buf) s)

        -- Over a system whose write does what POSIX says, with fuel for every byte and interruption, on a
        -- client with a connection object, latencies with a positive display range and at least one of
        -- them counted: every command of the console, when its text and its document fit the buffers and
        -- the members are of their kinds, returns; it leaves the framer, the statistics of the orders, the connected flag, the
        -- count of silent timers and the count for the flush of the log as they were.
        pub console_read-ConsoleEnded :
            (opens : W → Bool) (buf : Bytes) (s : Console W)
            → 0 < (let l = s.latency in l.display_range)
            → 0 < (let l = s.latency in l.total_count)
            → ConsoleEnded s
                (console_read j stale frames k ev_terminate fuel tmr_load_add opens million buf s)
        unfolding console_read do_latency
        console_read-ConsoleEnded opens buf s some_range counted =
            let c = s.client in
            let (l, ends) = calc_file-ends (opens c.world) s.latency some_range counted in
            if-ConsoleEnded (is_command b'Q' buf) s (on_client-ConsoleEnded s (terminate-Ended c)) (
              if-ConsoleEnded (is_command b'L' buf) s (on_client-ConsoleEnded s (logoff-Ended c)) (
                if-ConsoleEnded (is_command b'N' buf) s
                  (on_client-ConsoleEnded s (new_order-Ended buf c))
                  (if-ConsoleEnded (is_command b'M' buf) s
                    (on_client-ConsoleEnded s (modify-Ended buf c))
                    (if-ConsoleEnded (is_command b'C' buf) s
                      (on_client-ConsoleEnded s (cancel-Ended buf c))
                      (if-ConsoleEnded (is_command b'A' buf) s
                        (on_client-ConsoleEnded s (cancel_all-Ended buf c))
                        (if-ConsoleEnded (is_command b'R' buf) s (0, s, refl, refl)
                          (if-ConsoleEnded (is_command b'W' buf) s
                            (on_client-ConsoleEnded s (working-Ended buf c))
                            (if-ConsoleEnded (is_command b'F' buf) s
                              (on_client-ConsoleEnded s (fills-Ended buf c))
                              (if-ConsoleEnded (is_command b'B' buf) s (bulk-ConsoleEnded buf s) (
                                if-ConsoleEnded (is_command b'Y' buf) s
                                  (0, record s { latency = l }, ap (latency_done s) ends, refl)
                                  (if-ConsoleEnded (is_command b'V' buf) s
                                    (on_client-ConsoleEnded s (check_set-Ended c))
                                    (if-ConsoleEnded (is_command b'j' buf) s
                                      (on_client-ConsoleEnded s
                                        (process_json_structures-Ended buf c))
                                      (0, s, refl, refl)))))))))))))
