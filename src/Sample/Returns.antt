-- ===== src/Sample/Returns.antt =====
-- src/sample_test_client_moonx.cpp: the commands of the console return, and what they leave alone.
use core_connect_binary.Base.{
  ℕ, zero, suc, ◌+◌, ◌≡◌, ◌⊎◌, refl, ap, ◌∙◌, Bool, true, false, ◌&&◌, Option, some, List, Bytes,
  arith, length, Bool-cases, inl, inr, ◌==◌, if◌then◌else◌, ignore_ret, is_command,
}
use core_connect_binary.Kernel.{Kernel}
use core_connect_binary.Framer.Defs.{GenericFramer}
use core_connect_binary.Tcp.Connection.{TcpConnection, Written}
use core_connect_binary.Tcp.WriteData.{IsPosix, write_data-Returns}
use core_connect_binary.Api.Layout.{Value}
use core_connect_binary.Api.Messages.{Member, binary_frame}
use core_connect_binary.Sample.Session.{Session, Sample}
use core_connect_binary.Sample.Prompts.{Cin}
use core_connect_binary.Sample.Sending.{
  is_yes, insert_tag, request_sent, terminate, written, write_ended, tcp_write, process_a_logoff,
  send_if, process_request, process_new_order, process_modify_order, process_cancel_order,
  process_cancel_all_orders, process_modify_leverage, process_working_orders_request,
  process_fills_request, prompt_new_order, prompt_modify_order, prompt_cancel_order,
  prompt_cancel_all_orders, prompt_modify_leverage, prompt_working_orders_request,
  prompt_fills_request,
}
use core_connect_binary.Sample.Console.{prompt_symbols, console_read}

-- A session with the client's tag put in, or as it was.
abbrev pub Tagged : ℕ → Session → Session → Type 0
Tagged tag before after = (after ≡ before) ⊎ (after ≡ insert_tag tag before)

-- The members that no command changes.
abbrev pub unchanged : {W : Type 0} → Sample W → GenericFramer × TcpConnection × Bool × ℕ × ℕ
unchanged c = (c.framer, c.mdg_con, c.tcp_connected, c.tcp_rx_idle_count, c.user_tag)

-- What the sending of a request leaves alone.
abbrev pub IsKept : {W : Type 0} → Sample W → Sample W → Type 0
IsKept c m = (unchanged m ≡ unchanged c) × Tagged c.user_tag c.session m.session

-- A command came to its end.
abbrev pub Ended : {W : Type 0} → Sample W → Option (ℕ × Sample W) → Type 0
Ended {W} c o = (ret : ℕ) × (m : Sample W) × (o ≡ some (ret, m)) × IsKept c m

kept : {W : Type 0} (c : Sample W) → IsKept c c
kept c = (refl, inl refl)

ended : {W : Type 0} (c : Sample W) (ret : ℕ) → Ended c (some (ret, c))
ended c ret = (ret, c, refl, kept c)

if-Ended :
    {W : Type 0} (b : Bool) (c : Sample W) {x y : Option (ℕ × Sample W)}
    → Ended c x
    → Ended c y
    → Ended c (if b then x else y)
if-Ended true c ex ey = ex
if-Ended false c ex ey = ey

ignore_ret-Ended :
    {W : Type 0} (c : Sample W) {o : Option (ℕ × Sample W)} → Ended c o → Ended c (ignore_ret o)
unfolding ignore_ret
ignore_ret-Ended c (ret, m, e, h) = (0, m, ap ignore_ret e, h)

module _ {W : Type 0} (k : Kernel W) (p : IsPosix k) (ev_terminate : W → ℕ × W) where
  -- Fuel for every byte and every interruption to come.
  abbrev pub enough_fuel : Bytes → W → ℕ
  enough_fuel src w = length src + p.patience w

  terminate-Ended : (c : Sample W) → Ended c (some (terminate k ev_terminate enough_fuel c))
  unfolding terminate
  terminate-Ended c =
      ((ev_terminate c.world).0, record c { world = (ev_terminate c.world).1 }, refl, kept c)

  written-IsKept :
      (len : ℕ) (r : Written W) (c : Sample W)
      → let m = (written k ev_terminate enough_fuel len r c).1 in
        (IsKept c m × (m.session ≡ c.session))
  unfolding written terminate
  written-IsKept len r c = elim (Bool-cases (r.ret == 0 && r.actual_len == len)) [
    | inl e ↦ rw e (kept c, refl)
    | inr e ↦ rw e (kept c, refl)
  ]

  -- tcp_write returns, and does not touch the session.
  tcp_write-ended :
      (src : Bytes) (c : Sample W)
      → (ret : ℕ) × (m : Sample W) × (tcp_write k ev_terminate enough_fuel src c ≡ some (ret, m))
        × IsKept c m
        × (m.session ≡ c.session)
  unfolding tcp_write write_ended
  tcp_write-ended src c =
      let (r, ends) =
        write_data-Returns k p src c.con c.world (enough_fuel src c.world) (omega arith) in
      let (ret, m) = written k ev_terminate enough_fuel (length src) r c in
      let (h, same) = written-IsKept (length src) r c in
      (ret, m, ap (write_ended k ev_terminate enough_fuel (length src) c) ends, h, same)

  pub tcp_write-Ended :
      (src : Bytes) (c : Sample W) → Ended c (tcp_write k ev_terminate enough_fuel src c)
  tcp_write-Ended src c = let (ret, m, ends, h, same) = tcp_write-ended src c in (ret, m, ends, h)

  tagged :
      (c m : Sample W)
      → IsKept c m
      → m.session ≡ c.session
      → IsKept c (record m { session = insert_tag m.user_tag m.session })
  tagged c m h same =
      (h.0, inr (ap (λ u. insert_tag u.4 m.session) h.0 ∙ ap (insert_tag c.user_tag) same))

  request_sent-Ended :
      (ret : ℕ) (c m : Sample W)
      → IsKept c m
      → m.session ≡ c.session
      → Ended c (request_sent (some (ret, m)))
  unfolding request_sent
  request_sent-Ended zero c m h same = (0, _, refl, tagged c m h same)
  request_sent-Ended (suc ret) c m h same = (suc ret, m, refl, h)

  send_if-Ended :
      (b : Bool) (u : Member) (vs : List Value) (c : Sample W)
      → Ended c (send_if k ev_terminate enough_fuel b u vs c)
  unfolding send_if
  send_if-Ended false u vs c = ended c 0
  send_if-Ended true u vs c =
      let (ret, m, ends, h, same) = tcp_write-ended (binary_frame u vs) c in
      let (ret2, m2, ends2, h2) = request_sent-Ended ret c m h same in
      (ret2, m2, ap request_sent ends ∙ ends2, h2)

  process_a_logoff-Ended : (c : Sample W) → Ended c (process_a_logoff k ev_terminate enough_fuel c)
  unfolding process_a_logoff
  process_a_logoff-Ended c = ignore_ret-Ended c (tcp_write-Ended _ c)

  module _ (cin : Cin W) where
    process_request-Ended :
        (u : Member) (vs : List Value) (c : Sample W)
        → Ended c (process_request k ev_terminate enough_fuel cin u vs c)
    unfolding process_request
    process_request-Ended u vs c =
        send_if-Ended (is_yes (cin.read_char c.world).0) u vs
          (record c { world = (cin.read_char c.world).1 })

    prompt_new_order-Ended :
        (c : Sample W) → Ended c (prompt_new_order k ev_terminate enough_fuel cin c)
    unfolding prompt_new_order process_new_order
    prompt_new_order-Ended c = ignore_ret-Ended c (process_request-Ended _ _ _)

    prompt_modify_order-Ended :
        (c : Sample W) → Ended c (prompt_modify_order k ev_terminate enough_fuel cin c)
    unfolding prompt_modify_order process_modify_order
    prompt_modify_order-Ended c = process_request-Ended _ _ _

    prompt_cancel_order-Ended :
        (c : Sample W) → Ended c (prompt_cancel_order k ev_terminate enough_fuel cin c)
    unfolding prompt_cancel_order process_cancel_order
    prompt_cancel_order-Ended c = ignore_ret-Ended c (process_request-Ended _ _ _)

    prompt_cancel_all_orders-Ended :
        (c : Sample W) → Ended c (prompt_cancel_all_orders k ev_terminate enough_fuel cin c)
    unfolding prompt_cancel_all_orders process_cancel_all_orders
    prompt_cancel_all_orders-Ended c = ignore_ret-Ended c (process_request-Ended _ _ _)

    prompt_modify_leverage-Ended :
        (c : Sample W) → Ended c (prompt_modify_leverage k ev_terminate enough_fuel cin c)
    unfolding prompt_modify_leverage process_modify_leverage
    prompt_modify_leverage-Ended c = ignore_ret-Ended c (process_request-Ended _ _ _)

    prompt_working_orders_request-Ended :
        (c : Sample W) → Ended c (prompt_working_orders_request k ev_terminate enough_fuel cin c)
    unfolding prompt_working_orders_request process_working_orders_request
    prompt_working_orders_request-Ended c = ignore_ret-Ended c (process_request-Ended _ _ _)

    prompt_fills_request-Ended :
        (c : Sample W) → Ended c (prompt_fills_request k ev_terminate enough_fuel cin c)
    unfolding prompt_fills_request process_fills_request
    prompt_fills_request-Ended c = ignore_ret-Ended c (process_request-Ended _ _ _)

    prompt_symbols-Ended :
        (get_instruments : W → W) (c : Sample W)
        → Ended c (prompt_symbols k ev_terminate enough_fuel cin get_instruments c)
    prompt_symbols-Ended get_instruments c =
        (0, record c { world = get_instruments c.world }, refl, kept c)

    -- Over a system whose write does what POSIX says, with fuel for every byte and interruption: every
    -- command of the console, whatever its text and the answers to its questions, returns; it leaves the
    -- framer, the connection to the market data, the connected flag, the count of silent timers and the
    -- client's tag as they were, and the session, too, or puts the client's tag in its set.
    pub console_read-Ended :
        (get_instruments : W → W) (buf : Bytes) (c : Sample W)
        → Ended c (console_read k ev_terminate enough_fuel cin get_instruments buf c)
    unfolding console_read
    console_read-Ended get_instruments buf c =
        if-Ended (is_command b'Q' buf) c (terminate-Ended c) (
          if-Ended (is_command b'1' buf) c (process_a_logoff-Ended c) (
            if-Ended (is_command b'1' buf) c (prompt_new_order-Ended c) (
              if-Ended (is_command b'2' buf) c (prompt_modify_order-Ended c) (
                if-Ended (is_command b'3' buf) c (prompt_cancel_order-Ended c) (
                  if-Ended (is_command b'4' buf) c (prompt_cancel_all_orders-Ended c) (
                    if-Ended (is_command b'5' buf) c (prompt_modify_leverage-Ended c) (
                      if-Ended (is_command b'6' buf) c (prompt_working_orders_request-Ended c) (
                        if-Ended (is_command b'7' buf) c (prompt_fills_request-Ended c) (
                          if-Ended (is_command b'8' buf) c (ended c 0) (
                            if-Ended (is_command b'9' buf) c
                              (prompt_symbols-Ended get_instruments c)
                              (if-Ended (is_command b'1' buf) c (ended c 0) (
                                if-Ended (is_command b'1' buf) c (process_a_logoff-Ended c)
                                  (ended c 0)))))))))))))
