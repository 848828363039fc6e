-- ===== src/Sample/Steps.antt =====
-- src/sample_test_client_moonx.cpp: what the handlers do to the framer.
use core_connect_binary.Base.{
  ℕ, ◌<◌, ◌+◌, ◌≡◌, refl, sym, ap, subst, ◌∙◌, Bool, true, false, Option, some, Bytes, arith,
  Bool-cases, inl, inr, ◌==◌, ltb, leb, ignore_ret,
}
use core_connect_binary.Base.Int.{pos}
use core_connect_binary.Kernel.{Kernel}
use core_connect_binary.Framer.Defs.{GenericFramer}
use core_connect_binary.Framer.Variants.{parse_raw_rx_data1}
use core_connect_binary.Framer.Streams.{IsFramer, parse_raw_rx_data-some, parse_raw_rx_data_lem}
use core_connect_binary.Tcp.Errors.{e_tcp_would_block}
use core_connect_binary.Tcp.Connection.{read_data}
use core_connect_binary.Tcp.WriteData.{IsPosix}
use core_connect_binary.Sample.Session.{Session, Sample}
use core_connect_binary.Sample.Sending.{
  terminate, tcp_write, send_heartbeat, watch_tx, watch_rx, watch, count_idle, process_idle_tmr,
}
use core_connect_binary.Sample.Receiving.{
  process_rx_frame, read_failed, parse_ended, parsed, read_ended, tcp_read, tcp_read_mdg,
}
use core_connect_binary.Sample.Returns.{enough_fuel, Ended, tcp_write-Ended}

-- A valid framer with the client's two streams.
abbrev pub IsReady : ℕ → GenericFramer → Type 0
IsReady max f = IsFramer max f × (f.number_of_streams ≡ 2)

-- A handler came to its end, with such a framer.
abbrev pub Done : {W : Type 0} → ℕ → Option (ℕ × Sample W) → Type 0
Done {W} max o = (ret : ℕ) × (m : Sample W) × (o ≡ some (ret, m)) × IsReady max m.framer

-- It left the framer as it was.
abbrev pub Same : {W : Type 0} → GenericFramer → Option (ℕ × Sample W) → Type 0
Same {W} f o = (ret : ℕ) × (m : Sample W) × (o ≡ some (ret, m)) × (m.framer ≡ f)

pub Done-Same :
    {W : Type 0} (max : ℕ) (f : GenericFramer) (o : Option (ℕ × Sample W))
    → IsReady max f
    → Same f o
    → Done max o
Done-Same max f o v (ret, m, e, same) = (ret, m, e, subst (IsReady max) (sym same) v)

pub Same-Ended :
    {W : Type 0} (c : Sample W) (o : Option (ℕ × Sample W)) → Ended c o → Same c.framer o
Same-Ended c o (ret, m, e, h) = (ret, m, e, ap (λ u. u.0) h.0)

module _ (behind : Bytes) (max : ℕ) where
  pub parse-IsReady :
      (stream : ℕ) (f : GenericFramer) (s : Session) (bytes : Bytes)
      → stream < 2
      → IsReady max f
      → IsReady max (parse_raw_rx_data1 (process_rx_frame behind) stream f s bytes).1
  parse-IsReady stream f s bytes lt (v, two) =
      let fits : stream < f.number_of_streams = omega (arith, lt, two) in
      let (sc, sc', e, after, seen, others, valid) =
        parse_raw_rx_data_lem (process_rx_frame behind) 0 stream max f s bytes v fits in
      (
        valid,
        ap (λ t. t.1.number_of_streams)
              (parse_raw_rx_data-some (process_rx_frame behind) 0 stream f s bytes fits e)
            ∙ two,
      )

  module _ {W : Type 0} (k : Kernel W) (ev_terminate : W → ℕ × W) where
    parse_ended-framer :
        (t : ℕ × GenericFramer × Session) (c : Sample W)
        → (parse_ended behind k ev_terminate t c).1.framer ≡ t.1
    unfolding parse_ended read_failed
    parse_ended-framer t c = elim (Bool-cases (t.0 == 0)) [ inl e ↦ rw e refl | inr e ↦ rw e refl ]

    read_ended-IsReady :
        (stream ret : ℕ) (bytes : Bytes) (c : Sample W)
        → stream < 2
        → IsReady max c.framer
        → IsReady max (read_ended behind k ev_terminate stream ret bytes c).1.framer
    unfolding read_ended parsed read_failed
    read_ended-IsReady stream ret bytes c lt v = elim (Bool-cases (ret == 0)) [
      | inl e ↦ rw e (
          subst (IsReady max)
            (sym (
              parse_ended-framer
                (parse_raw_rx_data1 (process_rx_frame behind) stream c.framer c.session bytes)
                (record c { tcp_rx_idle_count = 0 })))
            (parse-IsReady stream c.framer c.session bytes lt v))
      | inr e ↦ elim (Bool-cases (ret == e_tcp_would_block)) [
        | inl b ↦ rw (e, b) v
        | inr b ↦ rw (e, b) v
      ]
    ]

    pub tcp_read-IsReady :
        (c : Sample W)
        → IsReady max c.framer
        → IsReady max (tcp_read behind k ev_terminate c).1.framer
    unfolding tcp_read
    tcp_read-IsReady c v =
        let (ret, len, bytes, con, w) = read_data k false (pos 32768) c.con c.world in
        read_ended-IsReady 0 ret bytes (record c { con = con; world = w }) (omega arith) v

    pub tcp_read_mdg-IsReady :
        (c : Sample W)
        → IsReady max c.framer
        → IsReady max (tcp_read_mdg behind k ev_terminate c).1.framer
    unfolding tcp_read_mdg
    tcp_read_mdg-IsReady c v =
        let (ret, len, bytes, con, w) = read_data k false (pos 32768) c.mdg_con c.world in
        read_ended-IsReady 1 ret bytes (record c { mdg_con = con; world = w }) (omega arith) v

module _ {W : Type 0} (k : Kernel W) (p : IsPosix k) (ev_terminate : W → ℕ × W) where
  abbrev fuel : Bytes → W → ℕ
  fuel = enough_fuel k p ev_terminate

  pub ignored-Same :
      (src : Bytes) (c : Sample W)
      → Same c.framer (ignore_ret (tcp_write k ev_terminate fuel src c))
  unfolding ignore_ret
  ignored-Same src c =
      let (ret, m, e, same) = Same-Ended c _ (tcp_write-Ended k p ev_terminate src c) in
      (0, m, ap ignore_ret e, same)

  watch_tx-Same : (b : Bool) (c : Sample W) → Same c.framer (watch_tx k ev_terminate fuel b c)
  unfolding watch_tx send_heartbeat
  watch_tx-Same true c = ignored-Same _ c
  watch_tx-Same false c = (0, c, refl, refl)

  watch_rx-Same : (b : Bool) (c : Sample W) → Same c.framer (watch_rx k ev_terminate fuel b c)
  unfolding watch_rx terminate
  watch_rx-Same true c = (_, record c { world = (ev_terminate c.world).1 }, refl, refl)
  watch_rx-Same false c =
      watch_tx-Same (leb 1 (c.tcp_tx_idle_count + 1))
        (record c { tcp_tx_idle_count = c.tcp_tx_idle_count + 1 })

  watch-Same : (b : Bool) (c : Sample W) → Same c.framer (watch k ev_terminate fuel b c)
  unfolding watch
  watch-Same false c = (0, c, refl, refl)
  watch-Same true c =
      watch_rx-Same (ltb 6 (c.tcp_rx_idle_count + 1))
        (record c { tcp_rx_idle_count = c.tcp_rx_idle_count + 1 })

  pub idle-Same : (c : Sample W) → Same c.framer (process_idle_tmr k ev_terminate fuel c)
  unfolding process_idle_tmr count_idle
  idle-Same c =
      let (ret, m, e, same) = watch-Same c.tcp_connected c in
      (0, _, ap (count_idle k ev_terminate fuel) e, same)
