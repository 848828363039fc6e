-- ===== src/Client/Watch.antt =====
-- src/binary_gateway_load_test_client.cpp: a silent gateway ends the client.
use core_connect_binary.Base.{
  ℕ, zero, suc, ◌+◌, ◌≡◌, refl, ap, true, Option, none, some, Bytes, arith, length, ltb,
  if◌then◌else◌, Bool-cases, inl, inr, ◌==◌, ◌&&◌,
}
use core_connect_binary.Kernel.{Kernel}
use core_connect_binary.Tcp.WriteData.{IsPosix, write_data-Returns}
use core_connect_binary.Tcp.Connection.{Written}
use core_connect_binary.Client.Session.{Client}
use core_connect_binary.Client.Sending.{
  terminate, written, write_ended, tcp_write, send_heartbeat, count_idle, process_idle_tmr,
}

module _ {W : Type 0} (k : Kernel W) (p : IsPosix k) (ev_terminate : W → ℕ × W) where
  -- Fuel for every byte and every interruption to come.
  abbrev pub enough_fuel : Bytes → W → ℕ
  enough_fuel src w = length src + p.patience w

  -- `m` is `c` but for the connection, the system and the time of the last write.
  abbrev pub Wrote : Client W → Client W → Type 0
  Wrote c m = record m { con = c.con; world = c.world; tcp_tx_idle_count = c.tcp_tx_idle_count } ≡ c

  written-Wrote :
      (len : ℕ) (r : Written W) (c : Client W)
      → Wrote c (written k ev_terminate enough_fuel len r c).1
  unfolding written terminate
  written-Wrote len r c = elim (Bool-cases (r.ret == 0 && r.actual_len == len)) [
    | inl e ↦ rw e refl
    | inr e ↦ rw e refl
  ]

  -- tcp_write returns.
  pub tcp_write-Wrote :
      (src : Bytes) (c : Client W)
      → (ret : ℕ) × (m : Client W) × (tcp_write k ev_terminate enough_fuel src c ≡ some (ret, m))
        × Wrote c m
  unfolding tcp_write write_ended
  tcp_write-Wrote src c =
      let (r, ends) =
        write_data-Returns k p src c.con c.world (enough_fuel src c.world) (omega arith) in
      let (ret, m) = written k ev_terminate enough_fuel (length src) r c in
      (
        ret,
        m,
        ap (write_ended k ev_terminate enough_fuel (length src) c) ends,
        written-Wrote (length src) r c,
      )

  module _ (heartbeat : Bytes) where
    abbrev idle_then : Option (Client W) → (Client W → Option (Client W)) → Option (Client W)
    idle_then none f = none
    idle_then (some c) f = f c

    -- `n` idle timers in a row.
    abbrev pub idle_timers : ℕ → Client W → Option (Client W)
    idle_timers zero c = some c
    idle_timers (suc n) c =
        idle_then (process_idle_tmr k ev_terminate enough_fuel heartbeat c) (λ d. idle_timers n d)

    -- A timer of a client whose connection is alive: both counters move on, and a heartbeat is sent.
    abbrev pub beat : Client W → Option (Client W)
    beat c = count_idle k ev_terminate enough_fuel (
        send_heartbeat k ev_terminate enough_fuel heartbeat (record c {
          tcp_rx_idle_count = c.tcp_rx_idle_count + 1;
          tcp_tx_idle_count = c.tcp_tx_idle_count + 1;
        }))

    -- `n` of them.
    abbrev pub beats : ℕ → Client W → Option (Client W)
    beats zero c = some c
    beats (suc n) c = idle_then (beat c) (λ d. beats n d)

    -- The timer that ends a client: ev_terminate is called, and nothing is written.
    abbrev pub ended_by_idle : Client W → Client W
    ended_by_idle c = record c {
      tcp_rx_idle_count = c.tcp_rx_idle_count + 1;
      world = (ev_terminate c.world).1;
      idle_count = if ltb 10 (c.idle_count + 1) then 0 else c.idle_count + 1;
    }

    -- The client after a timer that finds the gateway alive.
    abbrev Ticked : Client W → Option (Client W) → Type 0
    Ticked c o =
        (m : Client W) × (o ≡ some m)
        × (m.tcp_connected ≡ true)
        × (m.tcp_rx_idle_count ≡ c.tcp_rx_idle_count + 1)

    -- `n` timers that only beat, and one that ends the client.
    abbrev pub BeatsThenEnds : ℕ → Client W → Type 0
    BeatsThenEnds n c =
        (d : Client W) × (beats n c ≡ some d)
        × (idle_timers n c ≡ some d)
        × (idle_timers (suc n) c ≡ some (ended_by_idle d))
