-- ===== src/Client/Loaded.antt =====
-- src/binary_gateway_load_test_client.cpp: the load levels from the command that starts a test on.
use core_connect_binary.Base.{ℕ, ◌≡◌, refl, ap, Bool, true, false, none, ltb, List, arith}
use core_connect_binary.Client.Json.{Json, int_or, member_or}
use core_connect_binary.Client.Timers.{Timer, SettingsEvent, LoadSettings, Load, tmr_add}
use core_connect_binary.Client.Levels.{Active, fsm_run, medium_run, high_run, fsm_run-Active}
use core_connect_binary.Client.Setup.{
  start_if, start_levels, batch_of, interval_of, uses_sop, settings_of, load_of,
}

start_if-Active :
    (b : Bool) (t : Timer) (e : SettingsEvent) (secs : ℕ) (medium high : Bool) (s : LoadSettings)
    (msecs : ℕ) (l : Load)
    → Active medium high s msecs l
    → Active medium high s msecs (start_if b t e secs l)
unfolding start_if tmr_add
start_if-Active false t e secs medium high s msecs l a = a
start_if-Active true t e secs medium high s msecs l a = record {
  low_off = a.low_off;
  medium_on = a.medium_on;
  high_on = a.high_on;
  same_settings = a.same_settings;
  same_interval = a.same_interval;
  batch = a.batch;
}

start_levels-Active :
    (b : Bool) (s : LoadSettings) (medium high : Bool) (msecs : ℕ) (l : Load)
    → Active medium high s msecs l
    → Active medium high s msecs (start_levels b s l)
unfolding start_levels
start_levels-Active false s medium high msecs l a = a
start_levels-Active true s medium high msecs l a =
    start_if-Active (ltb 0 s.medium_ops_interval) _ _ s.high_ops_interval medium high s msecs _ (
      start_if-Active (ltb 0 s.medium_ops_interval) _ _ s.medium_ops_interval medium high s msecs _
        (start_if-Active (ltb 0 s.low_ops_interval) _ _ s.low_ops_interval medium high s msecs l a))

module _ {D V : Type 0} (j : Json D V) where
  low_ops_default :
      (doc : D)
      → j.find_member doc "LowOps" ≡ none
      → (let s = settings_of j doc in s.low_ops) ≡ batch_of j doc
  unfolding settings_of member_or
  low_ops_default doc e = ap (int_or j (batch_of j doc)) e

  -- When the three timer states are off, and the document of the command has no LowOps and an interval of
  -- 1000 milliseconds, given or by default: after the command and any sequence of the events of the load
  -- settings, the second state has been switched by each of them but those of the high timer, the third by
  -- each, the first is off, the settings are those of the document, and the batch has the size of the
  -- highest level that is on.
  pub load_of-Active :
      (doc : D) (l : Load) (es : List SettingsEvent)
      → l.low_timer_state ≡ 0
      → l.medium_timer_state ≡ 0
      → l.high_timer_state ≡ 0
      → j.find_member doc "LowOps" ≡ none
      → interval_of j doc ≡ 1000
      → Active
          (medium_run es false)
          (high_run es false)
          (settings_of j doc)
          1000
          (fsm_run es (load_of j doc l))
  unfolding load_of
  load_of-Active doc l es low medium high absent second =
      fsm_run-Active es false false (settings_of j doc) 1000 _ (
        start_levels-Active (uses_sop j doc) (settings_of j doc) false false 1000 _ (record {
          low_off = low;
          medium_on = medium;
          high_on = high;
          same_settings = refl;
          same_interval = second;
          batch = omega (arith, low_ops_default doc absent);
        }))
