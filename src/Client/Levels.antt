-- ===== src/Client/Levels.antt =====
-- src/binary_gateway_load_test_client.cpp: the timers and the size of a batch.
use core_connect_binary.Base.{
  ℕ, ◌*◌, ◌/◌, ◌≡◌, refl, sym, ap, subst, ◌∙◌, Bool, true, false, not, List, [], ◌∷◌,
}
use core_connect_binary.Client.Timers.{
  SettingsEvent, load_settings_timer, load_settings_timer_lowops, load_settings_timer_mediumops,
  load_settings_timer_highops, LoadSettings, Load, tmr_add, low_batch, low_elapsed, low_timer,
  batch_unless_high, medium_elapsed, medium_timer, high_elapsed, high_timer,
  process_load_settings_tmr, fsm_settings, fsm_settings_lowops, fsm_settings_mediumops,
  fsm_settings_highops,
}

abbrev pub number : Bool → ℕ
number true = 1
number false = 0

-- The operations of the highest level that is on.
abbrev pub level : Bool → Bool → LoadSettings → ℕ
level medium true s = s.high_ops
level true false s = s.medium_ops
level false false s = s.low_ops

-- The states of the timers, and a batch of the size of the level that they mean.
pub record Active (medium high : Bool) (s : LoadSettings) (msecs : ℕ) (l : Load) : Type 0 where
  pub low_off : l.low_timer_state ≡ 0
  pub medium_on : l.medium_timer_state ≡ number medium
  pub high_on : l.high_timer_state ≡ number high
  pub same_settings : l.settings ≡ s
  pub same_interval : l.tmr_interval_msecs ≡ msecs
  pub batch : l.number_in_batch ≡ level medium high s * 1000 / msecs

same_batch : (msecs : ℕ) {i x y : ℕ} → i ≡ msecs → x ≡ y → x * 1000 / i ≡ y * 1000 / msecs
same_batch msecs {i} {x} {y} ei e = ap (λ n. x * 1000 / n) ei ∙ ap (λ o. o * 1000 / msecs) e

low_elapsed-Active :
    (medium high : Bool) (s : LoadSettings) (msecs : ℕ) (l : Load)
    → Active medium high s msecs l
    → Active medium high s msecs
        (record (low_elapsed 0 (number medium) (number high) l) { low_timer_state = 0 })
unfolding low_elapsed low_batch tmr_add
low_elapsed-Active true high s msecs l a = record {
  low_off = refl;
  medium_on = a.medium_on;
  high_on = a.high_on;
  same_settings = a.same_settings;
  same_interval = a.same_interval;
  batch = a.batch;
}
low_elapsed-Active false true s msecs l a = record {
  low_off = refl;
  medium_on = a.medium_on;
  high_on = a.high_on;
  same_settings = a.same_settings;
  same_interval = a.same_interval;
  batch = a.batch;
}
low_elapsed-Active false false s msecs l a = record {
  low_off = refl;
  medium_on = a.medium_on;
  high_on = a.high_on;
  same_settings = a.same_settings;
  same_interval = a.same_interval;
  batch = same_batch msecs a.same_interval (ap (λ t. t.low_ops) a.same_settings);
}

low_timer-Active :
    (medium high : Bool) (s : LoadSettings) (msecs : ℕ) (l : Load)
    → Active medium high s msecs l
    → Active medium high s msecs (low_timer l)
unfolding low_timer
low_timer-Active medium high s msecs l a =
    subst
      (λ n.
        Active medium high s msecs
          (record (low_elapsed n l.medium_timer_state l.high_timer_state l) {
            low_timer_state = 0;
          }))
      (sym a.low_off)
      (subst
        (λ n.
          Active medium high s msecs
            (record (low_elapsed 0 n l.high_timer_state l) { low_timer_state = 0 }))
        (sym a.medium_on)
        (subst
          (λ n.
            Active medium high s msecs
              (record (low_elapsed 0 (number medium) n l) { low_timer_state = 0 }))
          (sym a.high_on) (low_elapsed-Active medium high s msecs l a)))

medium_elapsed-Active :
    (medium high : Bool) (s : LoadSettings) (msecs : ℕ) (l : Load)
    → Active medium high s msecs l
    → Active (not medium) high s msecs (medium_elapsed (number medium) (number high) l)
unfolding medium_elapsed batch_unless_high tmr_add
medium_elapsed-Active true true s msecs l a = record {
  low_off = a.low_off;
  medium_on = refl;
  high_on = a.high_on;
  same_settings = a.same_settings;
  same_interval = a.same_interval;
  batch = a.batch;
}
medium_elapsed-Active false true s msecs l a = record {
  low_off = a.low_off;
  medium_on = refl;
  high_on = a.high_on;
  same_settings = a.same_settings;
  same_interval = a.same_interval;
  batch = a.batch;
}
medium_elapsed-Active true false s msecs l a = record {
  low_off = a.low_off;
  medium_on = refl;
  high_on = a.high_on;
  same_settings = a.same_settings;
  same_interval = a.same_interval;
  batch = same_batch msecs a.same_interval (ap (λ t. t.low_ops) a.same_settings);
}
medium_elapsed-Active false false s msecs l a = record {
  low_off = a.low_off;
  medium_on = refl;
  high_on = a.high_on;
  same_settings = a.same_settings;
  same_interval = a.same_interval;
  batch = same_batch msecs a.same_interval (ap (λ t. t.medium_ops) a.same_settings);
}

medium_timer-Active :
    (medium high : Bool) (s : LoadSettings) (msecs : ℕ) (l : Load)
    → Active medium high s msecs l
    → Active (not medium) high s msecs (medium_timer l)
unfolding medium_timer
medium_timer-Active medium high s msecs l a =
    subst (λ n. Active (not medium) high s msecs (medium_elapsed n l.high_timer_state l))
      (sym a.medium_on)
      (subst (λ n. Active (not medium) high s msecs (medium_elapsed (number medium) n l))
        (sym a.high_on) (medium_elapsed-Active medium high s msecs l a))

high_elapsed-Active :
    (medium high : Bool) (s : LoadSettings) (msecs : ℕ) (l : Load)
    → Active medium high s msecs l
    → Active medium (not high) s msecs (high_elapsed (number medium) (number high) l)
unfolding high_elapsed tmr_add
high_elapsed-Active medium false s msecs l a = record {
  low_off = a.low_off;
  medium_on = a.medium_on;
  high_on = refl;
  same_settings = a.same_settings;
  same_interval = a.same_interval;
  batch = same_batch msecs a.same_interval (ap (λ t. t.high_ops) a.same_settings);
}
high_elapsed-Active true true s msecs l a = record {
  low_off = a.low_off;
  medium_on = a.medium_on;
  high_on = refl;
  same_settings = a.same_settings;
  same_interval = a.same_interval;
  batch = same_batch msecs a.same_interval (ap (λ t. t.medium_ops) a.same_settings);
}
high_elapsed-Active false true s msecs l a = record {
  low_off = a.low_off;
  medium_on = a.medium_on;
  high_on = refl;
  same_settings = a.same_settings;
  same_interval = a.same_interval;
  batch = same_batch msecs a.same_interval (ap (λ t. t.low_ops) a.same_settings);
}

high_timer-Active :
    (medium high : Bool) (s : LoadSettings) (msecs : ℕ) (l : Load)
    → Active medium high s msecs l
    → Active medium (not high) s msecs (high_timer l)
unfolding high_timer
high_timer-Active medium high s msecs l a =
    subst (λ n. Active medium (not high) s msecs (high_elapsed n l.high_timer_state l))
      (sym a.medium_on)
      (subst (λ n. Active medium (not high) s msecs (high_elapsed (number medium) n l))
        (sym a.high_on) (high_elapsed-Active medium high s msecs l a))

-- What an event does to the second state; the third it always switches.
abbrev pub medium_after : SettingsEvent → Bool → Bool
medium_after load_settings_timer medium = not medium
medium_after load_settings_timer_lowops medium = not medium
medium_after load_settings_timer_mediumops medium = not medium
medium_after load_settings_timer_highops medium = medium

fsm_settings-Active :
    (e : SettingsEvent) (medium high : Bool) (s : LoadSettings) (msecs : ℕ) (l : Load)
    → Active medium high s msecs l
    → Active (medium_after e medium) (not high) s msecs (fsm_settings e l)
unfolding fsm_settings fsm_settings_lowops fsm_settings_mediumops fsm_settings_highops
    process_load_settings_tmr
fsm_settings-Active load_settings_timer medium high s msecs l a =
    high_timer-Active (not medium) high s msecs _
      (medium_timer-Active medium high s msecs _ (low_timer-Active medium high s msecs l a))
fsm_settings-Active load_settings_timer_lowops medium high s msecs l a =
    high_timer-Active (not medium) high s msecs _
      (medium_timer-Active medium high s msecs _ (low_timer-Active medium high s msecs l a))
fsm_settings-Active load_settings_timer_mediumops medium high s msecs l a =
    high_timer-Active (not medium) high s msecs _ (medium_timer-Active medium high s msecs l a)
fsm_settings-Active load_settings_timer_highops medium high s msecs l a =
    high_timer-Active medium high s msecs l a

abbrev pub fsm_run : List SettingsEvent → Load → Load
fsm_run [] l = l
fsm_run (e ∷ es) l = fsm_run es (fsm_settings e l)

abbrev pub medium_run : List SettingsEvent → Bool → Bool
medium_run [] medium = medium
medium_run (e ∷ es) medium = medium_run es (medium_after e medium)

abbrev pub high_run : List SettingsEvent → Bool → Bool
high_run [] high = high
high_run (e ∷ es) high = high_run es (not high)

-- From a state of the timers with the batch of its level: after any sequence of the events of the load
-- settings, the third state has been switched by each of them, the second by each but those of the high
-- timer, the first is off, and the batch has the size of the highest level that is on.
pub fsm_run-Active :
    (es : List SettingsEvent) (medium high : Bool) (s : LoadSettings) (msecs : ℕ) (l : Load)
    → Active medium high s msecs l
    → Active (medium_run es medium) (high_run es high) s msecs (fsm_run es l)
fsm_run-Active [] medium high s msecs l a = a
fsm_run-Active (e ∷ es) medium high s msecs l a =
    fsm_run-Active es (medium_after e medium) (not high) s msecs (fsm_settings e l)
      (fsm_settings-Active e medium high s msecs l a)
