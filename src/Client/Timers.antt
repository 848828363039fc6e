-- ===== src/Client/Timers.antt =====
-- src/binary_gateway_load_test_client.cpp: the timers that set the size of a batch.
-- The `int`s are numbers; the products `ops * 1000` are below 2^31, as an overflow is undefined in C. The
-- argument of a timer is an `int` product, too: its low 32 bits are kept. What is printed is left out.
use core_connect_binary.Base.{
  ℕ, zero, suc, ◌+◌, ◌-◌, ◌*◌, ◌/◌, ◌%◌, ◌^◌, List, [], ◌∷◌, ◌++◌, ◌==◌, if◌then◌else◌,
}

-- `enum timers`
pub data Timer : Type 0 where
  tmr_idle tmr_load tmr_load_settings_lowops tmr_load_settings_mediumops tmr_load_settings_highops
        tmr_random_no_timer :
      Timer

-- The events of `enum events` that `process_load_settings_tmr` handles.
pub data SettingsEvent : Type 0 where
  load_settings_timer load_settings_timer_lowops load_settings_timer_mediumops
        load_settings_timer_highops :
      SettingsEvent

-- A call of `ev_tmr_add` with a one-shot timer.
pub record TimerCall : Type 0 where
  pub timer : Timer
  pub event : SettingsEvent
  pub usecs : ℕ

-- `LoadSettings`
pub record LoadSettings : Type 0 where
  pub low_ops : ℕ
  pub low_ops_duration : ℕ
  pub low_ops_interval : ℕ
  pub medium_ops : ℕ
  pub medium_ops_duration : ℕ
  pub medium_ops_interval : ℕ
  pub high_ops : ℕ
  pub high_ops_duration : ℕ
  pub high_ops_interval : ℕ

-- `objLoadSettings`, with its timer states apart from its settings, the members of the client that the
-- timers use, and the timers that were asked for.
pub record Load : Type 0 where
  pub settings : LoadSettings
  pub low_timer_state : ℕ
  pub medium_timer_state : ℕ
  pub high_timer_state : ℕ
  pub number_in_batch : ℕ
  pub tmr_interval_msecs : ℕ
  pub timers : List TimerCall

-- `ops * 1000 / m_TmrIntervalMsecs`
abbrev pub per_batch : ℕ → Load → ℕ
per_batch ops l = ops * 1000 / l.tmr_interval_msecs

-- `ev_tmr_add(timer, event, secs * 1000, ev_tmr_type_oneshot)`: its result is only printed.
unfoldable pub tmr_add : Timer → SettingsEvent → ℕ → Load → Load
tmr_add timer event secs l = record l {
  timers = l.timers ++ record { timer = timer; event = event; usecs = secs * 1000 % 2 ^ 32 } ∷ [];
}

-- The size of the batch is set if neither of the other two states is on.
unfoldable pub low_batch : ℕ → ℕ → Load → Load
low_batch zero zero l = record l { number_in_batch = per_batch (let s = l.settings in s.low_ops) l }
low_batch zero (suc high) l = l
low_batch (suc medium) high l = l

-- `case ev_load_settings_timer_lowops`, on the three states.
unfoldable pub low_elapsed : ℕ → ℕ → ℕ → Load → Load
low_elapsed zero medium high l =
    tmr_add tmr_load_settings_lowops load_settings_timer_lowops
      (let s = l.settings in s.low_ops_duration)
      (low_batch medium high (record l { low_timer_state = 1 }))
low_elapsed (suc zero) medium high l =
    tmr_add tmr_load_settings_lowops load_settings_timer_lowops
      (let s = l.settings in s.low_ops_interval) l
low_elapsed (suc (suc n)) medium high l = l

unfoldable pub low_timer : Load → Load
low_timer l = record (low_elapsed l.low_timer_state l.medium_timer_state l.high_timer_state l) {
  low_timer_state = 0;
}

-- The size of the batch is set if the third state is off.
unfoldable pub batch_unless_high : ℕ → ℕ → Load → Load
batch_unless_high zero ops l = record l { number_in_batch = per_batch ops l }
batch_unless_high (suc high) ops l = l

-- `case ev_load_settings_timer_mediumops`, on the second and the third state.
unfoldable pub medium_elapsed : ℕ → ℕ → Load → Load
medium_elapsed zero high l =
    tmr_add tmr_load_settings_mediumops load_settings_timer_mediumops
      (let s = l.settings in s.medium_ops_duration)
      (batch_unless_high high (let s = l.settings in s.medium_ops)
        (record l { medium_timer_state = 1 }))
medium_elapsed (suc zero) high l =
    tmr_add tmr_load_settings_mediumops load_settings_timer_mediumops
      (let s = l.settings in s.medium_ops_interval)
      (batch_unless_high high (let s = l.settings in s.low_ops)
        (record l { medium_timer_state = 0 }))
medium_elapsed (suc (suc n)) high l = l

unfoldable pub medium_timer : Load → Load
medium_timer l = medium_elapsed l.medium_timer_state l.high_timer_state l

-- `case ev_load_settings_timer_highops`, on the second and the third state.
unfoldable pub high_elapsed : ℕ → ℕ → Load → Load
high_elapsed medium zero l =
    tmr_add tmr_load_settings_highops load_settings_timer_highops
      (let s = l.settings in s.high_ops_duration)
      (record l {
        high_timer_state = 1;
        number_in_batch = per_batch (let s = l.settings in s.high_ops) l;
      })
high_elapsed medium (suc zero) l =
    tmr_add tmr_load_settings_highops load_settings_timer_highops
      (let s = l.settings in s.high_ops_interval)
      (record l {
        high_timer_state = 0;
        number_in_batch =
            per_batch (let s = l.settings in if medium == 1 then s.medium_ops else s.low_ops) l;
      })
high_elapsed medium (suc (suc n)) l = l

unfoldable pub high_timer : Load → Load
high_timer l = high_elapsed l.medium_timer_state l.high_timer_state l

unfoldable pub process_load_settings_tmr : SettingsEvent → Load → Load
process_load_settings_tmr load_settings_timer l = l
process_load_settings_tmr load_settings_timer_lowops l = low_timer l
process_load_settings_tmr load_settings_timer_mediumops l = medium_timer l
process_load_settings_tmr load_settings_timer_highops l = high_timer l

unfoldable pub fsm_settings_highops : Load → Load
fsm_settings_highops l = process_load_settings_tmr load_settings_timer_highops l

unfoldable pub fsm_settings_mediumops : Load → Load
fsm_settings_mediumops l =
    fsm_settings_highops (process_load_settings_tmr load_settings_timer_mediumops l)

unfoldable pub fsm_settings_lowops : Load → Load
fsm_settings_lowops l =
    fsm_settings_mediumops (process_load_settings_tmr load_settings_timer_lowops l)

-- The cases of `fsm_initialise`, which fall through as there is no `break` between them.
unfoldable pub fsm_settings : SettingsEvent → Load → Load
fsm_settings load_settings_timer l =
    fsm_settings_lowops (process_load_settings_tmr load_settings_timer l)
fsm_settings load_settings_timer_lowops l = fsm_settings_lowops l
fsm_settings load_settings_timer_mediumops l = fsm_settings_mediumops l
fsm_settings load_settings_timer_highops l = fsm_settings_highops l

-- `process_random_no`, on the number that `rand()` gives.
unfoldable pub process_random_no : ℕ → Load → Load
process_random_no random l =
    let number = random % 100 in
    let ten_percent = l.number_in_batch / 20 in
    record l {
      number_in_batch =
          if number % 2 == 0
          then l.number_in_batch - ten_percent
          else l.number_in_batch + ten_percent;
    }
