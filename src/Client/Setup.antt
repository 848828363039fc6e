-- ===== src/Client/Setup.antt =====
-- src/binary_gateway_load_test_client.cpp: the command that starts a load test. The `int`s of the document
-- are not negative.
use core_connect_binary.Base.{
  ℕ, ◌*◌, ◌%◌, ◌^◌, Bool, true, false, not, Option, none, some, ltb, ◌==◌, Bytes,
}
use core_connect_binary.Client.Json.{Json, member_or, document}
use core_connect_binary.Client.Session.{Client}
use core_connect_binary.Client.Timers.{
  Timer, tmr_load_settings_lowops, tmr_load_settings_mediumops, tmr_load_settings_highops,
  SettingsEvent, load_settings_timer_lowops, load_settings_timer_mediumops,
  load_settings_timer_highops, LoadSettings, Load, tmr_add,
}

-- A timer for a positive interval.
unfoldable pub start_if : Bool → Timer → SettingsEvent → ℕ → Load → Load
start_if true timer event secs l = tmr_add timer event secs l
start_if false timer event secs l = l

-- The timers of the three levels; that of the high level starts with that of the medium one.
unfoldable pub start_levels : Bool → LoadSettings → Load → Load
start_levels false s l = l
start_levels true s l =
    let low =
      start_if (ltb 0 s.low_ops_interval) tmr_load_settings_lowops load_settings_timer_lowops
        s.low_ops_interval l in
    let medium =
      start_if (ltb 0 s.medium_ops_interval) tmr_load_settings_mediumops
        load_settings_timer_mediumops s.medium_ops_interval low in
    start_if (ltb 0 s.medium_ops_interval) tmr_load_settings_highops load_settings_timer_highops
      s.high_ops_interval medium

-- `24 * 60 * 60 * 1000`
abbrev pub a_day : ℕ
a_day = 86400000

module _ {D V : Type 0} (j : Json D V) where
  unfoldable pub batch_of : D → ℕ
  batch_of doc = member_or j 1 "NumberInBatch" doc

  unfoldable pub interval_of : D → ℕ
  interval_of doc = member_or j 1000 "TmrIntervalMsecs" doc

  -- `m_bUseSop == 1`, of a number stored in a `bool`.
  unfoldable pub uses_sop : D → Bool
  uses_sop doc = not (member_or j 1 "UseSOP" doc == 0)

  unfoldable pub settings_of : D → LoadSettings
  settings_of doc = record {
    low_ops = member_or j (batch_of doc) "LowOps" doc;
    low_ops_duration = member_or j a_day "LowOpsDuration" doc;
    low_ops_interval = member_or j a_day "LowOpsInterval" doc;
    medium_ops = member_or j 50000 "MediumOps" doc;
    medium_ops_duration = member_or j 30 "MediumOpsDuration" doc;
    medium_ops_interval = member_or j 30 "MediumOpsInterval" doc;
    high_ops = member_or j 200000 "HighOps" doc;
    high_ops_duration = member_or j 15 "HighOpsDuration" doc;
    high_ops_interval = member_or j 15 "HighOpsInterval" doc;
  }

  -- The states of the timers stay as they were.
  unfoldable pub load_of : D → Load → Load
  load_of doc l = start_levels (uses_sop doc) (settings_of doc) (record l {
    settings = settings_of doc;
    number_in_batch = batch_of doc;
    tmr_interval_msecs = interval_of doc;
  })

  module _ {W : Type 0} (tmr_load_add : ℕ → W → ℕ × W) where
    unfoldable pub set_up : D → Client W → Client W
    set_up doc c = record c {
      number_to_send = member_or j 1 "NumberToSend" doc;
      number_users = member_or j 1 "NumberUsers" doc;
      start_user_id = member_or j 1 "StartUserID" doc;
      user_tag = member_or j 1 "UserTag" doc;
      load = load_of doc c.load;
      counter = 0;
      world = (tmr_load_add (interval_of doc * 1000 % 2 ^ 32) c.world).1;
    }

    unfoldable pub set_up_if : Option D → Client W → Client W
    set_up_if none c = c
    set_up_if (some doc) c = set_up doc c

    unfoldable pub process_a_new_order : Bytes → Client W → Client W
    process_a_new_order buf c = set_up_if (document j buf) c
