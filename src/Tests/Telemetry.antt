-- ===== src/Tests/Telemetry.antt =====
-- The theorems on the alarms of apps/api/app/modules/telemetry at concrete inputs.
use digital_twin.Prelude.{ℕ, none, some, [], ◌∷◌, ◌≡◌, refl, arith}
use digital_twin.Prelude.Result.{ok}
use digital_twin.Ingest.AlarmEngine.{AlarmData, threshold_text, above}
use digital_twin.Telemetry.Alarms.{
  Alarm, Db, Status, active, shelved, shelve, unshelve, ActionCreate, raise_alarm, perform_action,
  change, find, save, active_for_rule_and_asset, get_or_404,
}
use digital_twin.Telemetry.Alarms.Live.{
  live_count, HasOneLive, raise_alarm-HasOneLive, perform_action-HasOneLive,
}

abbrev detail : AlarmData ℕ
detail = record {
  rule_id = 7;
  asset_id = 3;
  sensor_id = 5;
  severity = 2;
  text = threshold_text "temp" above 90 80;
  value = 90;
  threshold = 80;
}

abbrev alarm : ℕ → Status → Alarm ℕ
alarm i s = record {
  id = i;
  detail = detail;
  status = s;
  acknowledged_by = none;
  acknowledged_at = none;
  assigned_to = none;
  shelved_until = none;
  cleared_at = none;
}

abbrev one_alarm : Db ℕ
one_alarm = record { alarms = alarm 1 active ∷ []; next_id = 2; log = [] }

one_alarm-HasOneLive : HasOneLive one_alarm
unfolding live_count
one_alarm-HasOneLive r s = ground arith

raise_alarm-HasOneLive_example :
    HasOneLive (raise_alarm detail one_alarm).1
    × ((raise_alarm detail one_alarm).0 ≡ none → (raise_alarm detail one_alarm).1 ≡ one_alarm)
raise_alarm-HasOneLive_example = raise_alarm-HasOneLive detail one_alarm one_alarm-HasOneLive

abbrev to_shelve : ActionCreate
to_shelve = record { action = shelve; assigned_to = none; shelve_for = some 60 }

abbrev shelved_alarm : Alarm ℕ
shelved_alarm = record {
  id = 1;
  detail = detail;
  status = shelved;
  acknowledged_by = none;
  acknowledged_at = none;
  assigned_to = none;
  shelved_until = some 1060;
  cleared_at = none;
}

abbrev after_shelving : Db ℕ
after_shelving = record { alarms = shelved_alarm ∷ []; next_id = 2; log = (shelve, 1) ∷ [] }

shelving : perform_action 1 to_shelve 1000 one_alarm ≡ ok (shelved_alarm, after_shelving)
unfolding perform_action change find save get_or_404
shelving = refl

perform_action-HasOneLive_example : HasOneLive after_shelving
perform_action-HasOneLive_example =
    perform_action-HasOneLive 1 to_shelve 1000 one_alarm after_shelving shelved_alarm (cc) shelving
      one_alarm-HasOneLive

-- while alarm 1 was shelved, alarm 2 was raised
abbrev one_shelved : Db ℕ
one_shelved = record { alarms = alarm 1 shelved ∷ alarm 2 active ∷ []; next_id = 3; log = [] }

abbrev to_unshelve : ActionCreate
to_unshelve = record { action = unshelve; assigned_to = none; shelve_for = none }

abbrev after_unshelving : Db ℕ
after_unshelving = record {
  alarms = alarm 1 active ∷ alarm 2 active ∷ [];
  next_id = 3;
  log = (unshelve, 1) ∷ [];
}

unshelving : perform_action 1 to_unshelve 1000 one_shelved ≡ ok (alarm 1 active, after_unshelving)
unfolding perform_action change find save get_or_404
unshelving = refl

first_found : find 1 one_shelved.alarms ≡ some (alarm 1 shelved)
unfolding find
first_found = refl

second_live : active_for_rule_and_asset 7 3 one_shelved.alarms ≡ some (alarm 2 active)
unfolding active_for_rule_and_asset
second_live = refl
