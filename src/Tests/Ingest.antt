-- ===== src/Tests/Ingest.antt =====
-- The theorems on apps/api/app/ingest at concrete inputs.
use text.Mathlib.Text.{◌==◌ as str_eq}
use digital_twin.Prelude.{
  ℕ, zero, suc, String, true, false, Option, none, some, List, [], ◌∷◌, ◌++◌, map, length, ◌≡◌,
  refl, arith, if◌then◌else◌, ◌*◌,
}
use digital_twin.Prelude.Floats.{whole}
use digital_twin.Contracts.Topic.{codes}
use digital_twin.Ingest.EdgePredictions.{Message, State, Known, process, run as process_all}
use digital_twin.Ingest.EdgePredictions.Replay.{IsUnique, stored_once}
use digital_twin.Ingest.AlarmEngine.{
  Rule, threshold_kind, AlarmData, History, threshold_text, above, evaluate_threshold, exceeds,
  evaluate_adaptive, judge, window_samples,
}
use digital_twin.Ingest.AlarmEngine.Rolling.{after, newest, verdict_on_window}
use digital_twin.Ingest.Counters.{Counter, good_count, reject_count, Previous}
use digital_twin.Ingest.Consumer.{TelemetryRow, Consumer, blocked, null, number, string, as_float}
use digital_twin.Ingest.Consumer.States.{reports, of_asset, changes, events-changes}
use digital_twin.Ingest.Consumer.Message.{
  Payload, converted, both, metric_time, quality_or_good, Env, process_payload, is_null, bare_name,
  is_asset_metric, info_of, first_some, has_dot, last_part,
}
use digital_twin.Ingest.Consumer.Message.Rows.{
  row_if, raises_if, raises, is_telemetry, rows_of, process_payload-blocks,
}

abbrev rule : Rule ℕ
rule = record {
  id = 7;
  kind = threshold_kind;
  severity = 2;
  params = record { high = some 80; low = some 20; sigma = none; window = some "5m" };
}

abbrev hot : AlarmData ℕ
hot = record {
  rule_id = 7;
  asset_id = 3;
  sensor_id = 5;
  severity = 2;
  text = threshold_text "temp" above 90 80;
  value = 90;
  threshold = 80;
}

hot_due : evaluate_threshold whole rule 5 3 90 "temp" ≡ some hot
unfolding evaluate_threshold exceeds
hot_due = refl

abbrev no_history : History ℕ
no_history = record { values = []; expires_at = 0 }

verdict_on_window_example :
    ((evaluate_adaptive whole rule 5 3 90 "temp" 120
        (after whole rule 5 3 "temp" ((0, 50) ∷ (60, 51) ∷ []) no_history)).0
      ≡ judge whole rule 5 3 90 "temp" (
          newest
            (window_samples rule.params.window)
            (map (λ (r : ℕ × ℕ). r.1) ((0, 50) ∷ (60, 51) ∷ []) ++ 90 ∷ [])))
    × ((evaluate_adaptive whole rule 5 3 90 "temp" 120
          (after whole rule 5 3 "temp" ((0, 50) ∷ (60, 51) ∷ []) no_history)).1.values
        ≡ newest
            (window_samples rule.params.window)
            (map (λ (r : ℕ × ℕ). r.1) ((0, 50) ∷ (60, 51) ∷ []) ++ 90 ∷ []))
verdict_on_window_example =
    verdict_on_window whole rule 5 3 "temp" (0, 50) ((60, 51) ∷ []) 120 90 no_history refl
      (omega arith, (omega arith, tt))

abbrev counted : List (Counter × Option ℕ)
counted =
    (good_count, some 12) ∷ (reject_count, some 1) ∷ (good_count, none) ∷ (good_count, some 15) ∷ []

abbrev seen : Previous ℕ
seen good_count = some 10
seen _ = none

abbrev telemetry : ℕ → TelemetryRow ℕ
telemetry t = record { time = t; sensor_id = 5; value = 50; quality = 192 }

abbrev repeated : ℕ → List (TelemetryRow ℕ)
repeated zero = []
repeated (suc n) = telemetry n ∷ repeated n

length-repeated : (n : ℕ) → length (repeated n) ≡ n
length-repeated zero = refl
length-repeated (suc n) = omega (arith, length-repeated n)

abbrev consumer : List (TelemetryRow ℕ) → Consumer ℕ
consumer rows = record {
  buffer = rows;
  energy_buffer = [];
  production_buffer = [];
  locked = false;
  last_counters = λ a k. none;
  last_state = λ a. none;
  events = [];
  tables = record { telemetry = []; energy = []; production = [] };
  alarms = record { alarms = []; next_id = 1; log = [] };
  histories = λ r. no_history;
  announced = [];
}

abbrev states : List (ℕ × String × ℕ)
states =
    (3, "RUNNING", 100)
    ∷ (4, "DOWN", 150)
    ∷ (3, "RUNNING", 200)
    ∷ (3, "DOWN", 300)
    ∷ (3, "?", 400)
    ∷ []

events-changes_example : of_asset 3 (reports states (consumer [])).events ≡ changes 3 none states
unfolding of_asset
events-changes_example = events-changes 3 states (consumer [])

abbrev env : Env ℕ
env = record {
  host = record {
    float_of_text = λ s. none;
    str_of_number = λ n. "1";
    int_of = λ n. some n;
    from_timestamp = λ t. some (t * 1000);
  };
  tariff_rate = λ asset time. none;
  caches = record {
    metric_map = λ asset name.
        if str_eq name "temp"
        then some (record { sensor_id = 5; asset_id = 3; unit = "C" })
        else none;
    asset_map = λ asset. some 3;
    alarm_rules = λ sensor. rule ∷ [];
  };
  asset_code = "press";
  clock_ms = 1000;
  now = 1000000;
}

abbrev payload : Payload ℕ
payload = record {
  timestamp = some 900;
  metrics =
      record { name = "temp"; value = number 90; timestamp = none; quality = null }
      ∷ record { name = "state"; value = string "RUNNING"; timestamp = none; quality = null }
      ∷ [];
}

one_row : length (rows_of whole env payload payload.metrics) ≡ 1
unfolding rows_of is_telemetry row_if converted both metric_time quality_or_good is_null bare_name
    is_asset_metric info_of as_float first_some has_dot last_part
one_row = refl

none_raises : raises whole env payload payload.metrics ≡ false
unfolding raises is_telemetry raises_if converted both metric_time quality_or_good is_null bare_name
    is_asset_metric info_of as_float first_some has_dot last_part
none_raises = refl

process_payload-blocks_example :
    process_payload whole env true payload (consumer (repeated 499)) ≡ blocked
process_payload-blocks_example =
    process_payload-blocks whole env true payload (consumer (repeated 499)) none_raises
      (omega (arith, one_row)) (omega (arith, one_row, length-repeated 499))

abbrev prediction : Message ℕ
prediction = record {
  id = some 77;
  asset_code = codes "press";
  time = 1000;
  model_version = codes "rul:2";
  values = 5;
  attributions = some (1 ∷ 2 ∷ []);
}

abbrev known : Known
known = record {
  models =
      record {
        id = 3;
        name = codes "rul";
        version = codes "2";
        is_production = false;
        asset_id = none;
      }
      ∷ [];
  asset_map = λ code. some 9;
}

abbrev nothing_stored : State ℕ
nothing_stored = record { predictions = []; explanations = []; sent = [] }

abbrev delivery : List ℕ × Message ℕ
delivery = (codes "twinvoice/pred/press", prediction)

nothing-IsUnique : IsUnique nothing_stored.predictions
unfolding IsUnique
nothing-IsUnique = tt

stored_once_example :
    IsUnique (process_all known (delivery ∷ delivery ∷ []) nothing_stored).predictions
    × ((d : List ℕ × Message ℕ)
        → process known d
            (process_all known (delivery ∷ delivery ∷ []) (process known d nothing_stored))
          ≡ process_all known (delivery ∷ delivery ∷ []) (process known d nothing_stored))
stored_once_example = stored_once known (delivery ∷ delivery ∷ []) nothing_stored nothing-IsUnique
