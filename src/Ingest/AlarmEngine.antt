-- ===== src/Ingest/AlarmEngine.antt =====
-- apps/api/app/ingest/alarm_engine.py: `AlarmEngine`. The Valkey list of an adaptive rule is the
-- list of its values with the time at which the key expires. JSON gives a value back as it was
-- stored. Of an alarm's title and message, which are formatted texts, the model keeps the values that
-- are formatted.
pub mod Limits
pub mod Rolling
use text.Mathlib.Text.{◌==◌ as str_eq}
use digital_twin.Prelude.{
  ℕ, ◌+◌, ◌-◌, String, Bool, true, false, not, Option, none, some, List, [], ◌∷◌, ◌++◌, length,
  drop, ltb, leb, ◌&&◌, ◌||◌, if◌then◌else◌,
}
use digital_twin.Prelude.Floats.{Floats}

abbrev pub min_samples : ℕ
min_samples = 30

-- WINDOW_SAMPLES.get(window, WINDOW_SAMPLES["1h"])
unfoldable pub window_samples : Option String → ℕ
window_samples none = 3600
window_samples (some w) =
    if str_eq w "5m"
    then 300
    else if str_eq w "15m"
    then 900
    else if str_eq w "30m"
    then 1800
    else if str_eq w "1h"
    then 3600
    else if str_eq w "6h"
    then 21600
    else if str_eq w "24h"
    then 86400
    else 3600

pub data Kind : Type 0 where
  threshold_kind adaptive_kind other_kind : Kind

pub record Params (F : Type 0) : Type 0 where
  pub high : Option F
  pub low : Option F
  pub sigma : Option F
  pub window : Option String

pub record Rule (F : Type 0) : Type 0 where
  pub id : ℕ
  pub kind : Kind
  pub severity : ℕ
  pub params : Params F

pub data Direction : Type 0 where
  above below : Direction

-- what title and message are formatted from
pub data Text (F : Type 0) : Type 0 where
  threshold_text : String → Direction → F → F → Text F
  adaptive_text : String → F → F → F → F → Text F

pub record AlarmData (F : Type 0) : Type 0 where
  pub rule_id : ℕ
  pub asset_id : ℕ
  pub sensor_id : ℕ
  pub severity : ℕ
  pub text : Text F
  pub value : F
  pub threshold : F

-- the list of a rule in Valkey
pub record History (F : Type 0) : Type 0 where
  pub values : List F
  pub expires_at : ℕ

-- a key that has expired is gone
unfoldable pub stored : {F : Type 0} → ℕ → History F → List F
stored now h = if leb h.expires_at now then [] else h.values

-- rpush, then ltrim(key, -samples, -1), then expire(key, 7200); `now` is in seconds
unfoldable pub record_value : {F : Type 0} → ℕ → ℕ → F → History F → History F
unfolding stored
record_value samples now v h =
    let pushed = stored now h ++ v ∷ [] in
    record { values = drop (length pushed - samples) pushed; expires_at = now + 7200 }

module _ (fl : Floats) where
  open fl use {F, of_ℕ, add, sub, mul, div, sqrt, abs, lt, le}

  -- `x is not None and value > x`, `x is not None and value < x`
  unfoldable pub exceeds : F → Option F → Bool
  exceeds value none = false
  exceeds value (some high) = lt high value

  unfoldable pub falls_below : F → Option F → Bool
  falls_below value none = false
  falls_below value (some low) = lt value low

  threshold_alarm : Rule F → ℕ → ℕ → F → String → Direction → F → AlarmData F
  threshold_alarm rule sensor_id asset_id value metric_name direction threshold = record {
    rule_id = rule.id;
    asset_id = asset_id;
    sensor_id = sensor_id;
    severity = rule.severity;
    text = threshold_text metric_name direction value threshold;
    value = value;
    threshold = threshold;
  }

  alarm_if_low : Rule F → ℕ → ℕ → F → String → Option F → Option (AlarmData F)
  alarm_if_low rule sensor_id asset_id value metric_name none = none
  alarm_if_low rule sensor_id asset_id value metric_name (some low) =
      if lt value low
      then some (threshold_alarm rule sensor_id asset_id value metric_name below low)
      else none

  alarm_if_outside : Rule F → ℕ → ℕ → F → String → Option F → Option F → Option (AlarmData F)
  alarm_if_outside rule sensor_id asset_id value metric_name none low =
      alarm_if_low rule sensor_id asset_id value metric_name low
  alarm_if_outside rule sensor_id asset_id value metric_name (some high) low =
      if lt high value
      then some (threshold_alarm rule sensor_id asset_id value metric_name above high)
      else alarm_if_low rule sensor_id asset_id value metric_name low

  -- `evaluate_threshold`
  unfoldable pub evaluate_threshold : Rule F → ℕ → ℕ → F → String → Option (AlarmData F)
  unfolding alarm_if_low alarm_if_outside threshold_alarm
  evaluate_threshold rule sensor_id asset_id value metric_name =
      alarm_if_outside rule sensor_id asset_id value metric_name rule.params.high rule.params.low

  -- `check_return_to_normal`
  unfoldable pub check_return_to_normal : Rule F → F → Bool
  unfolding exceeds falls_below
  check_return_to_normal rule value =
      not (exceeds value rule.params.high || falls_below value rule.params.low)

  sum_from : F → List F → F
  sum_from acc [] = acc
  sum_from acc (v ∷ vs) = sum_from (add acc v) vs

  sum : List F → F
  sum = sum_from (of_ℕ 0)

  squares : F → List F → List F
  squares mean [] = []
  squares mean (v ∷ vs) = mul (sub v mean) (sub v mean) ∷ squares mean vs

  pub mean_of : List F → F
  mean_of values = div (sum values) (of_ℕ (length values))

  pub std_of : List F → F
  std_of values = sqrt (div (sum (squares (mean_of values) values)) (of_ℕ (length values)))

  -- 1e-10
  tiny : F
  tiny = div (of_ℕ 1) (of_ℕ 10000000000)

  abbrev pub sigma_or_default : Option F → F
  sigma_or_default none = of_ℕ 3
  sigma_or_default (some sigma) = sigma

  -- the tests and the result once the list is read back
  pub judge : Rule F → ℕ → ℕ → F → String → List F → Option (AlarmData F)
  judge rule sensor_id asset_id value metric_name values =
      let mean = mean_of values in
      let std = std_of values in
      let z_score = div (abs (sub value mean)) std in
      let sigma = sigma_or_default rule.params.sigma in
      if ltb (length values) min_samples
      then none
      else if lt std tiny
      then none
      else if le z_score sigma
      then none
      else some (record {
        rule_id = rule.id;
        asset_id = asset_id;
        sensor_id = sensor_id;
        severity = rule.severity;
        text = adaptive_text metric_name z_score value mean std;
        value = value;
        threshold = add mean (mul sigma std);
      })

  -- `evaluate_adaptive`: the result, and the list of the rule in Valkey
  pub evaluate_adaptive :
      Rule F → ℕ → ℕ → F → String → ℕ → History F → Option (AlarmData F) × History F
  unfolding judge
  evaluate_adaptive rule sensor_id asset_id value metric_name now h =
      let h' = record_value (window_samples rule.params.window) now value h in
      (judge rule sensor_id asset_id value metric_name h'.values, h')
