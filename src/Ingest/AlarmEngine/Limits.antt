-- ===== src/Ingest/AlarmEngine/Limits.antt =====
-- Raising and clearing by limits agree.
use digital_twin.Prelude.{ℕ, String, true, false, none, some, ◌≡◌, arith, ◌⊎◌, ◌↔◌}
use digital_twin.Prelude.Floats.{Floats}
use digital_twin.Ingest.AlarmEngine.{
  Rule, AlarmData, evaluate_threshold, check_return_to_normal, exceeds,
}

module _ (fl : Floats) (rule : Rule fl.F) (sensor_id asset_id : ℕ) (value : fl.F)
    (metric_name : String) where
  -- No alarm is due exactly when the value counts as back to normal, whatever limits the rule has.
  pub silent_iff_normal :
      (evaluate_threshold fl rule sensor_id asset_id value metric_name ≡ none)
      ↔ (check_return_to_normal fl rule value ≡ true)
  unfolding evaluate_threshold check_return_to_normal
  silent_iff_normal = (λ h. ground arith, λ h. ground arith)

  -- An alarm names the rule, the asset, the sensor and the value it was given, and a limit that the
  -- rule has and the value violates; it names the low limit only if the high one is kept.
  pub alarm_names_violation :
      (a : AlarmData fl.F)
      → evaluate_threshold fl rule sensor_id asset_id value metric_name ≡ some a
      → (a.rule_id ≡ rule.id)
        × (a.asset_id ≡ asset_id)
        × (a.sensor_id ≡ sensor_id)
        × (a.value ≡ value)
        × ((rule.params.high ≡ some a.threshold) × (fl.lt a.threshold value ≡ true)
            ⊎ (exceeds fl value rule.params.high ≡ false)
              × (rule.params.low ≡ some a.threshold)
              × (fl.lt value a.threshold ≡ true))
  unfolding evaluate_threshold exceeds
  alarm_names_violation a h = ground arith
