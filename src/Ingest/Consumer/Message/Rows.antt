-- ===== src/Ingest/Consumer/Message/Rows.antt =====
-- The telemetry rows of a message, and when the message blocks the consumer.
use text.Mathlib.Text.{◌==◌ as str_eq, starts_with}
use mathlib.Core.Path.{subst}
use digital_twin.Prelude.{
  ℕ, ◌+◌, ◌≤◌, ◌<◌, String, Bool, true, false, not, Option, none, some, List, [], ◌∷◌, ◌++◌, ◌||◌,
  ◌&&◌, length, ◌≡◌, refl, sym, ap, ◌∙◌, append-nil, append_assoc, if◌then◌else◌, arith, Bool-cases,
  inl, inr,
}
use digital_twin.Prelude.Floats.{Floats}
use digital_twin.Ingest.AlarmEngine.{
  Rule, Kind, threshold_kind, adaptive_kind, other_kind, AlarmData,
}
use digital_twin.Ingest.Consumer.{
  TelemetryRow, Consumer, done, blocked, Value, as_float, buffer_rows, batch_size,
}
use digital_twin.Ingest.Consumer.Buffers.{buffer_rows-blocks}
use digital_twin.Ingest.Consumer.Frame.{Frame, Frame-refl, Frame-trans, handle_asset_metrics-Frame}
use digital_twin.Ingest.Consumer.Message.{
  Env, SensorInfo, Metric, Payload, LiveValue, Pass, bare_name, is_asset_metric, info_of, put,
  converted, recorded_of, raise_if, apply_rule, apply_rules, telemetry_of, sensor_metric,
  state_metric, is_null, metric_step, metrics_pass, start, asset_facts, finish, process_payload,
}

module _ (fl : Floats) (env : Env fl.F) where
  open fl use {F}
  open env use {host, tariff_rate, caches, asset_code, now}

  unfoldable row_at : SensorInfo → F → Option (ℕ × ℕ) → List (TelemetryRow F)
  row_at info value none = []
  row_at info value (some (quality, time)) =
      record { time = time; sensor_id = info.sensor_id; value = value; quality = quality } ∷ []

  unfoldable is_none : Option (ℕ × ℕ) → Bool
  is_none none = true
  is_none (some x) = false

  unfoldable pub row_if :
      Payload F → Metric F → Option SensorInfo → Option F → List (TelemetryRow F)
  unfolding row_at
  row_if decoded m none value = []
  row_if decoded m (some info) none = []
  row_if decoded m (some info) (some value) = row_at info value (converted fl env decoded m)

  -- a metric of a sensor, with a number whose quality or time cannot be converted
  unfoldable pub raises_if : Payload F → Metric F → Option SensorInfo → Option F → Bool
  unfolding is_none
  raises_if decoded m none value = false
  raises_if decoded m (some info) none = false
  raises_if decoded m (some info) (some value) = is_none (converted fl env decoded m)

  -- does a metric carry telemetry?
  unfoldable pub is_telemetry : Metric F → Bool
  is_telemetry m = not (
      (is_null fl env m.value || starts_with m.name "Node Control")
      || (is_asset_metric (bare_name m.name) && str_eq (bare_name m.name) "state"))

  -- The rows of a payload: one for each metric in order that has a value, is no node control or
  -- state, has a sensor, and is a number.
  unfoldable pub rows_of : Payload F → List (Metric F) → List (TelemetryRow F)
  rows_of decoded [] = []
  rows_of decoded (m ∷ ms) =
      (if is_telemetry m
        then row_if decoded m (info_of caches asset_code m.name) (as_float fl host m.value)
        else [])
      ++ rows_of decoded ms

  -- Does the conversion of the quality or the time of a metric raise, among those that have a row?
  unfoldable pub raises : Payload F → List (Metric F) → Bool
  raises decoded [] = false
  raises decoded (m ∷ ms) =
      (is_telemetry m
        && raises_if decoded m (info_of caches asset_code m.name) (as_float fl host m.value))
      || raises decoded ms

  raise_if-Frame : (a : Option (AlarmData F)) (c : Consumer F) → Frame c (raise_if fl env a c)
  unfolding raise_if
  raise_if-Frame none c = Frame-refl c
  raise_if-Frame (some a) c = record { buffer = refl; locked = refl }

  rule-Frame :
      (k : Kind) (rule : Rule F) (info : SensorInfo) (v : F) (name : String) (t : ℕ)
      (c : Consumer F)
      → Frame c (apply_rule fl env k rule info v name t c)
  unfolding apply_rule
  rule-Frame threshold_kind rule info v name t c = raise_if-Frame _ c
  rule-Frame adaptive_kind rule info v name t c =
      Frame-trans {a = c} (record { buffer = refl; locked = refl }) (raise_if-Frame _ _)
  rule-Frame other_kind rule info v name t c = Frame-refl c

  rules-Frame :
      (rules : List (Rule F)) (info : SensorInfo) (v : F) (name : String) (t : ℕ) (c : Consumer F)
      → Frame c (apply_rules fl env rules info v name t c)
  unfolding apply_rules
  rules-Frame [] info v name t c = Frame-refl c
  rules-Frame (rule ∷ rules) info v name t c =
      Frame-trans (rule-Frame rule.kind rule info v name t c) (rules-Frame rules info v name t _)

  -- One metric adds its row or raises, and leaves the buffer and the lock alone.
  Adds : Pass F → Pass F → List (TelemetryRow F) → Bool → Type 0
  Adds p p' rows failed =
      (p'.telemetry_rows ≡ p.telemetry_rows ++ rows)
      × (p'.raised ≡ (failed || p.raised))
      × Frame p.consumer p'.consumer

  Adds-refl : (p : Pass F) → Adds p p [] false
  unfolding Adds
  Adds-refl p = (sym (append-nil p.telemetry_rows), refl, Frame-refl p.consumer)

  recorded-Adds :
      (m : Metric F) (info : SensorInfo) (v : F) (o : Option (ℕ × ℕ)) (p : Pass F)
      → Adds p (recorded_of fl env m info v o p) (row_at info v o) (is_none o)
  unfolding Adds recorded_of row_at is_none
  recorded-Adds m info v none p = (sym (append-nil p.telemetry_rows), refl, Frame-refl p.consumer)
  recorded-Adds m info v (some (quality, time)) p =
      (refl, refl, rules-Frame (caches.alarm_rules info.sensor_id) info v m.name _ p.consumer)

  sensor-Adds :
      (d : Payload F) (m : Metric F) (i : Option SensorInfo) (v : Option F) (p : Pass F)
      → as_float fl host m.value ≡ v
      → Adds p (sensor_metric fl env d m i p) (row_if d m i v) (raises_if d m i v)
  unfolding sensor_metric telemetry_of row_if raises_if
  sensor-Adds d m none v p e = Adds-refl p
  sensor-Adds d m (some info) none p e = rw (e, telemetry_of) (Adds-refl p)
  sensor-Adds d m (some info) (some v) p e =
      rw (e, telemetry_of) (recorded-Adds m info v (converted fl env d m) p)

  step_cases :
      (skip asset is_state failed : Bool) (p q r : Pass F) (rows : List (TelemetryRow F))
      (sensor : Pass F → Pass F)
      → Adds p q [] false
      → Adds p (sensor p) rows failed
      → Adds p (sensor r) rows failed
      → Adds p
          (if skip then p else if asset then (if is_state then q else sensor r) else sensor p)
          (if not (skip || (asset && is_state)) then rows else [])
          (not (skip || (asset && is_state)) && failed)
  step_cases true asset is_state failed p q r rows sensor a b c = Adds-refl p
  step_cases false true true failed p q r rows sensor a b c = a
  step_cases false true false failed p q r rows sensor a b c = c
  step_cases false false is_state failed p q r rows sensor a b c = b

  -- the pass with the metric among the asset-level ones
  abbrev named : Metric F → Pass F → Pass F
  named m p = record p { asset_metrics = put (bare_name m.name) m.value p.asset_metrics }

  -- the row of a metric, and whether it raises
  abbrev row_of : Payload F → Metric F → List (TelemetryRow F)
  row_of d m =
      if is_telemetry m
      then row_if d m (info_of caches asset_code m.name) (as_float fl host m.value)
      else []

  abbrev raises_at : Payload F → Metric F → Bool
  raises_at d m =
      is_telemetry m && raises_if d m (info_of caches asset_code m.name) (as_float fl host m.value)

  step-Adds :
      (d : Payload F) (m : Metric F) (p : Pass F)
      → Adds p (metric_step fl env d m p) (row_of d m) (raises_at d m)
  unfolding metric_step is_telemetry Adds state_metric
  step-Adds d m p =
      step_cases (is_null fl env m.value || starts_with m.name "Node Control")
        (is_asset_metric (bare_name m.name)) (str_eq (bare_name m.name) "state") _ p
        (state_metric fl env m (named m p)) (named m p) _
        (sensor_metric fl env d m (info_of caches asset_code m.name)) (Adds-refl p)
        (sensor-Adds d m (info_of caches asset_code m.name) (as_float fl host m.value) p refl)
        (sensor-Adds d m (info_of caches asset_code m.name) (as_float fl host m.value) (named m p)
          refl)

  -- what the loop over the metrics does, if it had not raised before
  Passes : Payload F → List (Metric F) → Pass F → Pass F → Type 0
  Passes d ms p p' =
      Frame p.consumer p'.consumer
      × (p'.raised ≡ raises d ms)
      × (raises d ms ≡ false → p'.telemetry_rows ≡ p.telemetry_rows ++ rows_of d ms)

  pass-Passes :
      (d : Payload F) (ms : List (Metric F)) (p : Pass F)
      → p.raised ≡ false
      → Passes d ms p (metrics_pass fl env d ms p)
  unfolding metrics_pass metric_step rows_of raises Adds Passes
  pass-Passes d [] p n = (Frame-refl p.consumer, n, λ h. sym (append-nil p.telemetry_rows))
  pass-Passes d (m ∷ ms) p n =
      let p' : Pass F = metric_step fl env d m p in
      let (rows, failed, frame) = step-Adds d m p in
      elim (Bool-cases (raises_at d m)) [
        | inl t ↦
            (let up : p'.raised ≡ true = ground (arith, failed, t) in
              rw up (frame, up ∙ ground (arith, t), λ h. absurd (ground (arith, t, h))))
        | inr f ↦
            (let down : p'.raised ≡ false = ground (arith, failed, f, n) in
              let (frame', failed', rest) = pass-Passes d ms p' down in
              rw down (
                Frame-trans frame frame',
                failed' ∙ ground (arith, f),
                λ h.
                    rest (ground (arith, f, h))
                    ∙ ap (λ l. l ++ rows_of d ms) rows
                    ∙ append_assoc p.telemetry_rows (row_of d m) (rows_of d ms),
              ))
      ]

  facts-Frame :
      (i : Option ℕ) (metrics : List (String × Value F)) (c : Consumer F)
      → Frame c (asset_facts fl env i metrics c)
  unfolding asset_facts
  facts-Frame none metrics c = Frame-refl c
  facts-Frame (some i) [] c = Frame-refl c
  facts-Frame (some i) (m ∷ ms) c = handle_asset_metrics-Frame fl host tariff_rate i (m ∷ ms) now c

  -- the consumer when the rows of a payload are about to be buffered
  before : Payload F → Consumer F → Consumer F
  before d c =
      let p = metrics_pass fl env d d.metrics (start fl env c) in
      asset_facts fl env (caches.asset_map asset_code) p.asset_metrics p.consumer

  -- the loop over the metrics of a payload
  passed :
      (d : Payload F) (c : Consumer F)
      → Passes d d.metrics (start fl env c) (metrics_pass fl env d d.metrics (start fl env c))
  passed d c = pass-Passes d d.metrics (start fl env c) refl

  before-Frame : (d : Payload F) (c : Consumer F) → Frame c (before d c)
  unfolding before Passes
  before-Frame d c = Frame-trans (passed d c).0 (facts-Frame (caches.asset_map asset_code) _ _)

  pass_rows :
      (d : Payload F) (c : Consumer F)
      → raises d d.metrics ≡ false
      → (metrics_pass fl env d d.metrics (start fl env c)).telemetry_rows ≡ rows_of d d.metrics
  unfolding Passes
  pass_rows d c h = (passed d c).2 h

  -- what is published for the asset
  live_of : Payload F → Consumer F → List (LiveValue F)
  live_of d c = (metrics_pass fl env d d.metrics (start fl env c)).live

  process_payload_lem :
      (succeeds : Bool) (d : Payload F) (c : Consumer F)
      → raises d d.metrics ≡ false
      → process_payload fl env succeeds d c
        ≡ finish fl env (live_of d c) (buffer_rows succeeds (rows_of d d.metrics) (before d c))
  unfolding process_payload before live_of Passes
  process_payload_lem succeeds d c h =
      let p : Pass F = metrics_pass fl env d d.metrics (start fl env c) in
      ap
        (λ b.
          if b
          then done (p.consumer, [])
          else finish fl env (live_of d c) (buffer_rows succeeds p.telemetry_rows (before d c)))
        ((passed d c).1 ∙ h)
      ∙ ap (λ l. finish fl env (live_of d c) (buffer_rows succeeds l (before d c)))
          (pass_rows d c h)

  -- A payload with at least one row, all of whose rows can be converted, that brings the buffer to the
  -- batch size never returns: its thread waits for the buffer's lock while it holds it.
  pub process_payload-blocks :
      (succeeds : Bool) (d : Payload F) (c : Consumer F)
      → raises d d.metrics ≡ false
      → 0 < length (rows_of d d.metrics)
      → batch_size ≤ length c.buffer + length (rows_of d d.metrics)
      → process_payload fl env succeeds d c ≡ blocked
  unfolding finish
  process_payload-blocks succeeds d c h some_row full =
      let f = before-Frame d c in
      let e =
        buffer_rows-blocks succeeds (rows_of d d.metrics) (before d c) some_row
          (subst (λ b. batch_size ≤ length b + length (rows_of d d.metrics)) (sym f.buffer) full) in
      process_payload_lem succeeds d c h ∙ ap (finish fl env (live_of d c)) e
