-- ===== src/Ingest/Consumer/Message.antt =====
-- apps/api/app/ingest/consumer.py: `_process_message`, from the parsed topic and the decoded payload
-- on. The caches and the alarm rules are arguments, as is what `startswith`, `split` and
-- concatenation of texts do where the text library has no such function. A dictionary that is
-- published is the list of its items.
pub mod Rows
use Prim.Native.String.{◌++◌ as str_append}
use text.Mathlib.Text.{◌==◌ as str_eq, starts_with}
use digital_twin.Prelude.{
  ℕ, ◌*◌, ◌/◌, String, Bool, true, false, Option, none, some, List, [], ◌∷◌, ◌++◌, ◌==◌, ◌||◌,
  is_empty, if◌then◌else◌,
}
use digital_twin.Prelude.Floats.{Floats}
use digital_twin.Ingest.AlarmEngine.{
  Rule, Kind, threshold_kind, adaptive_kind, other_kind, AlarmData, evaluate_threshold,
  evaluate_adaptive,
}
use digital_twin.Telemetry.Alarms.{raise_alarm}
use digital_twin.Ingest.Consumer.{
  TelemetryRow, Consumer, Outcome, done, blocked, Value, null, number, string, Host, as_float, str,
  get, buffer_rows, handle_asset_metrics,
}

pub data MessageType : Type 0 where
  ddata dbirth other_type : MessageType

-- the row of a sensor in the metric map
pub record SensorInfo : Type 0 where
  pub sensor_id : ℕ
  pub asset_id : ℕ
  pub unit : String

pub record Metric (F : Type 0) : Type 0 where
  pub name : String
  pub value : Value F
  -- milliseconds
  pub timestamp : Option ℕ
  -- `properties.get("Quality")`
  pub quality : Value F

pub record Payload (F : Type 0) : Type 0 where
  pub timestamp : Option ℕ
  pub metrics : List (Metric F)

pub record Caches (F : Type 0) : Type 0 where
  pub metric_map : String → String → Option SensorInfo
  pub asset_map : String → Option ℕ
  pub alarm_rules : ℕ → List (Rule F)

-- an item of the live payload; the Ditto patch adds the time
pub record LiveValue (F : Type 0) : Type 0 where
  pub name : String
  pub value : Value F
  pub unit : String
  pub time : ℕ

-- what one pass over the metrics collects
pub record Pass (F : Type 0) : Type 0 where
  pub telemetry_rows : List (TelemetryRow F)
  pub live : List (LiveValue F)
  pub asset_metrics : List (String × Value F)
  pub consumer : Consumer F
  -- has a conversion raised an exception?
  pub raised : Bool

-- `metric_name.split(".")[-1]`, with the text after the last dot so far
unfoldable pub last_part : String → String → String
last_part part String.[] = part
last_part part (String.◌∷◌ c s) =
    last_part (if str_eq (String.◌∷◌ c String.[]) "." then s else part) s

unfoldable pub bare_name : String → String
unfolding last_part
bare_name name = last_part name name

unfoldable pub has_dot : String → Bool
has_dot String.[] = false
has_dot (String.◌∷◌ c s) = str_eq (String.◌∷◌ c String.[]) "." || has_dot s

unfoldable pub is_asset_metric : String → Bool
is_asset_metric s =
    str_eq s "state"
    || (str_eq s "good_count"
        || (str_eq s "reject_count"
            || (str_eq s "cycle_time_s"
                || (str_eq s "energy_kwh" || (str_eq s "power_kw" || str_eq s "power_factor")))))

unfoldable pub first_some : Option SensorInfo → Option SensorInfo → Option SensorInfo
first_some (some i) o = some i
first_some none o = o

module _ {F : Type 0} where
  -- `d[k] = v`
  pub put : String → Value F → List (String × Value F) → List (String × Value F)
  put k v [] = (k, v) ∷ []
  put k v ((j, w) ∷ m) = if str_eq j k then (k, v) ∷ m else (j, w) ∷ put k v m

  pub put_live : LiveValue F → List (LiveValue F) → List (LiveValue F)
  put_live x [] = x ∷ []
  put_live x (y ∷ m) = if str_eq y.name x.name then x ∷ m else y ∷ put_live x m

  -- the sensor of a metric, under its name or behind the asset's code
  unfoldable pub info_of : Caches F → String → String → Option SensorInfo
  unfolding first_some has_dot
  info_of caches asset_code name = first_some (caches.metric_map asset_code name) (
      caches.metric_map asset_code
        (if has_dot name then name else str_append (str_append asset_code ".") name))

-- `a or b` on timestamps, where 0 is false
abbrev or_time : Option ℕ → ℕ → ℕ
or_time none t = t
or_time (some s) t = if s == 0 then t else s

-- what a message is processed against: Python's conversions, the tariffs, the caches, the code of its
-- asset, `time.time_ns() // 1_000_000`, and the time in microseconds
pub record Env (F : Type 0) : Type 0 where
  pub host : Host F
  pub tariff_rate : ℕ → ℕ → Option F
  pub caches : Caches F
  pub asset_code : String
  pub clock_ms : ℕ
  pub now : ℕ

-- the first exception is raised
unfoldable pub both : Option ℕ → Option ℕ → Option (ℕ × ℕ)
both (some quality) (some time) = some (quality, time)
both _ _ = none

module _ (fl : Floats) (env : Env fl.F) where
  open fl use {F}
  open env use {host, tariff_rate, caches, asset_code, clock_ms, now}

  -- the time of a metric, in microseconds
  unfoldable pub metric_time : Payload F → Metric F → Option ℕ
  metric_time decoded m =
      host.from_timestamp (or_time m.timestamp (or_time decoded.timestamp clock_ms))

  unfoldable pub quality_or_good : Option F → Option ℕ
  quality_or_good none = some 192
  quality_or_good (some q) = host.int_of q

  -- the quality and the time of a metric
  unfoldable pub converted : Payload F → Metric F → Option (ℕ × ℕ)
  unfolding both
  converted decoded m = both (quality_or_good (as_float fl host m.quality)) (metric_time decoded m)

  raise_if : Option (AlarmData F) → Consumer F → Consumer F
  raise_if none c = c
  raise_if (some a) c =
      let (published, db) = raise_alarm a c.alarms in
      record c {
        alarms = db;
        announced = elim published [ none ↦ c.announced | some x ↦ c.announced ++ x ∷ [] ];
      }

  -- the rules run in seconds on the time of the metric
  apply_rule : Kind → Rule F → SensorInfo → F → String → ℕ → Consumer F → Consumer F
  apply_rule threshold_kind rule info value name time c =
      raise_if (evaluate_threshold fl rule info.sensor_id info.asset_id value name) c
  apply_rule adaptive_kind rule info value name time c =
      let (alarm, h) =
        evaluate_adaptive fl rule info.sensor_id info.asset_id value name (now / 1000000)
          (c.histories rule.id) in
      raise_if alarm (record c { histories = λ r. if r == rule.id then h else c.histories r })
  apply_rule other_kind rule info value name time c = c

  pub apply_rules : List (Rule F) → SensorInfo → F → String → ℕ → Consumer F → Consumer F
  unfolding apply_rule raise_if
  apply_rules [] info value name time c = c
  apply_rules (rule ∷ rules) info value name time c =
      apply_rules rules info value name time (apply_rule rule.kind rule info value name time c)

  -- a metric with its quality and its time
  recorded_of : Metric F → SensorInfo → F → Option (ℕ × ℕ) → Pass F → Pass F
  recorded_of m info value none p = record p { raised = true }
  recorded_of m info value (some (quality, time)) p =
      let row : TelemetryRow F = record {
        time = time;
        sensor_id = info.sensor_id;
        value = value;
        quality = quality;
      } in
      let shown : LiveValue F = record {
        name = m.name;
        value = number value;
        unit = info.unit;
        time = time;
      } in
      record p {
        telemetry_rows = p.telemetry_rows ++ row ∷ [];
        live = put_live shown p.live;
        consumer =
            apply_rules (caches.alarm_rules info.sensor_id) info value m.name time p.consumer;
      }

  -- a metric of a known sensor, with a value that is a number
  telemetry_of : Payload F → Metric F → SensorInfo → Option F → Pass F → Pass F
  unfolding recorded_of
  telemetry_of decoded m info none p = p
  telemetry_of decoded m info (some value) p = recorded_of m info value (converted decoded m) p

  sensor_metric : Payload F → Metric F → Option SensorInfo → Pass F → Pass F
  sensor_metric decoded m none p = p
  sensor_metric decoded m (some info) p = telemetry_of decoded m info (as_float fl host m.value) p

  state_metric : Metric F → Pass F → Pass F
  state_metric m p =
      let shown : LiveValue F = record {
        name = m.name;
        value = string (str fl host m.value);
        unit = "";
        time = now;
      } in
      record p { live = put_live shown p.live }

  unfoldable pub is_null : Value F → Bool
  is_null null = true
  is_null _ = false

  -- the body of the loop over the metrics
  pub metric_step : Payload F → Metric F → Pass F → Pass F
  unfolding telemetry_of sensor_metric state_metric is_null
  metric_step decoded m p =
      let bare = bare_name m.name in
      let p' = record p { asset_metrics = put bare m.value p.asset_metrics } in
      if is_null m.value || starts_with m.name "Node Control"
      then p
      else if is_asset_metric bare
      then (if str_eq bare "state"
          then state_metric m p'
          else sensor_metric decoded m (info_of caches asset_code m.name) p')
      else sensor_metric decoded m (info_of caches asset_code m.name) p

  -- an exception ends the loop
  pub metrics_pass : Payload F → List (Metric F) → Pass F → Pass F
  metrics_pass decoded [] p = p
  metrics_pass decoded (m ∷ ms) p =
      let p' = metric_step decoded m p in
      let rest = metrics_pass decoded ms p' in if p'.raised then p' else rest

  abbrev pub start : Consumer F → Pass F
  start c = record {
    telemetry_rows = [];
    live = [];
    asset_metrics = [];
    consumer = c;
    raised = false;
  }

  asset_facts : Option ℕ → List (String × Value F) → Consumer F → Consumer F
  asset_facts none metrics c = c
  asset_facts (some asset_id) [] c = c
  asset_facts (some asset_id) (m ∷ ms) c =
      handle_asset_metrics fl host tariff_rate asset_id (m ∷ ms) now c

  finish : List (LiveValue F) → Outcome (Consumer F) → Outcome (Consumer F × List (LiveValue F))
  finish live blocked = blocked
  finish live (done c) = done (c, live)

  -- `_process_message` for a device whose payload is decoded: the consumer, and what is published
  -- for the asset. `succeeds` is the outcome of a flush. An exception of a conversion is logged by
  -- `_on_message`, and nothing more of the payload is done.
  pub process_payload : Bool → Payload F → Consumer F → Outcome (Consumer F × List (LiveValue F))
  unfolding asset_facts finish
  process_payload succeeds decoded c =
      let p = metrics_pass decoded decoded.metrics (start c) in
      if p.raised
      then done (p.consumer, [])
      else finish p.live (
          buffer_rows succeeds p.telemetry_rows
            (asset_facts (caches.asset_map asset_code) p.asset_metrics p.consumer))

  -- the guards of `_process_message`; a DBIRTH is never refreshed, since its test stands in a branch
  -- that a DBIRTH does not take
  pub process_message :
      MessageType → Bool → Payload F → Consumer F → Outcome (Consumer F × List (LiveValue F))
  process_message other_type succeeds decoded c = done (c, [])
  process_message kind succeeds decoded c =
      if str_eq asset_code "" then done (c, []) else process_payload succeeds decoded c
