-- ===== src/Ingest/Consumer.antt =====
-- apps/api/app/ingest/consumer.py: the state of `IngestConsumer`, its buffers and their lock, and the
-- asset-level facts of a payload. Statements of the database succeed, except that an INSERT of
-- `_flush_buffer` may fail, as its argument says. Waiting for a lock that is never released is the
-- outcome `blocked`. The tariff in force is an argument (`tariff_rate`), as is what Python's `float`,
-- `str` and `int` do (`Host`).
pub mod Message
pub mod Buffers
pub mod States
mod Frame
use text.Mathlib.Text.{◌==◌ as str_eq}
use digital_twin.Prelude.{
  ℕ, ◌+◌, String, Bool, true, false, not, Option, none, some, List, [], ◌∷◌, ◌++◌, length, is_empty,
  leb, ◌==◌, ◌&&◌, ◌||◌, if◌then◌else◌,
}
use digital_twin.Prelude.Floats.{Floats}
use digital_twin.Ingest.AlarmEngine.{Rule, History}
use digital_twin.Ingest.Counters.{
  Counter, good_count, reject_count, energy_kwh, Previous, counter_delta,
}
use digital_twin.Telemetry.Alarms.{Alarm, Db}

abbrev pub batch_size : ℕ
batch_size = 500

pub record TelemetryRow (F : Type 0) : Type 0 where
  pub time : ℕ
  pub sensor_id : ℕ
  pub value : F
  pub quality : ℕ

pub record EnergyRow (F : Type 0) : Type 0 where
  pub time : ℕ
  pub asset_id : ℕ
  pub power_kw : F
  pub energy_kwh : F
  pub power_factor : Option F
  pub current_a : Option F
  pub tariff_rate : Option F

pub record ProductionRow (F : Type 0) : Type 0 where
  pub time : ℕ
  pub asset_id : ℕ
  pub good_count : F
  pub reject_count : F
  pub cycle_time_s : Option F

pub record StateEvent : Type 0 where
  pub time : ℕ
  pub asset_id : ℕ
  pub state : String

-- what the flushes wrote
pub record Tables (F : Type 0) : Type 0 where
  pub telemetry : List (TelemetryRow F)
  pub energy : List (EnergyRow F)
  pub production : List (ProductionRow F)

pub record Consumer (F : Type 0) : Type 0 where
  pub buffer : List (TelemetryRow F)
  pub energy_buffer : List (EnergyRow F)
  pub production_buffer : List (ProductionRow F)
  -- is `_buffer_lock` held?
  pub locked : Bool
  pub last_counters : ℕ → Previous F
  pub last_state : ℕ → Option String
  pub events : List StateEvent
  pub tables : Tables F
  pub alarms : Db F
  pub histories : ℕ → History F
  -- the alarms that were published
  pub announced : List (Alarm F)

pub data Outcome {ℓ} (A : Type ℓ) : Type ℓ where
  done : A → Outcome A
  blocked : Outcome A

-- a metric's value as it is decoded
pub data Value (F : Type 0) : Type 0 where
  null : Value F
  number : F → Value F
  boolean : Bool → Value F
  string : String → Value F

-- Python's conversions; none where they raise: `int` of NaN or an infinity, and
-- `datetime.fromtimestamp` of milliseconds, which gives microseconds here
pub record Host (F : Type 0) : Type 0 where
  pub float_of_text : String → Option F
  pub str_of_number : F → String
  pub int_of : F → Option ℕ
  pub from_timestamp : ℕ → Option ℕ

module _ (fl : Floats) (host : Host fl.F) where
  open fl use {F, of_ℕ}

  -- `_as_float`
  unfoldable pub as_float : Value F → Option F
  as_float null = none
  as_float (number x) = some x
  as_float (boolean true) = some (of_ℕ 1)
  as_float (boolean false) = some (of_ℕ 0)
  as_float (string s) = host.float_of_text s

  pub str : Value F → String
  str null = "None"
  str (number x) = host.str_of_number x
  str (boolean true) = "True"
  str (boolean false) = "False"
  str (string s) = s

pub is_valid_state : String → Bool
is_valid_state s =
    str_eq s "RUNNING"
    || str_eq s "IDLE"
    || str_eq s "DOWN"
    || str_eq s "MAINTENANCE"
    || str_eq s "UNKNOWN"

abbrev pub is_state : Option String → String → Bool
is_state none s = false
is_state (some t) s = str_eq t s

-- `_insert`; `succeeds` is false if the statement raises, which is logged
pub insert {ℓ} : {A : Type ℓ} → Bool → List A → List A → List A
insert succeeds [] table = table
insert succeeds (r ∷ rows) table = if succeeds then table ++ (r ∷ rows) else table

module _ {F : Type 0} where
  -- `_handle_state_change`
  pub handle_state_change : ℕ → String → ℕ → Consumer F → Consumer F
  unfolding is_valid_state
  handle_state_change asset_id state time c =
      if not (is_valid_state state) || is_state (c.last_state asset_id) state then c else record c {
        last_state = λ a. if a == asset_id then some state else c.last_state a;
        events = c.events ++ record { time = time; asset_id = asset_id; state = state } ∷ [];
      }

  -- `_flush_buffer`
  pub flush_buffer : Bool → Consumer F → Outcome (Consumer F)
  unfolding insert
  flush_buffer succeeds c =
      if c.locked
      then blocked
      else done (record c {
        buffer = [];
        energy_buffer = [];
        production_buffer = [];
        tables = record {
          telemetry = insert succeeds c.buffer c.tables.telemetry;
          energy = insert succeeds c.energy_buffer c.tables.energy;
          production = insert succeeds c.production_buffer c.tables.production;
        };
      })

  release : Outcome (Consumer F) → Outcome (Consumer F)
  release blocked = blocked
  release (done c) = done (record c { locked = false })

  -- `if telemetry_rows: with self._buffer_lock: …`
  pub buffer_rows : Bool → List (TelemetryRow F) → Consumer F → Outcome (Consumer F)
  unfolding flush_buffer release
  buffer_rows succeeds [] c = done c
  buffer_rows succeeds (r ∷ rows) c =
      let held = record c { locked = true; buffer = c.buffer ++ (r ∷ rows) } in
      if c.locked
      then blocked
      else release
          (if leb batch_size (length held.buffer) then flush_buffer succeeds held else done held)

-- the values of the payload's asset-level metrics, a dictionary
pub get : {F : Type 0} → String → List (String × Value F) → Value F
get k [] = null
get k ((j, v) ∷ m) = if str_eq j k then v else get k m

module _ (fl : Floats) (host : Host fl.F) (tariff_rate : ℕ → ℕ → Option fl.F) where
  open fl use {F, of_ℕ, mul, div, sqrt, le}

  -- the truth value of a float
  pub is_nonzero : F → Bool
  is_nonzero x = not (le x (of_ℕ 0) && le (of_ℕ 0) x)

  pub report_state : ℕ → Value F → ℕ → Consumer F → Consumer F
  report_state asset_id null now c = c
  report_state asset_id state now c = handle_state_change asset_id (str fl host state) now c

  set_counters : ℕ → Previous F → Consumer F → Consumer F
  set_counters asset_id p c = record c {
    last_counters = λ a. if a == asset_id then p else c.last_counters a;
  }

  -- a payload with a counter: the production row of its interval, unless both deltas are zero
  production_of : ℕ → Option F → ℕ → Option F → Option F → Consumer F → Consumer F
  production_of asset_id cycle_time_s now none none c = c
  production_of asset_id cycle_time_s now good_reading reject_reading c =
      let (good, p) = counter_delta fl good_count good_reading (c.last_counters asset_id) in
      let (reject, p') = counter_delta fl reject_count reject_reading p in
      let row : ProductionRow F = record {
        time = now;
        asset_id = asset_id;
        good_count = good;
        reject_count = reject;
        cycle_time_s = cycle_time_s;
      } in
      let c' = set_counters asset_id p' c in
      if is_nonzero good || is_nonzero reject
      then record c' { production_buffer = c.production_buffer ++ row ∷ [] }
      else c'

  pub report_production : ℕ → List (String × Value F) → ℕ → Consumer F → Consumer F
  unfolding production_of set_counters is_nonzero
  report_production asset_id metrics now c =
      production_of asset_id (as_float fl host (get "cycle_time_s" metrics)) now
        (as_float fl host (get "good_count" metrics))
        (as_float fl host (get "reject_count" metrics)) c

  current : F → Option F → Option F
  current power_kw none = none
  current power_kw (some power_factor) =
      if is_nonzero power_factor
      then some (div (mul power_kw (of_ℕ 1000)) (mul (mul (sqrt (of_ℕ 3)) (of_ℕ 415)) power_factor))
      else none

  energy_of : ℕ → List (String × Value F) → ℕ → Option F → Option F → Consumer F → Consumer F
  energy_of asset_id metrics now (some power_kw) (some energy) c =
      let (delta, p) = counter_delta fl energy_kwh (some energy) (c.last_counters asset_id) in
      let power_factor = as_float fl host (get "power_factor" metrics) in
      let row : EnergyRow F = record {
        time = now;
        asset_id = asset_id;
        power_kw = power_kw;
        energy_kwh = delta;
        power_factor = power_factor;
        current_a = current power_kw power_factor;
        tariff_rate = tariff_rate asset_id now;
      } in
      let c' = set_counters asset_id p c in
      record c' { energy_buffer = c.energy_buffer ++ row ∷ [] }
  energy_of asset_id metrics now power_kw energy c = c

  pub report_energy : ℕ → List (String × Value F) → ℕ → Consumer F → Consumer F
  unfolding energy_of current set_counters is_nonzero
  report_energy asset_id metrics now c =
      energy_of asset_id metrics now (as_float fl host (get "power_kw" metrics))
        (as_float fl host (get "energy_kwh" metrics)) c

  -- `_handle_asset_metrics`
  pub handle_asset_metrics : ℕ → List (String × Value F) → ℕ → Consumer F → Consumer F
  handle_asset_metrics asset_id metrics now c =
      report_energy asset_id metrics now
        (report_production asset_id metrics now (report_state asset_id (get "state" metrics) now c))
