-- ===== src/Simulator/Sensors.antt =====
-- apps/simulator/sim/noise.py: `MeasurementModel` and `_apply_fault`. The lists of the model and its
-- dictionary of faults are one list of sensors, each with its own values and its fault, if it has one;
-- floating-point numbers and exp are parameters, and the random draws of a sample are arguments.
-- Timestamp jitter is not modelled. A NaN that stands for no value is none.
pub mod Readings
use digital_twin.Prelude.{
  ℕ, Bool, true, false, not, Option, none, some, List, [], ◌∷◌, ◌==◌, ◌&&◌, if◌then◌else◌,
}
use digital_twin.Prelude.Floats.{Floats}
use digital_twin.Simulator.Clamp.{fmax, fmin}

pub data SensorFaultKind : Type 0 where
  stuck offset dropout drift : SensorFaultKind

pub record NoiseParams (F : Type 0) : Type 0 where
  pub std : F
  pub drift : F
  pub spike_prob : F
  pub spike_scale : F
  pub dropout_prob : F

pub record SensorFault (F : Type 0) : Type 0 where
  pub kind : SensorFaultKind
  pub severity : F
  pub started_s : F
  pub until_s : Option F
  pub stuck_value : Option F

pub record Sensor (F : Type 0) : Type 0 where
  pub params : NoiseParams F
  pub min_valid : F
  pub max_valid : F
  pub bias : F
  pub last : Option F
  pub fault : Option (SensorFault F)

-- the draws for one sensor, and the clean value
pub record Draws (F : Type 0) : Type 0 where
  pub clean : F
  pub z_bias : F
  pub z_noise : F
  pub u_spike : F
  pub u_drop : F
  pub u_shape : F

module _ (fl : Floats) (exp : fl.F → fl.F) where
  unfoldable pub span : Sensor fl.F → fl.F
  span s = fl.sub s.max_valid s.min_valid

  -- `inject`
  unfoldable pub inject : SensorFaultKind → fl.F → fl.F → Option fl.F → Sensor fl.F → Sensor fl.F
  inject kind severity now_s duration_s s = record s {
    fault = some (record {
      kind = kind;
      severity = severity;
      started_s = now_s;
      until_s = elim duration_s [ none ↦ none | some d ↦ some (fl.add now_s d) ];
      stuck_value = s.last;
    });
  }

  -- `clear` of a sensor
  unfoldable pub clear : Sensor fl.F → Sensor fl.F
  clear s = record s { fault = none }

  unfoldable pub or_clean : fl.F → Option fl.F → fl.F
  or_clean clean none = clean
  or_clean clean (some v) = v

  unfoldable pub shifted : fl.F → Option fl.F → Option fl.F
  shifted by none = none
  shifted by (some v) = some (fl.add v by)

  -- `_apply_fault`: the value, and the value at which a sensor is stuck afterwards; 1/5 is
  -- OFFSET_SPAN_FRACTION and 1/20 is DRIFT_SPAN_FRACTION_PER_H
  unfoldable pub apply_kind :
      SensorFaultKind
      → SensorFault fl.F
      → Option fl.F
      → fl.F
      → fl.F
      → fl.F
      → Option fl.F × Option fl.F
  unfolding or_clean shifted
  apply_kind dropout fault value clean width now_s = (none, fault.stuck_value)
  apply_kind stuck fault value clean width now_s =
      let held = or_clean (or_clean clean value) fault.stuck_value in (some held, some held)
  apply_kind offset fault value clean width now_s = (
    shifted (fl.mul (fl.mul fault.severity (fl.div (fl.of_ℕ 1) (fl.of_ℕ 5))) width) value,
    fault.stuck_value,
  )
  apply_kind drift fault value clean width now_s =
      let hours = fl.div (fl.sub now_s fault.started_s) (fl.of_ℕ 3600) in
      (
        shifted
            (fl.mul (fl.mul (fl.mul fault.severity (fl.div (fl.of_ℕ 1) (fl.of_ℕ 20))) width) hours)
            value,
        fault.stuck_value,
      )

  -- fault.until_s is not None and now_s >= fault.until_s
  unfoldable pub is_over : fl.F → SensorFault fl.F → Bool
  is_over now_s fault = elim fault.until_s [ none ↦ false | some t ↦ fl.le t now_s ]

  -- the value after the fault, and the fault that is left
  unfoldable pub with_fault :
      Option (SensorFault fl.F)
      → Option fl.F
      → fl.F
      → fl.F
      → fl.F
      → Option fl.F × Option (SensorFault fl.F)
  unfolding apply_kind is_over
  with_fault none value clean width now_s = (value, none)
  with_fault (some fault) value clean width now_s = if is_over now_s fault then (value, none) else (
    (apply_kind fault.kind fault value clean width now_s).0,
    some (record fault { stuck_value = (apply_kind fault.kind fault value clean width now_s).1 }),
  )

  -- the slow bias; 86400 is DRIFT_CORRELATION_S
  unfoldable pub next_bias : fl.F → Draws fl.F → Sensor fl.F → fl.F
  unfolding span
  next_bias dt d s =
      let decay = exp (fl.div (fl.sub (fl.of_ℕ 0) dt) (fl.of_ℕ 86400)) in
      let bias_scale = fl.sqrt (fl.sub (fl.of_ℕ 1) (fl.mul decay decay)) in
      fl.add (fl.mul s.bias decay)
        (fl.mul (fl.mul (fl.mul s.params.drift (span s)) bias_scale) d.z_bias)

  unfoldable pub half : fl.F
  half = fl.div (fl.of_ℕ 1) (fl.of_ℕ 2)

  -- a spike, up or down
  unfoldable pub spiked : Draws fl.F → Sensor fl.F → fl.F → fl.F
  unfolding span half
  spiked d s value =
      let sign = if fl.lt d.u_shape half then fl.sub (fl.of_ℕ 0) (fl.of_ℕ 1) else fl.of_ℕ 1 in
      if fl.lt d.u_spike s.params.spike_prob
      then fl.add value (
          fl.mul (fl.mul (fl.mul sign s.params.spike_scale) (span s))
            (fl.add half (fl.abs (fl.sub d.u_shape half))))
      else value

  -- the value before the fault
  unfoldable pub measured : fl.F → Draws fl.F → Sensor fl.F → Option fl.F
  unfolding next_bias spiked
  measured dt d s =
      let value =
        spiked d s (fl.add (fl.add d.clean (next_bias dt d s)) (fl.mul s.params.std d.z_noise)) in
      if fl.lt d.u_drop s.params.dropout_prob then none else some value

  -- `min(max(value, min_valid), max_valid)`, and the last value
  unfoldable pub clamped : Sensor fl.F → Option fl.F → Option fl.F
  unfolding fmin fmax
  clamped s none = none
  clamped s (some v) = some (fmin fl (fmax fl v s.min_valid) s.max_valid)

  unfoldable pub or_last : Option fl.F → Option fl.F → Option fl.F
  or_last none last = last
  or_last (some v) last = some v

  unfoldable pub faulted :
      fl.F → fl.F → Draws fl.F → Sensor fl.F → Option fl.F × Option (SensorFault fl.F)
  unfolding with_fault measured span
  faulted now_s dt d s = with_fault s.fault (measured dt d s) d.clean (span s) now_s

  -- the body of the loop of `sample`: what the sensor reports, and the sensor afterwards
  unfoldable pub sample_one : fl.F → fl.F → Draws fl.F → Sensor fl.F → Option fl.F × Sensor fl.F
  unfolding faulted clamped or_last next_bias
  sample_one now_s dt d s =
      let value = clamped s (faulted now_s dt d s).0 in
      (
        value,
        record s {
          bias = next_bias dt d s;
          fault = (faulted now_s dt d s).1;
          last = or_last value s.last;
        },
      )

  -- `sample`, of as many sensors as there are draws
  unfoldable pub sample :
      fl.F → fl.F → List (Draws fl.F) → List (Sensor fl.F) → List (Option fl.F) × List (Sensor fl.F)
  unfolding sample_one
  sample now_s dt [] sensors = ([], sensors)
  sample now_s dt (d ∷ ds) [] = ([], [])
  sample now_s dt (d ∷ ds) (s ∷ ss) =
      let rest = sample now_s dt ds ss in
      ((sample_one now_s dt d s).0 ∷ rest.0, (sample_one now_s dt d s).1 ∷ rest.1)
