-- ===== src/Simulator/Sensors/Readings.antt =====
-- What a sensor reports is in its valid range, and a dropout is silent until it is over.
use digital_twin.Prelude.{
  false, Option, none, some, List, [], ◌∷◌, ◌≡◌, ap, ◌∙◌, arith, All, if_ind,
}
use digital_twin.Prelude.Floats.{Floats}
use digital_twin.Simulator.Clamp.{Within, clamp-Within}
use digital_twin.Simulator.Sensors.{
  SensorFaultKind, dropout, SensorFault, Sensor, Draws, span, apply_kind, is_over, with_fault,
  measured, clamped, faulted, sample_one, sample,
}

module _ (fl : Floats) (exp : fl.F → fl.F) where
  -- the bounds of a sensor compare as they should
  pub record IsRange (s : Sensor fl.F) : Type 0 where
    pub low : fl.lt s.min_valid s.min_valid ≡ false
    pub high : fl.lt s.max_valid s.max_valid ≡ false
    pub order : fl.lt s.max_valid s.min_valid ≡ false

  -- no value, or one that is neither below the range nor above it
  unfoldable pub IsValid : fl.F → fl.F → Option fl.F → Type 0
  IsValid low high none = Unit
  IsValid low high (some v) = Within fl low high v

  -- the values and the remembered values of the sensors, in their order
  unfoldable pub AllValid : List (Sensor fl.F) → List (Option fl.F) → Type 0
  AllValid (s ∷ ss) (v ∷ vs) = IsValid s.min_valid s.max_valid v × AllValid ss vs
  AllValid ss vs = Unit

  clamped-IsValid :
      (s : Sensor fl.F) (o : Option fl.F)
      → IsRange s
      → IsValid s.min_valid s.max_valid (clamped fl exp s o)
  unfolding clamped IsValid
  clamped-IsValid s none r = tt
  clamped-IsValid s (some v) r = clamp-Within fl s.min_valid s.max_valid v r.low r.high r.order

  -- Whatever the draws, the faults and the state of the sensors, each reports no value or one in its
  -- valid range.
  pub sample-AllValid :
      (now_s dt : fl.F) (ds : List (Draws fl.F)) (ss : List (Sensor fl.F))
      → All IsRange ss
      → AllValid ss (sample fl exp now_s dt ds ss).0
  unfolding sample sample_one AllValid
  sample-AllValid now_s dt [] [] h = tt
  sample-AllValid now_s dt [] (s ∷ ss) h = tt
  sample-AllValid now_s dt (d ∷ ds) [] h = tt
  sample-AllValid now_s dt (d ∷ ds) (s ∷ ss) (r, h) =
      (clamped-IsValid s (faulted fl exp now_s dt d s).0 r, sample-AllValid now_s dt ds ss h)

  -- the sensor has a dropout that ends at the time, or never
  pub record IsDropped (until : Option fl.F) (s : Sensor fl.F) : Type 0 where
    pub fault :
        (f : SensorFault fl.F) × (s.fault ≡ some f) × (f.kind ≡ dropout) × (f.until_s ≡ until)

  -- the times of samples, all before the end
  unfoldable pub IsBefore : Option fl.F → fl.F → Type 0
  IsBefore none now_s = Unit
  IsBefore (some t) now_s = fl.le t now_s ≡ false

  -- the samples of one sensor
  unfoldable pub reports : List (fl.F × fl.F × Draws fl.F) → Sensor fl.F → List (Option fl.F)
  reports [] s = []
  reports ((now_s, dt, d) ∷ l) s =
      (sample_one fl exp now_s dt d s).0 ∷ reports l (sample_one fl exp now_s dt d s).1

  not_over :
      (until : Option fl.F) (now_s : fl.F) (f : SensorFault fl.F)
      → f.until_s ≡ until
      → IsBefore until now_s
      → is_over fl exp now_s f ≡ false
  unfolding is_over IsBefore
  not_over none now_s f e h = ap (λ u. elim u [ none ↦ false | some t ↦ fl.le t now_s ]) e
  not_over (some t) now_s f e h = ap (λ u. elim u [ none ↦ false | some t ↦ fl.le t now_s ]) e ∙ h

  dropped_fault :
      (f : SensorFault fl.F) (v : Option fl.F) (clean width now_s : fl.F)
      → f.kind ≡ dropout
      → is_over fl exp now_s f ≡ false
      → with_fault fl exp (some f) v clean width now_s ≡ (none, some f)
  unfolding with_fault apply_kind
  dropped_fault f v clean width now_s k n =
      if_ind {A = Option fl.F × Option (SensorFault fl.F)} (λ x. x ≡ (none, some f))
        (is_over fl exp now_s f) _ _ (λ e. absurd (ground (arith, e, n)))
        (λ e.
          ap {A = SensorFaultKind} {B = Option fl.F × Option (SensorFault fl.F)}
            (λ kind. (
              (apply_kind fl exp kind f v clean width now_s).0,
              some (record f { stuck_value = (apply_kind fl exp kind f v clean width now_s).1 }),
            ))
            k)

  faulted_lem :
      (now_s dt : fl.F) (d : Draws fl.F) (s : Sensor fl.F) (f : SensorFault fl.F)
      → s.fault ≡ some f
      → f.kind ≡ dropout
      → is_over fl exp now_s f ≡ false
      → faulted fl exp now_s dt d s ≡ (none, some f)
  unfolding faulted
  faulted_lem now_s dt d s f e k n =
      ap (λ x. with_fault fl exp x (measured fl exp dt d s) d.clean (span fl exp s) now_s) e
      ∙ dropped_fault f (measured fl exp dt d s) d.clean (span fl exp s) now_s k n

  dropped_lem :
      (until : Option fl.F) (now_s dt : fl.F) (d : Draws fl.F) (s : Sensor fl.F)
      → IsBefore until now_s
      → IsDropped until s
      → ((sample_one fl exp now_s dt d s).0 ≡ none)
        × IsDropped until (sample_one fl exp now_s dt d s).1
  unfolding sample_one clamped
  dropped_lem until now_s dt d s b h =
      let (f, e, k, u) = h.fault in
      let q : faulted fl exp now_s dt d s ≡ (none, some f) =
        faulted_lem now_s dt d s f e k (not_over until now_s f u b) in
      (ap (λ x. clamped fl exp s x.0) q, record { fault = (f, ap (λ x. x.1) q, k, u) })

  -- A sensor with a dropout reports no value in any samples before the dropout is over.
  pub dropout_is_silent :
      (until : Option fl.F) (l : List (fl.F × fl.F × Draws fl.F)) (s : Sensor fl.F)
      → All (λ x. IsBefore until x.0) l
      → IsDropped until s
      → All (λ v. v ≡ none) (reports l s)
  unfolding reports
  dropout_is_silent until [] s b h = tt
  dropout_is_silent until ((now_s, dt, d) ∷ l) s (b, bs) h =
      let (e, k) = dropped_lem until now_s dt d s b h in
      (e, dropout_is_silent until l (sample_one fl exp now_s dt d s).1 bs k)
