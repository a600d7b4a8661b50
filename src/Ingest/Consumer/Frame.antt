-- ===== src/Ingest/Consumer/Frame.antt =====
-- What the alarms and the asset-level facts of a message leave alone: the telemetry buffer and its
-- lock.
use digital_twin.Prelude.{ℕ, String, Option, none, some, List, ◌≡◌, refl, ◌∙◌, arith}
use digital_twin.Prelude.Floats.{Floats}
use digital_twin.Ingest.Consumer.{
  Consumer, Value, null, Host, get, handle_state_change, report_state, set_counters, production_of,
  report_production, energy_of, report_energy, handle_asset_metrics,
}

pub record Frame {F : Type 0} (c c' : Consumer F) : Type 0 where
  pub buffer : c'.buffer ≡ c.buffer
  pub locked : c'.locked ≡ c.locked

pub Frame-refl : {F : Type 0} (c : Consumer F) → Frame c c
Frame-refl c = record { buffer = refl; locked = refl }

pub Frame-trans : {F : Type 0} {a b c : Consumer F} → Frame a b → Frame b c → Frame a c
Frame-trans p q = record { buffer = q.buffer ∙ p.buffer; locked = q.locked ∙ p.locked }

state_change-Frame :
    {F : Type 0} (i : ℕ) (s : String) (t : ℕ) (c : Consumer F)
    → Frame c (handle_state_change i s t c)
unfolding handle_state_change
state_change-Frame i s t c = ground arith

module _ (fl : Floats) (host : Host fl.F) (tariff_rate : ℕ → ℕ → Option fl.F) where
  state-Frame :
      (i : ℕ) (v : Value fl.F) (now : ℕ) (c : Consumer fl.F)
      → Frame c (report_state fl host tariff_rate i v now c)
  unfolding report_state
  state-Frame i null now c = Frame-refl c
  state-Frame i _ now c = state_change-Frame i _ now c

  production-Frame :
      (i : ℕ) (cycle : Option fl.F) (now : ℕ) (good reject : Option fl.F) (c : Consumer fl.F)
      → Frame c (production_of fl host tariff_rate i cycle now good reject c)
  unfolding production_of set_counters
  production-Frame i cycle now none none c = Frame-refl c
  production-Frame i cycle now _ _ c = ground arith

  energy-Frame :
      (i : ℕ) (metrics : List (String × Value fl.F)) (now : ℕ) (power energy : Option fl.F)
      (c : Consumer fl.F)
      → Frame c (energy_of fl host tariff_rate i metrics now power energy c)
  unfolding energy_of set_counters
  energy-Frame i metrics now (some power) (some energy) c = record { buffer = refl; locked = refl }
  energy-Frame i metrics now _ _ c = Frame-refl c

  pub handle_asset_metrics-Frame :
      (i : ℕ) (metrics : List (String × Value fl.F)) (now : ℕ) (c : Consumer fl.F)
      → Frame c (handle_asset_metrics fl host tariff_rate i metrics now c)
  unfolding handle_asset_metrics report_production report_energy
  handle_asset_metrics-Frame i metrics now c =
      Frame-trans
        (Frame-trans (state-Frame i (get "state" metrics) now c) (production-Frame i _ now _ _ _))
        (energy-Frame i metrics now _ _ _)
