-- ===== src/Ingest/Counters.antt =====
-- apps/api/app/ingest/consumer.py: `_counter_delta`. `previous` is the dictionary of one asset, whose
-- keys are the three counters.
pub mod Total
use digital_twin.Prelude.{Bool, true, false, Option, none, some, ◌≡◌, if◌then◌else◌}
use digital_twin.Prelude.Floats.{Floats}

pub data Counter : Type 0 where
  good_count reject_count energy_kwh : Counter

abbrev pub same : Counter → Counter → Bool
same good_count good_count = true
same reject_count reject_count = true
same energy_kwh energy_kwh = true
same _ _ = false

abbrev pub Previous : Type 0 → Type 0
Previous F = Counter → Option F

module _ (fl : Floats) where
  open fl use {F, of_ℕ, sub, lt}

  difference : Option F → F → F
  difference none current = of_ℕ 0
  difference (some last) current = if lt current last then of_ℕ 0 else sub current last

  -- `_counter_delta`: the delta and the dictionary afterwards
  pub counter_delta : Counter → Option F → Previous F → F × Previous F
  unfolding difference
  counter_delta key none previous = (of_ℕ 0, previous)
  counter_delta key (some current) previous =
      (difference (previous key) current, λ k. if same k key then some current else previous k)
