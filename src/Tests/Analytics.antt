-- ===== src/Tests/Analytics.antt =====
-- The theorems on apps/api/app/modules/analytics at concrete inputs.
use digital_twin.Prelude.{ℕ, ◌+◌, ◌-◌, ◌≤◌, max, String, not, none, some, List, [], ◌∷◌, ◌≡◌}
use digital_twin.Analytics.Oee.{
  Event, StateDuration, durations_from_events, time_in, is_running, is_planned,
}
use digital_twin.Analytics.Oee.Period.{all_time, earliest, durations_fill_period}

abbrev event : ℕ → String → Event
event t s = record { at = t; state = s; cause = none }

abbrev durations : List StateDuration
durations =
    durations_from_events (event 50 "DOWN" ∷ event 5 "RUNNING" ∷ event 80 "MAINTENANCE" ∷ []) 10 100

durations_fill_period_example :
    (all_time durations
      ≡ 100 - max (earliest (event 50 "DOWN") (event 5 "RUNNING" ∷ event 80 "MAINTENANCE" ∷ [])) 10)
    × (time_in is_planned durations + time_in (λ x. not (is_planned x)) durations
        ≡ 100
          - max (earliest (event 50 "DOWN") (event 5 "RUNNING" ∷ event 80 "MAINTENANCE" ∷ [])) 10)
    × (time_in is_running durations ≤ time_in is_planned durations)
durations_fill_period_example =
    durations_fill_period (event 50 "DOWN") (event 5 "RUNNING" ∷ event 80 "MAINTENANCE" ∷ []) 10 100

abbrev stops : List StateDuration
stops =
    record { state = "DOWN"; seconds = 40; cause_code = some "jam" }
    ∷ record { state = "RUNNING"; seconds = 400; cause_code = none }
    ∷ record { state = "IDLE"; seconds = 60; cause_code = none }
    ∷ record { state = "DOWN"; seconds = 30; cause_code = some "jam" }
    ∷ []
