-- ===== src/Tests/Shifts.antt =====
-- The calendar of the shifts at a concrete plant.
use digital_twin.Prelude.{ℕ, ◌+◌, ◌-◌, ◌*◌, ◌≡◌, refl, arith, some, [], ◌∷◌, All}
use digital_twin.Simulator.Shifts.{
  ShiftSpec, ShiftCalendar, Zone, active, next_change, one_day, covering, next_edge, first_covering,
  instances, instances_on, instance_on, is_in, covers, day_of, boundaries, if_later, least_or,
  least,
}
use digital_twin.Simulator.Shifts.Edges.{IsTimes}
use digital_twin.Simulator.Shifts.Follow.{
  begin_at, IsFixed, wakes_at, shift_change, shift_changes, shift_follows_calendar,
}

abbrev hour : ℕ
hour = 3600000000

abbrev shift_a : ShiftSpec
shift_a = record { code = "A"; name = "Morning"; start = 6 * hour; end = 14 * hour }

abbrev shift_c : ShiftSpec
shift_c = record { code = "C"; name = "Night"; start = 22 * hour; end = 6 * hour }

abbrev calendar : ShiftCalendar
calendar = record { shifts = shift_a ∷ shift_c ∷ []; working_days = 0 ∷ 1 ∷ 2 ∷ 3 ∷ 4 ∷ [] }

-- Saturday, two in the morning: Friday's night shift
saturday_night : covering calendar (5 * one_day + 2 * hour) ≡ some shift_c
unfolding covering first_covering instances instances_on instance_on is_in covers day_of
saturday_night = refl

-- The weekend ends on Monday at six.
over_weekend : next_edge calendar (5 * one_day + 7 * hour) ≡ 7 * one_day + 6 * hour
unfolding next_edge boundaries if_later least_or least instances instances_on instance_on is_in
    day_of
over_weekend = refl

calendar-IsTimes : All IsTimes calendar.shifts
calendar-IsTimes = omega arith

-- one hour ahead of UTC
abbrev winter : Zone
winter = record { to_local = λ t. t + hour; to_utc = λ t. t - hour }

winter-IsFixed : IsFixed winter hour
winter-IsFixed = record { there = λ t. refl; back = λ t le. omega (arith, le) }

-- after two rounds from Tuesday six o'clock: the night shift, at eleven
shift_follows_calendar_example :
    ((shift_changes winter calendar 2 (begin_at winter calendar (one_day + 5 * hour))).shift
      ≡ active winter calendar (one_day + 22 * hour))
    × (wakes_at winter calendar
          (shift_changes winter calendar 2 (begin_at winter calendar (one_day + 5 * hour)))
        ≡ winter.to_utc (
            next_change winter calendar
              (shift_changes winter calendar 2
                (begin_at winter calendar (one_day + 5 * hour))).sim_time)
          + 1000)
unfolding shift_changes shift_change wakes_at begin_at next_change next_edge boundaries if_later
    least_or least instances instances_on instance_on is_in day_of
shift_follows_calendar_example =
    shift_follows_calendar winter hour calendar (one_day + 5 * hour) 2 (one_day + 22 * hour)
      winter-IsFixed calendar-IsTimes (omega arith) (omega arith) (omega arith)
