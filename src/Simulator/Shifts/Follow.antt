-- ===== src/Simulator/Shifts/Follow.antt =====
-- `_shift_changes` of apps/simulator/sim/engine.py: the process that keeps the engine's shift. Its
-- log entries are left out.
use digital_twin.Prelude.{
  ℕ, zero, suc, ◌+◌, ◌-◌, ◌<◌, ◌≤◌, ◌≡◌, refl, sym, ◌∙◌, arith, Option, max, All,
}
use digital_twin.Simulator.Shifts.{
  ShiftSpec, ShiftCalendar, Zone, one_day, next_edge, active, next_change,
}
use digital_twin.Simulator.Shifts.Edges.{IsTimes, next_edge-after}
use digital_twin.Simulator.Shifts.Constant.{active_until_change}

-- BOUNDARY_EPSILON_S
abbrev boundary_epsilon : ℕ
boundary_epsilon = 1000

-- the engine's shift, and when the process last woke
pub record Follower : Type 0 where
  pub sim_time : ℕ
  pub shift : Option ShiftSpec

-- the shift in `__init__`
unfoldable pub begin_at : Zone → ShiftCalendar → ℕ → Follower
unfolding active
begin_at z c start = record { sim_time = start; shift = active z c start }

-- when the timeout of a round ends
unfoldable pub wakes_at : Zone → ShiftCalendar → Follower → ℕ
unfolding next_change
wakes_at z c f =
    f.sim_time + (max (z.to_utc (next_change z c f.sim_time) - f.sim_time) 0 + boundary_epsilon)

-- one round of the loop
unfoldable pub shift_change : Zone → ShiftCalendar → Follower → Follower
unfolding wakes_at active
shift_change z c f = record { sim_time = wakes_at z c f; shift = active z c (wakes_at z c f) }

unfoldable pub shift_changes : Zone → ShiftCalendar → ℕ → Follower → Follower
unfolding shift_change
shift_changes z c zero f = f
shift_changes z c (suc n) f = shift_changes z c n (shift_change z c f)

-- The local clock is never put forward or back.
pub record IsFixed (z : Zone) (ahead : ℕ) : Type 0 where
  pub there : (t : ℕ) → z.to_local t ≡ t + ahead
  pub back : (t : ℕ) → ahead ≤ t → z.to_utc t + ahead ≡ t

record IsCurrent (z : Zone) (c : ShiftCalendar) (f : Follower) : Type 0 where
  right : f.shift ≡ active z c f.sim_time
  late : one_day ≤ f.sim_time

shift_changes-IsCurrent :
    (z : Zone) (c : ShiftCalendar) (n : ℕ) (f : Follower)
    → IsCurrent z c f
    → IsCurrent z c (shift_changes z c n f)
unfolding shift_changes shift_change wakes_at
shift_changes-IsCurrent z c zero f h = h
shift_changes-IsCurrent z c (suc n) f h =
    shift_changes-IsCurrent z c n (shift_change z c f)
      (record { right = refl; late = omega (arith, h.late) })

-- the calendar's shift does not change before the next change, by the clock of the zone
active_until :
    (z : Zone) (ahead : ℕ) (c : ShiftCalendar) (t u : ℕ)
    → IsFixed z ahead
    → All IsTimes c.shifts
    → one_day ≤ t
    → t ≤ u
    → u < z.to_utc (next_change z c t)
    → active z c u ≡ active z c t
unfolding active next_change
active_until z ahead c t u fixed h late le lt =
    let there : z.to_local t ≡ t + ahead = fixed.there t in
    let after : z.to_local t < next_edge c (z.to_local t) = next_edge-after c (z.to_local t) in
    let back : z.to_utc (next_edge c (z.to_local t)) + ahead ≡ next_edge c (z.to_local t) =
      fixed.back (next_edge c (z.to_local t)) (omega (arith, there, after)) in
    active_until_change c (z.to_local t) (z.to_local u) h (omega (arith, there, late))
      (omega (arith, there, fixed.there u, le)) (omega (arith, fixed.there u, back, lt))

-- the next change is ahead
change_ahead :
    (z : Zone) (ahead : ℕ) (c : ShiftCalendar) (t : ℕ)
    → IsFixed z ahead
    → t < z.to_utc (next_change z c t)
unfolding next_change
change_ahead z ahead c t fixed =
    let there : z.to_local t ≡ t + ahead = fixed.there t in
    let after : z.to_local t < next_edge c (z.to_local t) = next_edge-after c (z.to_local t) in
    omega
      (arith, there, after, fixed.back (next_edge c (z.to_local t)) (omega (arith, there, after)))

-- In a time zone whose clock is never put forward or back, for a calendar whose shifts begin and end
-- at times of the day, and an engine that starts at least a day after the first: after any number of
-- rounds of the process, the shift of the engine is the one the calendar has at every time from its
-- last wake-up to a millisecond before its next one, and the next wake-up is a millisecond after the
-- next change.
pub shift_follows_calendar :
    (z : Zone) (ahead : ℕ) (c : ShiftCalendar) (start n u : ℕ)
    → IsFixed z ahead
    → All IsTimes c.shifts
    → one_day ≤ start
    → (shift_changes z c n (begin_at z c start)).sim_time ≤ u
    → u + 1000 < wakes_at z c (shift_changes z c n (begin_at z c start))
    → ((shift_changes z c n (begin_at z c start)).shift ≡ active z c u)
      × (wakes_at z c (shift_changes z c n (begin_at z c start))
          ≡ z.to_utc (next_change z c (shift_changes z c n (begin_at z c start)).sim_time) + 1000)
unfolding wakes_at begin_at
shift_follows_calendar z ahead c start n u fixed h l le lt =
    let f : Follower = shift_changes z c n (begin_at z c start) in
    let k : IsCurrent z c f =
      shift_changes-IsCurrent z c n (begin_at z c start) (record { right = refl; late = l }) in
    let a : f.sim_time < z.to_utc (next_change z c f.sim_time) =
      change_ahead z ahead c f.sim_time fixed in
    (
      k.right ∙ sym (active_until z ahead c f.sim_time u fixed h k.late le (omega (arith, a, lt))),
      omega (arith, a),
    )
