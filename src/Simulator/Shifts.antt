-- ===== src/Simulator/Shifts.antt =====
-- apps/simulator/sim/shifts.py: the calendar of the shifts, and `_shift_changes` of engine.py, the
-- process that follows it. Local times are microseconds of the plant's clock from the midnight that
-- starts a Monday, at least a day before all of them: datetimes of one time zone are compared and
-- shifted by their local clock. Instants are microseconds of UTC. `ZoneInfo` is a parameter, `Zone`.
-- Whole numbers stand for the float seconds of SimPy.
pub mod Edges
pub mod Constant
pub mod Follow
use digital_twin.Prelude.{
  ℕ, zero, suc, ◌+◌, ◌-◌, ◌*◌, ◌/◌, ◌%◌, Bool, true, false, Option, none, some, List, [], ◌∷◌, ◌++◌,
  String, leb, ltb, ◌==◌, ◌&&◌, ◌||◌, if◌then◌else◌,
}

-- times of the day in microseconds
pub record ShiftSpec : Type 0 where
  pub code : String
  pub name : String
  pub start : ℕ
  pub end : ℕ

pub record ShiftCalendar : Type 0 where
  pub shifts : List ShiftSpec
  pub working_days : List ℕ

-- what `ZoneInfo` does: `astimezone` of an instant, and the instant of a local time
pub record Zone : Type 0 where
  pub to_local : ℕ → ℕ
  pub to_utc : ℕ → ℕ

-- an occurrence of a shift
pub record Instance : Type 0 where
  pub shift : ShiftSpec
  pub start : ℕ
  pub end : ℕ

-- timedelta(days=1)
abbrev pub one_day : ℕ
one_day = 86400000000

-- SEARCH_DAYS
abbrev pub search_days : ℕ
search_days = 8

-- the number of the day of a time
unfoldable pub day_of : ℕ → ℕ
day_of t = t / one_day

unfoldable pub is_in : ℕ → List ℕ → Bool
is_in d [] = false
is_in d (x ∷ xs) = (x == d) || is_in d xs

-- the body of the inner loop of `_instances`
unfoldable pub instance_on : ℕ → ShiftSpec → Instance
instance_on day s =
    let start = one_day * day + s.start in
    let end = one_day * day + s.end in
    record { shift = s; start = start; end = if leb end start then end + one_day else end }

-- the inner loop
unfoldable pub instances_on : ℕ → List ShiftSpec → List Instance
unfolding instance_on
instances_on day [] = []
instances_on day (s ∷ ss) = instance_on day s ∷ instances_on day ss

-- `_instances`: the outer loop, from a day on
unfoldable pub instances : ShiftCalendar → ℕ → ℕ → List Instance
unfolding instances_on is_in
instances c day zero = []
instances c day (suc days) =
    let rest = instances c (suc day) days in
    if is_in (day % 7) c.working_days then instances_on day c.shifts ++ rest else rest

-- start <= local < end
unfoldable pub covers : Instance → ℕ → Bool
covers i t = leb i.start t && ltb t i.end

-- the loop of `active`
unfoldable pub first_covering : List Instance → ℕ → Option ShiftSpec
unfolding covers
first_covering [] t = none
first_covering (i ∷ is) t = if covers i t then some i.shift else first_covering is t

-- `active` from its local time on
unfoldable pub covering : ShiftCalendar → ℕ → Option ShiftSpec
unfolding first_covering instances day_of
covering c local = first_covering (instances c (day_of local - 1) 2) local

-- if edge > local
unfoldable pub if_later : ℕ → ℕ → List ℕ → List ℕ
if_later local edge edges = if ltb local edge then edge ∷ edges else edges

-- `boundaries` of `next_change`
unfoldable pub boundaries : List Instance → ℕ → List ℕ
unfolding if_later
boundaries [] local = []
boundaries (i ∷ is) local = if_later local i.start (if_later local i.end (boundaries is local))

-- min of a list with a first element
unfoldable pub least : ℕ → List ℕ → ℕ
least x [] = x
least x (y ∷ ys) = least (if ltb y x then y else x) ys

-- min(boundaries) if boundaries else local + timedelta(days=1)
unfoldable pub least_or : ℕ → List ℕ → ℕ
unfolding least
least_or d [] = d
least_or d (x ∷ xs) = least x xs

unfoldable pub active : Zone → ShiftCalendar → ℕ → Option ShiftSpec
unfolding covering
active z c t = covering c (z.to_local t)

-- `next_change` from its local time on
unfoldable pub next_edge : ShiftCalendar → ℕ → ℕ
unfolding least_or boundaries instances day_of
next_edge c local =
    least_or (local + one_day) (boundaries (instances c (day_of local - 1) search_days) local)

-- a local time
unfoldable pub next_change : Zone → ShiftCalendar → ℕ → ℕ
unfolding next_edge
next_change z c t = next_edge c (z.to_local t)
