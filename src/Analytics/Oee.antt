-- ===== src/Analytics/Oee.antt =====
-- apps/api/app/modules/analytics/oee.py: `durations_from_events`, the times that `availability`
-- divides, and `downtime_pareto`. Times are whole microseconds, in which Python's `datetime` counts,
-- where the source goes on in seconds; a share is given as its numerator and its denominator.
pub mod Period
pub mod Pareto
use text.Mathlib.Text.{◌==◌ as str_eq}
use digital_twin.Prelude.{
  ℕ, zero, suc, ◌+◌, ◌-◌, min, max, String, Bool, true, false, not, Option, none, some, List, [],
  ◌∷◌, ltb, leb, ◌||◌, take, if◌then◌else◌,
}

pub record Event : Type 0 where
  pub at : ℕ
  pub state : String
  pub cause : Option String

pub record StateDuration : Type 0 where
  pub state : String
  pub seconds : ℕ
  pub cause_code : Option String

-- `sorted(events, key=lambda e: e[0])`, which is stable
pub insert_by_time : Event → List Event → List Event
insert_by_time e [] = e ∷ []
insert_by_time e (x ∷ xs) = if leb e.at x.at then e ∷ x ∷ xs else x ∷ insert_by_time e xs

pub order_by_time : List Event → List Event
order_by_time [] = []
order_by_time (e ∷ es) = insert_by_time e (order_by_time es)

-- `ordered[i + 1][0] if i + 1 < len(ordered) else period_end`
pub next_time : List Event → ℕ → ℕ
next_time [] period_end = period_end
next_time (e ∷ es) period_end = e.at

pub clipped : List Event → ℕ → ℕ → List StateDuration
clipped [] period_start period_end = []
clipped (e ∷ es) period_start period_end =
    let start = max e.at period_start in
    let end = min (next_time es period_end) period_end in
    let rest = clipped es period_start period_end in
    if ltb start end
    then record { state = e.state; seconds = end - start; cause_code = e.cause } ∷ rest
    else rest

pub durations_from_events : List Event → ℕ → ℕ → List StateDuration
durations_from_events events period_start period_end =
    clipped (order_by_time events) period_start period_end

-- `sum(d.seconds for d in durations if p(d.state))`
pub time_in : (String → Bool) → List StateDuration → ℕ
time_in p [] = 0
time_in p (d ∷ ds) = (if p d.state then d.seconds else 0) + time_in p ds

abbrev pub is_running : String → Bool
is_running state = str_eq state "RUNNING"

abbrev pub is_planned : String → Bool
is_planned state = not (str_eq state "MAINTENANCE")

abbrev pub is_unplanned : String → Bool
is_unplanned state = str_eq state "DOWN" || (str_eq state "IDLE" || str_eq state "UNKNOWN")

-- `duration.cause_code or "unclassified"`
abbrev pub cause_of : Option String → String
cause_of none = "unclassified"
cause_of (some c) = if str_eq c "" then "unclassified" else c

-- `d[k] = d.get(k, 0.0) + n`
pub add_to : String → ℕ → List (String × ℕ) → List (String × ℕ)
add_to k n [] = (k, n) ∷ []
add_to k n ((j, m) ∷ d) = if str_eq j k then (j, m + n) ∷ d else (j, m) ∷ add_to k n d

pub by_cause : List StateDuration → List (String × ℕ) → List (String × ℕ)
by_cause [] d = d
by_cause (x ∷ xs) d =
    by_cause xs (if is_unplanned x.state then add_to (cause_of x.cause_code) x.seconds d else d)

pub sum_values : List (String × ℕ) → ℕ
sum_values [] = 0
sum_values ((k, n) ∷ d) = n + sum_values d

-- `sorted(…, reverse=True)`, which keeps the order of equal keys
pub insert_descending : String × ℕ → List (String × ℕ) → List (String × ℕ)
insert_descending x [] = x ∷ []
insert_descending x (y ∷ ys) = if leb y.1 x.1 then x ∷ y ∷ ys else y ∷ insert_descending x ys

pub order_descending : List (String × ℕ) → List (String × ℕ)
order_descending [] = []
order_descending (x ∷ xs) = insert_descending x (order_descending xs)

pub record Row : Type 0 where
  pub cause_code : String
  pub seconds : ℕ
  -- the numerators of `share` and `cumulative_share`
  pub share : ℕ
  pub cumulative_share : ℕ
  -- their denominator; when it is 0, both are 0.0
  pub total : ℕ

pub rows_from : ℕ → ℕ → List (String × ℕ) → List Row
rows_from total cumulative [] = []
rows_from total cumulative ((cause, seconds) ∷ rest) =
    record {
      cause_code = cause;
      seconds = seconds;
      share = seconds;
      cumulative_share = cumulative + seconds;
      total = total;
    }
    ∷ rows_from total (cumulative + seconds) rest

pub downtime_pareto : List StateDuration → ℕ → List Row
downtime_pareto durations top_n =
    let causes = by_cause durations [] in
    rows_from (sum_values causes) 0 (take top_n (order_descending causes))
