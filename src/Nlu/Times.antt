-- ===== src/Nlu/Times.antt =====
-- packages/nlu/src/twinvoice_nlu/slots.py: `parse_datetime`, with its tables of vocab.py. Times are
-- microseconds of the clock of `now` from the midnight that starts a Monday. The words of a
-- text, `normalise(text).split()`, are a parameter.
pub mod Future
use digital_twin.Prelude.{
  ℕ, ◌+◌, ◌-◌, ◌*◌, ◌/◌, ◌%◌, String, Bool, true, false, not, Option, none, some, List, [], ◌∷◌,
  leb, ltb, ◌==◌, ◌&&◌, ◌||◌, if◌then◌else◌,
}
use text.Mathlib.Text.{◌==◌ as str_eq}

abbrev pub one_day : ℕ
one_day = 86400000000

abbrev pub one_hour : ℕ
one_hour = 3600000000

-- WEEKDAYS
abbrev pub weekdays : List (String × ℕ)
weekdays =
    ("monday", 0)
    ∷ ("tuesday", 1)
    ∷ ("wednesday", 2)
    ∷ ("thursday", 3)
    ∷ ("friday", 4)
    ∷ ("saturday", 5)
    ∷ ("sunday", 6)
    ∷ ("somwar", 0)
    ∷ ("mangalwar", 1)
    ∷ ("budhwar", 2)
    ∷ ("guruwar", 3)
    ∷ ("shukrawar", 4)
    ∷ ("shanivar", 5)
    ∷ ("ravivar", 6)
    ∷ []

-- TIME_OF_DAY
abbrev pub times_of_day : List (String × ℕ)
times_of_day =
    ("morning", 8)
    ∷ ("subah", 8)
    ∷ ("noon", 12)
    ∷ ("afternoon", 14)
    ∷ ("dopahar", 14)
    ∷ ("evening", 18)
    ∷ ("shaam", 18)
    ∷ ("night", 22)
    ∷ ("raat", 22)
    ∷ []

unfoldable pub value_of : String → List (String × ℕ) → Option ℕ
value_of t [] = none
value_of t ((k, v) ∷ table) = if str_eq k t then some v else value_of t table

-- the first element of (table[t] for t in tokens if t in table)
unfoldable pub first_known : List (String × ℕ) → List String → Option ℕ
unfolding value_of
first_known table [] = none
first_known table (t ∷ ts) = elim (value_of t table) [
  | none ↦ first_known table ts
  | some v ↦ some v
]

unfoldable pub has : String → List String → Bool
has w [] = false
has w (t ∷ ts) = str_eq t w || has w ts

unfoldable pub hour_or : ℕ → Option ℕ → ℕ
hour_or d none = d
hour_or d (some h) = h

unfoldable pub hour_of : List String → ℕ
unfolding first_known hour_or
hour_of tokens = hour_or 8 (first_known times_of_day tokens)

-- now.replace(hour=hour, minute=0, second=0, microsecond=0)
unfoldable pub at_hour : ℕ → ℕ → ℕ
at_hour hour now = one_day * (now / one_day) + one_hour * hour

unfoldable pub weekday : ℕ → ℕ
weekday t = t / one_day % 7

-- (weekday - now.weekday()) % 7
unfoldable pub days_until : ℕ → ℕ → ℕ
unfolding weekday
days_until d now = (d + 7 - weekday now) % 7

-- `ahead`, after the if
unfoldable pub days_ahead : Bool → ℕ → ℕ → ℕ → ℕ
unfolding days_until
days_ahead next d base now =
    let ahead = days_until d now in
    if (ahead == 0) || next then (if leb base now || next then ahead + 7 else ahead) else ahead

-- the branches below the test for a weekday
unfoldable pub without_weekday : List String → ℕ → ℕ → Option ℕ
unfolding first_known has
without_weekday tokens base now =
    if has "week" tokens || has "hafte" tokens
    then some (base + 7 * one_day)
    else elim (first_known times_of_day tokens) [
      | none ↦ none
      | some h ↦ some (if ltb now base then base else base + one_day)
    ]

unfoldable pub with_weekday : Option ℕ → List String → ℕ → ℕ → Option ℕ
unfolding without_weekday days_ahead has
with_weekday none tokens base now = without_weekday tokens base now
with_weekday (some d) tokens base now =
    some (base + one_day * days_ahead (has "next" tokens) d base now)

-- `parse_datetime` from the tokens on
unfoldable pub from_tokens : List String → ℕ → Option ℕ
unfolding with_weekday hour_of at_hour first_known has
from_tokens tokens now =
    let base = at_hour (hour_of tokens) now in
    if has "tomorrow" tokens || has "kal" tokens
    then some (base + one_day)
    else if has "today" tokens || has "aaj" tokens
    then some base
    else with_weekday (first_known weekdays tokens) tokens base now

unfoldable pub parse_datetime : (String → List String) → Option String → ℕ → Option ℕ
unfolding from_tokens
parse_datetime words none now = none
parse_datetime words (some text) now = if str_eq text "" then none else from_tokens (words text) now
