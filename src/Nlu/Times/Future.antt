-- ===== src/Nlu/Times/Future.antt =====
-- When the instants of `parse_datetime` are.
use digital_twin.Prelude.{
  ℕ, ◌+◌, ◌*◌, ◌%◌, ◌<◌, ◌≤◌, ◌≡◌, ◌↔◌, refl, ◌∙◌, arith, String, Bool, true, false, not, Option,
  none, some, List, [], ◌∷◌, inl, inr, ◌&&◌, ◌||◌, All, Bool-cases, Option-cases, if◌then◌else◌,
}
use digital_twin.Nlu.Times.{
  one_day, one_hour, weekdays, times_of_day, value_of, first_known, has, hour_or, hour_of, at_hour,
  weekday, days_until, days_ahead, without_weekday, with_weekday, from_tokens, parse_datetime,
}
use text.Mathlib.Text.{◌==◌ as str_eq}

-- A value that is looked up is a value of the table.
value_of-lt :
    (n : ℕ) (t : String) (table : List (String × ℕ)) {v : ℕ}
    → All (λ e. e.1 < n) table
    → value_of t table ≡ some v
    → v < n
unfolding value_of
value_of-lt n t [] h e = cc
value_of-lt n t ((k, v) ∷ table) (h, hs) e = elim (Bool-cases (str_eq k t)) [
  | inl q ↦ ground (arith, q, e, h)
  | inr q ↦ value_of-lt n t table hs (rw q at e)
]

first_known-lt :
    (n : ℕ) (table : List (String × ℕ)) (ts : List String) {v : ℕ}
    → All (λ e. e.1 < n) table
    → first_known table ts ≡ some v
    → v < n
unfolding first_known
first_known-lt n table [] h e = cc
first_known-lt n table (t ∷ ts) h e = elim (Option-cases (value_of t table)) [
  | inl q ↦ first_known-lt n table ts h (rw (q, first_known) at e)
  | inr (w, q) ↦ ground (arith, q, e, value_of-lt n t table h q)
]

hour_of-lt : (tokens : List String) → hour_of tokens < 24
unfolding hour_of hour_or
hour_of-lt tokens = elim (Option-cases (first_known times_of_day tokens)) [
  | inl q ↦ rw q (omega arith)
  | inr (h, q) ↦ rw q (first_known-lt 24 times_of_day tokens (omega arith) q)
]

-- the day of an instant that is some days after an hour of today
at_hour-weekday :
    (h k now : ℕ) → h < 24 → weekday (at_hour h now + one_day * k) ≡ (weekday now + k) % 7
unfolding weekday at_hour
at_hour-weekday h k now l = omega arith

days_until_lem : (d now : ℕ) → d < 7 → (weekday now + days_until d now) % 7 ≡ d
unfolding days_until weekday
days_until_lem d now l = omega arith

days_until-lt : (d now : ℕ) → days_until d now < 7
unfolding days_until
days_until-lt d now = omega arith

days_ahead-bounds :
    (next : Bool) (h d now : ℕ)
    → h < 24
    → (now < at_hour h now + one_day * days_ahead next d (at_hour h now) now)
      × (at_hour h now + one_day * days_ahead next d (at_hour h now) now
          ≤ now + one_day * (if next then 14 else 7))
unfolding days_ahead at_hour
days_ahead-bounds next h d now l = ground (arith, days_until-lt d now)

days_ahead-weekday :
    (next : Bool) (d base now : ℕ) → d < 7 → (weekday now + days_ahead next d base now) % 7 ≡ d
unfolding days_ahead
days_ahead-weekday next d base now l = ground (arith, days_until_lem d now l)

without_weekday-after :
    (tokens : List String) (base now : ℕ) {r : ℕ}
    → now < base + one_day
    → without_weekday tokens base now ≡ some r
    → now < r
unfolding without_weekday
without_weekday-after tokens base now l e = ground (arith, l, e)

with_weekday-after :
    (o : Option ℕ) (tokens : List String) (h now : ℕ) {r : ℕ}
    → h < 24
    → with_weekday o tokens (at_hour h now) now ≡ some r
    → now < r
unfolding with_weekday at_hour
with_weekday-after none tokens h now l e =
    without_weekday-after tokens (at_hour h now) now (omega arith) e
with_weekday-after (some d) tokens h now l e =
    ground (arith, e, days_ahead-bounds (has "next" tokens) h d now l)

-- Is the day meant to be today?
unfoldable pub says_today : List String → Bool
unfolding has
says_today tokens =
    not (has "tomorrow" tokens || has "kal" tokens) && (has "today" tokens || has "aaj" tokens)

from_tokens-future :
    (tokens : List String) (now : ℕ) {r : ℕ}
    → from_tokens tokens now ≡ some r
    → (r ≤ now) ↔ ((says_today tokens ≡ true) × (at_hour (hour_of tokens) now ≤ now))
unfolding from_tokens says_today
from_tokens-future tokens now e =
    let l : hour_of tokens < 24 = hour_of-lt tokens in
    let d : now < at_hour (hour_of tokens) now + one_day = unfold at_hour in omega arith in
    elim (Bool-cases (has "tomorrow" tokens || has "kal" tokens)) [
      | inl t ↦ ground (arith, t, e, d)
      | inr t ↦ elim (Bool-cases (has "today" tokens || has "aaj" tokens)) [
        | inl y ↦ ground (arith, t, y, e)
        | inr y ↦ ground (
          arith,
          t,
          y,
          with_weekday-after (first_known weekdays tokens) tokens (hour_of tokens) now l
              (rw (from_tokens, t, y) at e),
        )
      ]
    ]

-- For a text that is not empty: an instant that parse_datetime gives is not in the future exactly
-- if the words say today or aaj, but not tomorrow or kal, and the hour that they mean has begun.
pub parse_datetime-future :
    (words : String → List String) (text : String) (now r : ℕ)
    → str_eq text "" ≡ false
    → parse_datetime words (some text) now ≡ some r
    → (r ≤ now) ↔ ((says_today (words text) ≡ true) × (at_hour (hour_of (words text)) now ≤ now))
unfolding parse_datetime
parse_datetime-future words text now r b e =
    from_tokens-future (words text) now (rw (b, parse_datetime) at e)

-- For a text that is not empty, with no word for tomorrow or today, in which d is the first weekday
-- that is named: parse_datetime gives an instant on that weekday, at the hour that the words mean,
-- which lies in the future and at most a week ahead, or two weeks with the word next.
pub parse_datetime-weekday :
    (words : String → List String) (text : String) (now d : ℕ)
    → str_eq text "" ≡ false
    → (has "tomorrow" (words text) || has "kal" (words text)) ≡ false
    → (has "today" (words text) || has "aaj" (words text)) ≡ false
    → first_known weekdays (words text) ≡ some d
    → (r : ℕ) × (parse_datetime words (some text) now ≡ some r)
      × (weekday r ≡ d)
      × (r % one_day ≡ one_hour * hour_of (words text))
      × (now < r)
      × (r ≤ now + one_day * (if has "next" (words text) then 14 else 7))
unfolding parse_datetime from_tokens with_weekday
parse_datetime-weekday words text now d b t y w =
    let h : ℕ = hour_of (words text) in
    let l : h < 24 = hour_of-lt (words text) in
    let k : ℕ = days_ahead (has "next" (words text)) d (at_hour h now) now in
    (
      at_hour h now + one_day * k,
      rw (b, t, y, w) refl,
      at_hour-weekday h k now l
          ∙ days_ahead-weekday (has "next" (words text)) d (at_hour h now) now
              (first_known-lt 7 weekdays (words text) (omega arith) w),
      unfold at_hour in omega arith,
      (days_ahead-bounds (has "next" (words text)) h d now l).0,
      (days_ahead-bounds (has "next" (words text)) h d now l).1,
    )
