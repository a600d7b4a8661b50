-- ===== src/Tests/Nlu.antt =====
-- The understanding of spoken times and names at concrete inputs.
use digital_twin.Prelude.{
  ℕ, ◌+◌, ◌*◌, ◌%◌, ◌<◌, ◌≤◌, ◌≡◌, ◌↔◌, refl, String, true, some, List, [], ◌∷◌, All, if◌then◌else◌,
}
use digital_twin.Nlu.Words.{parse_asset}
use digital_twin.Nlu.Times.{
  one_day, one_hour, has, hour_of, weekday, at_hour, parse_datetime, from_tokens, first_known,
  value_of, hour_or,
}
use digital_twin.Nlu.Times.Future.{says_today, parse_datetime-future, parse_datetime-weekday}
use digital_twin.Nlu.Fuzzy.{
  AssetRef, Candidate, Library, ambiguous_margin, threshold, forms_of, candidate_of, put_best,
  best_of, insert_by_score, order_by_score, ranked, rank, choose, resolve,
}
use digital_twin.Nlu.Fuzzy.Clear.{scored, resolve-IsClear}
use digital_twin.Nlu.Fuzzy.Ranking.{IsClear, IsScored}

abbrev friday_morning : String → List String
friday_morning text = "friday" ∷ "morning" ∷ []

abbrev this_morning : String → List String
this_morning text = "today" ∷ "morning" ∷ []

-- Wednesday of the first week, ten o'clock
abbrev wednesday : ℕ
wednesday = 2 * one_day + 10 * one_hour

parse_datetime-weekday_example :
    (r : ℕ) × (parse_datetime friday_morning (some "friday morning") wednesday ≡ some r)
    × (weekday r ≡ 4)
    × (r % one_day ≡ one_hour * hour_of (friday_morning "friday morning"))
    × (wednesday < r)
    × (r ≤ wednesday + one_day * (if has "next" (friday_morning "friday morning") then 14 else 7))
unfolding has first_known value_of
parse_datetime-weekday_example =
    parse_datetime-weekday friday_morning "friday morning" wednesday 4 refl refl refl refl

-- This morning is over.
parse_datetime-future_example : (2 * one_day + 8 * one_hour ≤ wednesday) ↔ (
    (says_today (this_morning "today morning") ≡ true)
    × (at_hour (hour_of (this_morning "today morning")) wednesday ≤ wednesday))
unfolding parse_datetime from_tokens has first_known value_of hour_of hour_or at_hour
parse_datetime-future_example =
    parse_datetime-future this_morning "today morning" wednesday (2 * one_day + 8 * one_hour) refl
      refl

abbrev press : AssetRef
press = record { id = 1; code = "press"; name = "" }

abbrev mill : AssetRef
mill = record { id = 2; code = "mill"; name = "" }

-- the words "press two", and scores that tell the press from the mill
abbrev library : Library
library = record {
  unit = 10;
  words = λ t. t ∷ [];
  respell = λ t. t;
  extract = λ q fs. record { score = 960; index = 0 } ∷ record { score = 300; index = 1 } ∷ [];
}

resolve-IsClear_example :
    (q : String) × (c : Candidate) × (parse_asset library.words "press" ≡ some q)
    × (c.ref ≡ press)
    × (threshold library ≤ c.score)
    × All
        (IsClear (ambiguous_margin library) (forms_of library (press ∷ mill ∷ [])) c)
        (scored library q (press ∷ mill ∷ []))
    × IsScored (forms_of library (press ∷ mill ∷ [])) c (scored library q (press ∷ mill ∷ []))
unfolding resolve rank ranked choose best_of put_best order_by_score insert_by_score candidate_of
    forms_of threshold ambiguous_margin parse_asset
resolve-IsClear_example =
    resolve-IsClear library "press" (press ∷ mill ∷ []) (threshold library) press refl
