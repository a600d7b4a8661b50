-- ===== src/Nlu/Fuzzy.antt =====
-- packages/nlu/src/twinvoice_nlu/fuzzy.py: the match of a spoken name against the assets. The
-- scores of rapidfuzz are whole numbers of a unit: a score of 1.0 is `unit`, which may be as fine as
-- the scores need. `words`, `respell` and `extract` stand for `normalise(text).split()`, for the two
-- regular expressions of `spoken` and for `process.extract`, which gives scores and positions.
pub mod Ranking
pub mod Clear
use digital_twin.Prelude.{
  ℕ, zero, suc, ◌+◌, ◌*◌, String, Bool, true, false, Option, none, some, List, [], ◌∷◌, ◌++◌, map,
  leb, ltb, ◌==◌, ◌&&◌, ◌||◌, is_empty, take, get_elem?, if◌then◌else◌,
}
use digital_twin.Nlu.Words.{parse_asset}
use text.Mathlib.Text.{◌==◌ as str_eq}

pub record AssetRef : Type 0 where
  pub id : ℕ
  pub code : String
  pub name : String

pub record Candidate : Type 0 where
  pub ref : AssetRef
  pub score : ℕ

-- a row of process.extract: the score of a choice and its position
pub record Row : Type 0 where
  pub score : ℕ
  pub index : ℕ

pub record Library : Type 0 where
  pub unit : ℕ
  pub words : String → List String
  pub respell : String → String
  pub extract : String → List String → List Row

module _ (l : Library) where
  -- THRESHOLD
  unfoldable pub threshold : ℕ
  threshold = 85 * l.unit

  -- AMBIGUOUS_MARGIN
  unfoldable pub ambiguous_margin : ℕ
  ambiguous_margin = 5 * l.unit

  -- parse_asset(...) or ""
  unfoldable pub spoken : String → String
  spoken text = elim (parse_asset l.words (l.respell text)) [ none ↦ "" | some s ↦ s ]

  -- tuple(dict.fromkeys(f for f in (code, name) if f))
  unfoldable pub distinct : String → String → List String
  distinct a b =
      if str_eq a ""
      then (if str_eq b "" then [] else b ∷ [])
      else if str_eq b "" || str_eq a b
      then a ∷ []
      else a ∷ b ∷ []

  unfoldable pub spoken_forms : AssetRef → List String
  unfolding spoken distinct
  spoken_forms r = distinct (spoken r.code) (spoken r.name)

  unfoldable pub with_ref : AssetRef → List String → List (String × AssetRef)
  with_ref r [] = []
  with_ref r (f ∷ fs) = (f, r) ∷ with_ref r fs

  unfoldable pub forms_of : List AssetRef → List (String × AssetRef)
  unfolding spoken_forms with_ref
  forms_of [] = []
  forms_of (r ∷ rs) = with_ref r (spoken_forms r) ++ forms_of rs

-- Candidate(ref=forms[index][1], score=score); positions are those of the forms
unfoldable pub candidate_of : List (String × AssetRef) → Row → Option Candidate
candidate_of forms row = elim (get_elem? forms row.index) [
  | none ↦ none
  | some (f, r) ↦ some (record { ref = r; score = row.score })
]

-- if ref.id not in best or score > best[ref.id].score: best[ref.id] = candidate
unfoldable pub put_best : Candidate → List Candidate → List Candidate
put_best c [] = c ∷ []
put_best c (d ∷ ds) =
    if d.ref.id == c.ref.id
    then (if ltb d.score c.score then c ∷ ds else d ∷ ds)
    else d ∷ put_best c ds

-- the loop over the scored forms
unfoldable pub best_of : List (String × AssetRef) → List Row → List Candidate → List Candidate
unfolding candidate_of put_best
best_of forms [] best = best
best_of forms (row ∷ rows) best =
    best_of forms rows (elim (candidate_of forms row) [ none ↦ best | some c ↦ put_best c best ])

-- sorted by score with reverse=True, which keeps the order of equal scores
unfoldable pub insert_by_score : Candidate → List Candidate → List Candidate
insert_by_score c [] = c ∷ []
insert_by_score c (d ∷ ds) = if ltb c.score d.score then d ∷ insert_by_score c ds else c ∷ d ∷ ds

unfoldable pub order_by_score : List Candidate → List Candidate
unfolding insert_by_score
order_by_score [] = []
order_by_score (c ∷ cs) = insert_by_score c (order_by_score cs)

module _ (l : Library) where
  -- `rank` from the forms on, without its limit
  unfoldable pub ranked : String → List (String × AssetRef) → List Candidate
  unfolding best_of order_by_score
  ranked query forms = order_by_score (best_of forms (l.extract query (map (λ f. f.0) forms)) [])

  unfoldable pub rank : String → List AssetRef → ℕ → List Candidate
  unfolding ranked forms_of
  rank query refs limit = elim (parse_asset l.words query) [
    | none ↦ []
    | some q ↦ if str_eq q "" || is_empty refs then [] else take limit (ranked q (forms_of l refs))
  ]

  -- `resolve` from the candidates on
  unfoldable pub choose : ℕ → List Candidate → Option AssetRef × List Candidate
  choose low [] = (none, [])
  choose low (c ∷ []) = if ltb c.score low then (none, c ∷ []) else (some c.ref, [])
  choose low (c ∷ d ∷ ds) =
      if ltb c.score low
      then (none, c ∷ d ∷ ds)
      else if ltb c.score (d.score + ambiguous_margin l)
      then (none, c ∷ d ∷ ds)
      else (some c.ref, d ∷ ds)

  unfoldable pub resolve : String → List AssetRef → ℕ → Option AssetRef × List Candidate
  unfolding rank choose ambiguous_margin
  resolve query refs low = choose low (rank query refs 2)
