-- ===== src/Pdm/Sampling.antt =====
-- apps/api/app/modules/pdm/repository.py: `PredictionRepository.query`. A row is its asset, its time
-- and the rest as one value; rows of the same time keep their order in the table.
pub mod Spread
use digital_twin.Prelude.{
  ℕ, zero, suc, ◌+◌, ◌-◌, ◌/◌, ◌%◌, Bool, true, false, List, [], ◌∷◌, leb, ltb, ◌==◌, ◌&&◌, length,
  take, if◌then◌else◌,
}

pub record Prediction (V : Type 0) : Type 0 where
  pub asset_id : ℕ
  pub time : ℕ
  pub values : V

-- -(-total // limit) if total > limit else 1
pub step_of : ℕ → ℕ → ℕ
step_of total limit = if ltb limit total then (total + limit - 1) / limit else 1

module _ {V : Type 0} where
  -- in_range
  pub in_range : ℕ → ℕ → ℕ → List (Prediction V) → List (Prediction V)
  in_range asset start end [] = []
  in_range asset start end (p ∷ ps) =
      let rest = in_range asset start end ps in
      if (p.asset_id == asset) && (leb start p.time && ltb p.time end) then p ∷ rest else rest

  pub insert_by_time : Prediction V → List (Prediction V) → List (Prediction V)
  insert_by_time p [] = p ∷ []
  insert_by_time p (q ∷ qs) = if leb p.time q.time then p ∷ q ∷ qs else q ∷ insert_by_time p qs

  -- ORDER BY time
  pub order_by_time : List (Prediction V) → List (Prediction V)
  unfolding insert_by_time
  order_by_time [] = []
  order_by_time (p ∷ ps) = insert_by_time p (order_by_time ps)

  -- the rows whose number, less one, is a multiple of the step; i is that of the first one
  pub every : ℕ → ℕ → List (Prediction V) → List (Prediction V)
  every step i [] = []
  every step i (p ∷ ps) =
      let rest = every step (suc i) ps in if (i % step) == 0 then p ∷ rest else rest

  pub query : List (Prediction V) → ℕ → ℕ → ℕ → ℕ → List (Prediction V)
  unfolding in_range order_by_time every step_of
  query table asset start end limit =
      let rows = in_range asset start end table in
      take limit (every (step_of (length rows) limit) 0 (order_by_time rows))
