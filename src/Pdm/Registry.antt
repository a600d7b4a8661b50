-- ===== src/Pdm/Registry.antt =====
-- apps/api/app/modules/pdm: the registry of models, `ModelService.register_model` and `promote` of
-- service.py with the methods of `ModelRepository` that they call. What a row or a metric copies
-- without a test on it is one value; of an audit row the action and the id are kept.
pub mod Production
pub mod Runs
pub mod Resolve
use digital_twin.Prelude.{
  ℕ, suc, Bool, true, false, Option, none, some, List, [], ◌∷◌, ◌++◌, map, not, ◌==◌, ◌&&◌, ◌+◌,
  if◌then◌else◌,
}
use digital_twin.Prelude.Result.{Problem, not_found, conflict, Result, ok, err, ◌>>=◌}
use digital_twin.Contracts.Topic.{same_text}

pub data Stage : Type 0 where
  candidate production archived : Stage

pub record Model (V : Type 0) : Type 0 where
  pub id : ℕ
  pub name : List ℕ
  pub version : List ℕ
  pub asset_id : Option ℕ
  pub stage : Stage
  pub values : V

pub data Action : Type 0 where
  create promoted : Action

-- the tables models, model_metrics and audit_logs; ids are counted
pub record Db (V : Type 0) : Type 0 where
  pub models : List (Model V)
  pub metrics : List (ℕ × V)
  pub audits : List (Action × ℕ)
  pub next_id : ℕ

-- the arguments of register_model
pub record NewModel (V : Type 0) : Type 0 where
  pub name : List ℕ
  pub version : List ℕ
  pub asset_id : Option ℕ
  pub values : V
  pub metrics : List V

unfoldable pub is_production : Stage → Bool
is_production production = true
is_production _ = false

module _ {V : Type 0} where
  -- get
  unfoldable pub get : ℕ → List (Model V) → Option (Model V)
  get id [] = none
  get id (m ∷ ms) = if m.id == id then some m else get id ms

  unfoldable pub get_or_404 : ℕ → List (Model V) → Result (Model V)
  unfolding get
  get_or_404 id ms = elim (get id ms) [ none ↦ err not_found | some m ↦ ok m ]

  pub get_by_name_version : List ℕ → List ℕ → List (Model V) → Option (Model V)
  get_by_name_version name version [] = none
  get_by_name_version name version (m ∷ ms) =
      if same_text m.name name && same_text m.version version
      then some m
      else get_by_name_version name version ms

  -- the WHERE of the UPDATE in `promote`
  unfoldable pub is_replaced : Model V → Model V → Bool
  unfolding is_production
  is_replaced model m =
      same_text m.name model.name && is_production m.stage && not (m.id == model.id)

  -- a row after the UPDATE and the assignment
  unfoldable pub promoted_row : Model V → Model V → Model V
  unfolding is_replaced
  promoted_row model m =
      if is_replaced model m
      then record m { stage = archived }
      else if m.id == model.id
      then record m { stage = production }
      else m

  -- `ModelRepository.promote`
  unfoldable pub promote_all : Model V → List (Model V) → List (Model V)
  unfolding promoted_row
  promote_all model [] = []
  promote_all model (m ∷ ms) = promoted_row model m ∷ promote_all model ms

  -- `promote` from the model on
  unfoldable pub checked_promote : Model V → Db V → Result (Db V)
  unfolding is_production promote_all
  checked_promote model db =
      if is_production model.stage
      then err conflict
      else ok (record db {
        models = promote_all model db.models;
        audits = db.audits ++ (promoted, model.id) ∷ [];
      })

  unfoldable pub promote : ℕ → Db V → Result (Db V)
  unfolding get_or_404 checked_promote
  promote id db = do model ← get_or_404 id db.models; checked_promote model db

  pub metric_rows : ℕ → List V → List (ℕ × V)
  metric_rows id [] = []
  metric_rows id (v ∷ vs) = (id, v) ∷ metric_rows id vs

  pub new_row : NewModel V → ℕ → Model V
  new_row new id = record {
    id = id;
    name = new.name;
    version = new.version;
    asset_id = new.asset_id;
    stage = candidate;
    values = new.values;
  }

  pub register_model : NewModel V → Db V → Result (Db V)
  unfolding get_by_name_version new_row metric_rows
  register_model new db = elim (get_by_name_version new.name new.version db.models) [
    | some m ↦ err conflict
    | none ↦ ok (record {
      models = db.models ++ new_row new db.next_id ∷ [];
      metrics = db.metrics ++ metric_rows db.next_id new.metrics;
      audits = db.audits ++ (create, db.next_id) ∷ [];
      next_id = suc db.next_id;
    })
  ]
