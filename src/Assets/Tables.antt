-- ===== src/Assets/Tables.antt =====
-- apps/api/app/modules/assets: the rows of the registry, the things of the twin store Ditto, and what
-- a request meets: the lines that exist, what becomes of each call of Ditto, and whether the commit
-- succeeds. Codes and metric names are only compared and stand as numbers; what rows copy without a
-- test on it is one value.
use digital_twin.Prelude.{ℕ, Bool, Option, List}

pub record Asset (V : Type 0) : Type 0 where
  pub id : ℕ
  pub line_id : ℕ
  pub code : ℕ
  pub values : V
  pub deleted : Bool

pub record Component : Type 0 where
  pub id : ℕ
  pub asset_id : ℕ
  pub code : ℕ

pub record Sensor : Type 0 where
  pub asset_id : ℕ
  pub component_id : Option ℕ
  pub metric_name : ℕ

-- NAMEPLATE and TECHNICAL_DATA
pub data IdShort : Type 0 where
  nameplate technical_data : IdShort

pub record Submodel (V : Type 0) : Type 0 where
  pub asset_id : ℕ
  pub id_short : IdShort
  pub content : V

pub data Action : Type 0 where
  create update delete : Action

pub record Db (V : Type 0) : Type 0 where
  pub assets : List (Asset V)
  pub components : List Component
  pub sensors : List Sensor
  pub submodels : List (Submodel V)
  pub audits : List (Action × ℕ)
  pub next_id : ℕ

pub data Policy : Type 0 where
  active retired : Policy

-- a thing of Ditto, whose id is that of the code; attributes are those copied from the asset
pub record Thing (V : Type 0) : Type 0 where
  pub code : ℕ
  pub policy : Policy
  pub attributes : V
  pub components : List ℕ

pub record Twins (V : Type 0) : Type 0 where
  pub policies_ready : Bool
  pub policies : List Policy
  pub things : List (Thing V)

-- a call may also take effect though its answer is lost
pub data Outcome : Type 0 where
  done refused lost : Outcome

pub data Call : Type 0 where
  put_active put_retired put_thing merge_thing set_policy_id : Call

pub record Env : Type 0 where
  pub line_exists : ℕ → Bool
  pub outcome : Call → Outcome
  pub commits : Bool

pub record Platform (V : Type 0) : Type 0 where
  pub db : Db V
  pub twins : Twins V

pub record SensorSpec : Type 0 where
  pub component_code : Option ℕ
  pub metric_name : ℕ

pub record AssetCreate (V : Type 0) : Type 0 where
  pub line_id : ℕ
  pub code : ℕ
  pub values : V
  pub components : List ℕ
  pub sensors : List SensorSpec
  pub stored_submodels : IdShort → Option V
