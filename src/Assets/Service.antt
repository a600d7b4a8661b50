-- ===== src/Assets/Service.antt =====
-- apps/api/app/modules/assets/service.py: `create_asset`, `update_asset` and `retire_asset` of
-- `AssetService`, and `create_component` of `ComponentService`. Creations by clone_asset and
-- import_aasx are calls of `create_asset`. The lines and plants themselves, and the contents of the
-- submodels, are arguments; nothing removes a component.
use digital_twin.Prelude.{
  ℕ, suc, ◌+◌, Bool, true, false, Option, none, some, List, [], ◌∷◌, ◌++◌, not, ◌==◌, ◌&&◌, ◌||◌,
  if◌then◌else◌,
}
use digital_twin.Prelude.Result.{
  not_found, conflict, unprocessable, service_unavailable, Result, ok, err, ◌>>=◌,
}
use digital_twin.Assets.Tables.{
  Asset, Component, Sensor, IdShort, nameplate, technical_data, Submodel, Action, create, update,
  delete, Db, Twins, Env, Platform, AssetCreate,
}
use digital_twin.Assets.Sync.{add_component, create_thing, update_thing, retire_thing}
use digital_twin.Assets.Structure.{
  has_component, create_components, create_sensors, is_same, count, codes_of,
}

module _ {V : Type 0} where
  -- get_by_code
  unfoldable pub is_taken : ℕ → List (Asset V) → Bool
  is_taken code [] = false
  is_taken code (a ∷ as') = (not a.deleted && (a.code == code)) || is_taken code as'

  -- the code of a retired twin
  unfoldable pub is_retired : ℕ → List (Asset V) → Bool
  is_retired code [] = false
  is_retired code (a ∷ as') = (a.deleted && (a.code == code)) || is_retired code as'

  -- one round of `_store_submodels`
  unfoldable pub store_submodel : Submodel V → List (Submodel V) → List (Submodel V)
  unfolding is_same
  store_submodel m [] = m ∷ []
  store_submodel m (n ∷ ns) =
      if (n.asset_id == m.asset_id) && is_same n.id_short m.id_short
      then m ∷ ns
      else n ∷ store_submodel m ns

  -- overrides.get(id_short) or build(asset)
  unfoldable pub content_of : Option V → V → V
  content_of none built = built
  content_of (some v) built = v

  unfoldable pub store_submodels :
      (IdShort → Asset V → V)
      → Asset V
      → (IdShort → Option V)
      → List (Submodel V)
      → List (Submodel V)
  unfolding store_submodel content_of
  store_submodels build a overrides rows =
      let row : IdShort → Submodel V = λ i. record {
        asset_id = a.id;
        id_short = i;
        content = content_of (overrides i) (build i a);
      } in
      store_submodel (row technical_data) (store_submodel (row nameplate) rows)

  -- the end of an operation: the call of Ditto, then the commit
  unfoldable pub finish : Bool → Db V → Platform V → Twins V × Bool → Platform V × Result (Unit {0})
  finish commits db p (twins, called) =
      if called && commits
      then (record { db = db; twins = twins }, ok tt)
      else (record p { twins = twins }, err service_unavailable)

  unfoldable pub with_audit : Action → ℕ → Db V → Db V
  with_audit action id db = record db { audits = db.audits ++ (action, id) ∷ [] }

  -- the row of a new asset
  unfoldable pub new_asset : AssetCreate V → ℕ → Asset V
  new_asset d id = record {
    id = id;
    line_id = d.line_id;
    code = d.code;
    values = d.values;
    deleted = false;
  }

  -- the components and sensors of a new asset
  unfoldable pub structure : AssetCreate V → ℕ → Result (List Component × List Sensor)
  unfolding create_components create_sensors
  structure d id = do
    components ← create_components id (suc id) d.components []
    sensors ← create_sensors id components d.sensors []
    ok (components, sensors)

  -- the tables after the statements of `create_asset`
  unfoldable pub created :
      (IdShort → Asset V → V) → AssetCreate V → List Component → List Sensor → Db V → Db V
  unfolding new_asset store_submodels with_audit count
  created build d components sensors db =
      let a = new_asset d db.next_id in
      with_audit create a.id (record db {
        assets = db.assets ++ a ∷ [];
        components = db.components ++ components;
        sensors = db.sensors ++ sensors;
        submodels = store_submodels build a d.stored_submodels db.submodels;
        next_id = suc db.next_id + count components;
      })

  -- `_assert_code_free`
  unfoldable pub assert_code_free : ℕ → List (Asset V) → Result (Unit {0})
  unfolding is_taken is_retired
  assert_code_free code assets =
      if is_taken code assets
      then err conflict
      else if is_retired code assets
      then err conflict
      else ok tt

  -- `create_asset` before the call of Ditto
  unfoldable pub checked_create : Env → AssetCreate V → Db V → Result (List Component × List Sensor)
  unfolding assert_code_free structure
  checked_create env d db =
      if env.line_exists d.line_id
      then (assert_code_free d.code db.assets >>= λ _. structure d db.next_id)
      else err unprocessable

  unfoldable pub create_asset :
      (IdShort → Asset V → V) → Env → AssetCreate V → Platform V → Platform V × Result (Unit {0})
  unfolding checked_create created finish create_thing new_asset codes_of
  create_asset build env d p = elim (checked_create env d p.db) [
    | err problem ↦ (p, err problem)
    | ok (components, sensors) ↦
        finish env.commits (created build d components sensors p.db) p
          (create_thing env (new_asset d p.db.next_id) (codes_of components) p.twins)
  ]

  -- get_or_404
  unfoldable pub live_asset : ℕ → List (Asset V) → Option (Asset V)
  live_asset id [] = none
  live_asset id (a ∷ as') = if not a.deleted && (a.id == id) then some a else live_asset id as'

  -- a row is flushed
  unfoldable pub save : Asset V → List (Asset V) → List (Asset V)
  save a [] = []
  save a (b ∷ bs) = if b.id == a.id then a ∷ bs else b ∷ save a bs

  unfoldable pub no_overrides : IdShort → Option V
  no_overrides i = none

  -- the tables after the statements of `update_asset`
  unfoldable pub updated : (IdShort → Asset V → V) → Asset V → Db V → Db V
  unfolding save store_submodels with_audit no_overrides
  updated build a db = with_audit update a.id (record db {
    assets = save a db.assets;
    submodels = store_submodels build a no_overrides db.submodels;
  })

  unfoldable pub update_asset :
      (IdShort → Asset V → V) → Env → ℕ → (V → V) → Platform V → Platform V × Result (Unit {0})
  unfolding live_asset updated finish update_thing
  update_asset build env id change p = elim (live_asset id p.db.assets) [
    | none ↦ (p, err not_found)
    | some a ↦
        (let b = record a { values = change a.values } in
          if env.line_exists b.line_id
          then finish env.commits (updated build b p.db) p (update_thing env b p.twins)
          else (p, err unprocessable))
  ]

  unfoldable pub retired_in : Asset V → Db V → Db V
  unfolding save with_audit
  retired_in a db =
      with_audit delete a.id (record db { assets = save (record a { deleted = true }) db.assets })

  unfoldable pub retire_asset : Env → ℕ → Platform V → Platform V × Result (Unit {0})
  unfolding live_asset retired_in finish retire_thing
  retire_asset env id p = elim (live_asset id p.db.assets) [
    | none ↦ (p, err not_found)
    | some a ↦ finish env.commits (retired_in a p.db) p (retire_thing env a p.twins)
  ]

  -- the tables after the statements of `create_component`
  unfoldable pub component_added : Asset V → ℕ → Db V → Db V
  unfolding with_audit
  component_added a code db = with_audit create db.next_id (record db {
    components = db.components ++ record { id = db.next_id; asset_id = a.id; code = code } ∷ [];
    next_id = suc db.next_id;
  })

  -- `create_component` of `ComponentService`
  unfoldable pub create_component : Env → ℕ → ℕ → Platform V → Platform V × Result (Unit {0})
  unfolding live_asset has_component component_added finish add_component
  create_component env id code p = elim (live_asset id p.db.assets) [
    | none ↦ (p, err not_found)
    | some a ↦
        (if has_component a.id code p.db.components
          then (p, err conflict)
          else finish env.commits (component_added a code p.db) p
              (add_component env a code p.twins))
  ]

-- a request for an operation
pub data Request (V : Type 0) : Type 0 where
  creating : AssetCreate V → Request V
  updating : ℕ → (V → V) → Request V
  retiring : ℕ → Request V
  adding : ℕ → ℕ → Request V

module _ {V : Type 0} (build : IdShort → Asset V → V) where
  unfoldable pub step : Platform V → Env × Request V → Platform V
  unfolding create_asset update_asset retire_asset create_component
  step p (env, creating d) = (create_asset build env d p).0
  step p (env, updating id change) = (update_asset build env id change p).0
  step p (env, retiring id) = (retire_asset env id p).0
  step p (env, adding id code) = (create_component env id code p).0

  unfoldable pub run : List (Env × Request V) → Platform V → Platform V
  unfolding step
  run [] p = p
  run (r ∷ rs) p = run rs (step p r)
