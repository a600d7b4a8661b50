-- ===== src/Assets/Structure.antt =====
-- `_add_structure` of apps/api/app/modules/assets/service.py: the components and sensors of a new
-- asset, with the unique indexes of their tables; and two helpers on submodels and codes.
use digital_twin.Prelude.{
  ℕ, suc, Bool, true, false, Option, none, some, List, [], ◌∷◌, ◌++◌, map, ◌==◌, ◌&&◌, ◌||◌,
  if◌then◌else◌,
}
use digital_twin.Prelude.Result.{conflict, unprocessable, Result, ok, err, ◌>>=◌}
use digital_twin.Assets.Tables.{Component, Sensor, IdShort, nameplate, technical_data, SensorSpec}

-- the index components_code_uq
unfoldable pub has_code : ℕ → List Component → Bool
has_code code [] = false
has_code code (c ∷ cs) = (c.code == code) || has_code code cs

-- the query of `create_component`
unfoldable pub has_component : ℕ → ℕ → List Component → Bool
has_component asset_id code [] = false
has_component asset_id code (c ∷ cs) =
    ((c.asset_id == asset_id) && (c.code == code)) || has_component asset_id code cs

-- the index sensors_metric_uq
unfoldable pub has_metric : ℕ → List Sensor → Bool
has_metric metric [] = false
has_metric metric (s ∷ ss) = (s.metric_name == metric) || has_metric metric ss

-- the list `created` of _add_structure, from an id on
unfoldable pub create_components : ℕ → ℕ → List ℕ → List Component → Result (List Component)
unfolding has_code
create_components asset_id id [] created = ok created
create_components asset_id id (code ∷ codes) created =
    let rest =
      create_components asset_id (suc id) codes
        (created ++ record { id = id; asset_id = asset_id; code = code } ∷ []) in
    if has_code code created then err conflict else rest

-- ids.get(code)
unfoldable pub id_of : ℕ → List Component → Option ℕ
id_of code [] = none
id_of code (c ∷ cs) = if c.code == code then some c.id else id_of code cs

-- the component of a sensor
unfoldable pub component_of : Option ℕ → List Component → Result (Option ℕ)
unfolding id_of
component_of none created = ok none
component_of (some code) created = elim (id_of code created) [
  | none ↦ err unprocessable
  | some id ↦ ok (some id)
]

-- the loop over the sensors
unfoldable pub create_sensors :
    ℕ → List Component → List SensorSpec → List Sensor → Result (List Sensor)
unfolding component_of has_metric
create_sensors asset_id created [] sensors = ok sensors
create_sensors asset_id created (s ∷ ss) sensors = do
  component_id ← component_of s.component_code created
  let rest = create_sensors asset_id created ss (
      sensors
      ++ record { asset_id = asset_id; component_id = component_id; metric_name = s.metric_name }
        ∷ [])
  if has_metric s.metric_name sensors then err conflict else rest

unfoldable pub is_same : IdShort → IdShort → Bool
is_same nameplate nameplate = true
is_same technical_data technical_data = true
is_same _ _ = false

unfoldable pub count : List Component → ℕ
count [] = 0
count (c ∷ cs) = suc (count cs)

unfoldable pub codes_of : List Component → List ℕ
codes_of cs = map (λ c. c.code) cs
