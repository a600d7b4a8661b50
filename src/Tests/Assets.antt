-- ===== src/Tests/Assets.antt =====
-- The registry of the assets at concrete requests.
use digital_twin.Prelude.{ℕ, ◌+◌, arith, true, none, some, List, [], ◌∷◌}
use digital_twin.Assets.Tables.{Asset, IdShort, done, lost, put_thing, Env, AssetCreate}
use digital_twin.Assets.Service.{Request, creating, updating, retiring, adding, run}
use digital_twin.Assets.Codes.{no_assets, run-Unique}
use digital_twin.Assets.Rows.{Unique}
use digital_twin.Assets.InStep.{InStep}
use digital_twin.Assets.InStep.Requests.{run-InStep}

abbrev mill : AssetCreate ℕ
mill = record {
  line_id = 1;
  code = 7;
  values = 40;
  components = 3 ∷ [];
  sensors = record { component_code = some 3; metric_name = 5 } ∷ [];
  stored_submodels = λ i. none;
}

abbrev good : Env
good = record { line_exists = λ l. true; outcome = λ c. done; commits = true }

-- The answer to the creation of a thing is lost.
abbrev half : Env
half = record {
  line_exists = λ l. true;
  outcome = λ c. elim c [ put_thing ↦ lost | _ ↦ done ];
  commits = true;
}

abbrev build : IdShort → Asset ℕ → ℕ
build i a = a.values

abbrev requests : List (Env × Request ℕ)
requests =
    (half, creating mill)
    ∷ (good, creating mill)
    ∷ (good, updating 0 (λ v. v + 1))
    ∷ (good, adding 0 4)
    ∷ (good, adding 0 4)
    ∷ (good, retiring 0)
    ∷ (good, creating mill)
    ∷ []

run-Unique_example : Unique (run build requests no_assets).db.assets
run-Unique_example = run-Unique build requests

run-InStep_example :
    InStep (run build requests no_assets).twins.things (run build requests no_assets).db.assets
run-InStep_example = run-InStep build requests (ground arith)
