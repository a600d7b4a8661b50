-- ===== src/Tests/Pdm.antt =====
-- The registry of models and the query for predictions at concrete inputs.
use digital_twin.Prelude.{
  ℕ, ◌+◌, ◌*◌, ◌≤◌, ◌≡◌, refl, arith, none, some, List, [], ◌∷◌, map, length, get_elem?,
  if◌then◌else◌,
}
use digital_twin.Prelude.Result.{ok, err}
use digital_twin.Contracts.Topic.{same_text}
use digital_twin.Ingest.EdgePredictions.{partition, is_general, resolve_model}
use digital_twin.Pdm.Sampling.{Prediction, step_of, in_range, order_by_time, query}
use digital_twin.Pdm.Sampling.Spread.{query-spread}
use digital_twin.Pdm.Registry.{
  candidate, production, Model, Db, NewModel, get, get_or_404, promote, checked_promote,
  promote_all, promoted_row, is_replaced, is_production,
}
use digital_twin.Pdm.Registry.Production.{producing, versions, with_id}
use digital_twin.Pdm.Registry.Runs.{
  Request, registering, promoting, run, no_models, one_in_production,
}
use digital_twin.Pdm.Registry.Resolve.{known, resolve-promote}

abbrev at_time : ℕ → Prediction ℕ
at_time t = record { asset_id = 7; time = t; values = t }

abbrev table : List (Prediction ℕ)
table = at_time 50 ∷ at_time 10 ∷ at_time 40 ∷ at_time 20 ∷ at_time 30 ∷ []

query-spread_example :
    (length (query table 7 0 100 2) ≤ 2)
    × (get_elem? (query table 7 0 100 2) 1
        ≡ get_elem?
            (order_by_time (in_range 7 0 100 table))
            (1 * step_of (length (in_range 7 0 100 table)) 2))
query-spread_example = query-spread table 7 0 100 2 1 (omega arith)

-- the names "rul" and "old", the versions 1 and 2
abbrev rul : List ℕ
rul = b'r' ∷ b'u' ∷ b'l' ∷ []

abbrev version : ℕ → NewModel ℕ
version v = record {
  name = rul;
  version = (b'0' + v) ∷ [];
  asset_id = none;
  values = v;
  metrics = [];
}

abbrev requests : List (Request ℕ)
requests = registering (version 1) ∷ promoting 0 ∷ registering (version 2) ∷ promoting 1 ∷ []

one_in_production_example :
    (producing rul (run requests no_models).models ≤ 1)
    × (versions rul (b'1' ∷ []) (run requests no_models).models ≤ 1)
one_in_production_example = one_in_production requests rul (b'1' ∷ [])

-- The model of asset 3 replaces the one for all assets.
abbrev general : Model ℕ
general = record {
  id = 0;
  name = rul;
  version = b'1' ∷ [];
  asset_id = none;
  stage = production;
  values = 1;
}

abbrev special : Model ℕ
special = record {
  id = 1;
  name = rul;
  version = b'2' ∷ [];
  asset_id = some 3;
  stage = candidate;
  values = 2;
}

abbrev before : Db ℕ
before = record { models = general ∷ special ∷ []; metrics = []; audits = []; next_id = 2 }

abbrev after : Db ℕ
after = elim (promote 1 before) [ ok db ↦ db | err p ↦ before ]

resolve-promote_example : resolve_model special.name (map known after.models) ≡ (
    if is_general special.asset_id
    then some (known (record special { stage = production }))
    else none)
unfolding get get_or_404 promote checked_promote promote_all promoted_row is_replaced is_production
    with_id partition same_text
resolve-promote_example = resolve-promote before after 1 special (omega arith) refl refl refl
