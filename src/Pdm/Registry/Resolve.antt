-- ===== src/Pdm/Registry/Resolve.antt =====
-- What the edge predictions that name a model without a version find after a promotion.
use digital_twin.Prelude.{
  ℕ, ◌≤◌, ◌≡◌, inl, inr, refl, ap, ◌∙◌, arith, Bool, true, false, Option, none, some, List, [], ◌∷◌,
  map, ◌==◌, ==_iff, ◌&&◌, All, Bool-cases, if◌then◌else◌,
}
use digital_twin.Prelude.Result.{ok}
use digital_twin.Contracts.Topic.RoundTrip.{same_text_refl}
use digital_twin.Ingest.EdgePredictions
use digital_twin.Ingest.EdgePredictions.{
  partition, is_general, production_model, resolve_model, get_by_name_version,
}
use digital_twin.Pdm.Registry.{
  production, Model, Db, is_production, get, get_or_404, is_replaced, promoted_row, promote_all,
  checked_promote, promote,
}
use digital_twin.Pdm.Registry.Production.{with_id, Same, get-with_id, get-id, promoted_row-own}

module _ {V : Type 0} where
  -- the row as `resolve_model` sees it
  unfoldable pub known : Model V → EdgePredictions.Model
  unfolding is_production
  known m = record {
    id = m.id;
    name = m.name;
    version = m.version;
    is_production = is_production m.stage;
    asset_id = m.asset_id;
  }

  known_if : Bool → Model V → Option EdgePredictions.Model
  unfolding known
  known_if true m = some (known m)
  known_if false m = none

  promoted_row-general :
      (model m : Model V)
      → Same model m
      → ((m.id == model.id) && is_general (promoted_row model m).asset_id)
        ≡ ((m.id == model.id) && is_general model.asset_id)
  unfolding promoted_row
  promoted_row-general model m (inl q) = rw q refl
  promoted_row-general model m (inr e) = rw e (ground arith)

  promoted_self : (model : Model V) → promoted_row model model ≡ record model { stage = production }
  unfolding promoted_row is_replaced
  promoted_self model = ground (arith, ==_iff model.id model.id)

  find_none :
      (model : Model V) (ms : List (Model V))
      → is_general model.asset_id ≡ false
      → All (Same model) ms
      → production_model model.name (map known (promote_all model ms)) ≡ none
  unfolding production_model promote_all known
  find_none model [] g h = refl
  find_none model (m ∷ ms) g (h, hs) = ground (
    arith,
    g,
    promoted_row-own model m h,
    promoted_row-general model m h,
    find_none model ms g hs,
  )

  find_some :
      (model : Model V) (ms : List (Model V))
      → is_general model.asset_id ≡ true
      → All (Same model) ms
      → with_id model.id ms ≡ 1
      → production_model model.name (map known (promote_all model ms))
        ≡ some (known (record model { stage = production }))
  unfolding production_model promote_all with_id known
  find_some model [] g h u = absurd (omega (arith, u))
  find_some model (m ∷ ms) g (inl q, hs) u =
      let v : with_id model.id ms ≡ 1 = ground (arith, q, u) in
      ground (arith, q, promoted_row-own model m (inl q), find_some model ms g hs v)
  find_some model (m ∷ ms) g (inr e, hs) u =
      rw (e, promoted_self model) (ground (arith, g, same_text_refl model.name))

  find_promoted :
      (model : Model V) (ms : List (Model V))
      → All (Same model) ms
      → with_id model.id ms ≡ 1
      → production_model model.name (map known (promote_all model ms))
        ≡ known_if (is_general model.asset_id) (record model { stage = production })
  unfolding known_if
  find_promoted model ms h u = elim (Bool-cases (is_general model.asset_id)) [
    | inl g ↦ rw g (find_some model ms g h u)
    | inr g ↦ rw g (find_none model ms g h)
  ]

  promoted_models :
      (model : Model V) (db db' : Db V)
      → checked_promote model db ≡ ok db'
      → db'.models ≡ promote_all model db.models
  unfolding checked_promote
  promoted_models model db db' e = ground (arith, e)

-- Where ids are unique, after a successful promotion the prediction of an edge node that names the
-- model without a version, by a name without a colon, is taken as one of the promoted model if that
-- is for all assets; if the model is for one asset, no model is found, even if there was one before.
pub resolve-promote :
    {V : Type 0} (db db' : Db V) (id : ℕ) (model : Model V)
    → with_id id db.models ≤ 1
    → get id db.models ≡ some model
    → promote id db ≡ ok db'
    → partition model.name ≡ (model.name, [])
    → resolve_model model.name (map known db'.models) ≡ (
        if is_general model.asset_id
        then some (known (record model { stage = production }))
        else none)
unfolding promote get_or_404 resolve_model known_if
resolve-promote db db' id model u g p c =
    let i : model.id ≡ id = get-id id db.models model g in
    let g' : get model.id db.models ≡ some model = ap (λ k. get k db.models) i ∙ g in
    let u' : with_id model.id db.models ≤ 1 = rw i u in
    let p' : checked_promote model db ≡ ok db' = ground (arith, g, p) in
    let (one, same) = get-with_id model.id db.models g' u' in
    rw (c, promoted_models model db db' p') (find_promoted model db.models same one ∙ ground arith)
