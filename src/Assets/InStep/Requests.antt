-- ===== src/Assets/InStep/Requests.antt =====
-- The things of Ditto stay in step with the assets.
use digital_twin.Prelude.{
  ℕ, ◌≡◌, ◌≢◌, inl, inr, refl, true, some, List, [], ◌∷◌, All, Option-cases, if_ind,
}
use digital_twin.Prelude.Result.{Result, Result-cases}
use digital_twin.Assets.Tables.{
  Asset, IdShort, Db, retired, lost, merge_thing, set_policy_id, Env, Platform, AssetCreate,
}
use digital_twin.Assets.Sync.{
  change, with_key, create_thing, update_thing, retire_thing, add_component,
}
use digital_twin.Assets.Service.{
  checked_create, created, updated, retired_in, new_asset, create_asset, update_asset, retire_asset,
  live_asset, Request, creating, updating, retiring, adding, step, run, with_audit, component_added,
  create_component,
}
use digital_twin.Assets.Structure.{codes_of, has_component}
use digital_twin.Assets.Codes.{IsSound, checked-Apart, step-IsSound, relink, no_assets}
use digital_twin.Assets.Rows.{Link, live_asset-All, live_asset-Link}
use digital_twin.Assets.InStep.{thing_of, Shows, InStep}
use digital_twin.Assets.InStep.Calls.{
  create_thing-cases, update_thing-cases, retire_thing-cases, add_component-cases,
}
use digital_twin.Assets.InStep.Finish.{failed, Holds, finish-put, finish-save, finish-kept}

-- Ditto answers, if it does what is asked of it, and the commit succeeds.
abbrev pub IsAnswered : Env → Type 0
IsAnswered env =
    (env.commits ≡ true) × (env.outcome merge_thing ≢ lost) × (env.outcome set_policy_id ≢ lost)

module _ {V : Type 0} (build : IdShort → Asset V → V) where
  create-Holds :
      (env : Env) (d : AssetCreate V) (p : Platform V)
      → IsSound p.db
      → Holds p
      → Holds (create_asset build env d p).0
  unfolding create_asset created new_asset with_audit
  create-Holds env d p s h = elim (Result-cases (checked_create env d p.db)) [
    | inl (problem, e) ↦ rw (e, create_asset) h
    | inr ((cs, ss), e) ↦
        (let a : Asset V = new_asset d p.db.next_id in
          let db : Db V = created build d cs ss p.db in
          rw (e, create_asset)
            (elim (create_thing-cases env a (codes_of cs) p.twins) [
              | inl (n, t) ↦
                  rw (failed env.commits db p (create_thing env a (codes_of cs) p.twins) n) (rw t h)
              | inr t ↦
                  finish-put a (codes_of cs) env.commits db p _
                    (checked-Apart env d p.db (cs, ss) s e) refl refl t h
            ]))
  ]

  live-Shows :
      (id : ℕ) (p : Platform V) (a : Asset V)
      → live_asset id p.db.assets ≡ some a
      → Holds p
      → Shows a (thing_of a.code p.twins.things)
  live-Shows id p a e h =
      live_asset-All (λ x. Shows x (thing_of x.code p.twins.things)) id p.db.assets a h e

  update-Holds :
      (env : Env) (id : ℕ) (change : V → V) (p : Platform V)
      → IsAnswered env
      → IsSound p.db
      → Holds p
      → Holds (update_asset build env id change p).0
  unfolding update_asset updated with_audit
  update-Holds env id change p (c, n, m) s h = elim (Option-cases (live_asset id p.db.assets)) [
    | inl e ↦ rw (e, update_asset) h
    | inr (a, e) ↦
        (let b : Asset V = record a { values = change a.values } in
          let l : All (Link b) p.db.assets =
            relink a b p.db.assets refl refl (live_asset-Link id p.db.assets a s.unique e) in
          rw (e, update_asset)
            (if_ind (λ (x : Platform V × Result (Unit {0})). Holds x.0) (env.line_exists b.line_id)
              _ _
              (λ _. rw c (
                finish-save a b (λ x. record x { attributes = b.values }) (updated build b p.db) p
                  (update_thing env b p.twins) (λ x. refl) (λ x k. (k.0, refl)) refl l s.unique
                  (live-Shows id p a e h) refl (update_thing-cases env b p.twins n) h))
              (λ _. h)))
  ]

  retire-Holds :
      (env : Env) (id : ℕ) (p : Platform V)
      → IsAnswered env
      → IsSound p.db
      → Holds p
      → Holds (retire_asset env id p).0
  unfolding retire_asset retired_in with_audit
  retire-Holds env id p (c, n, m) s h = elim (Option-cases (live_asset id p.db.assets)) [
    | inl e ↦ rw (e, retire_asset) h
    | inr (a, e) ↦
        (let b : Asset V = record a { deleted = true } in
          let l : All (Link b) p.db.assets =
            relink a b p.db.assets refl refl (live_asset-Link id p.db.assets a s.unique e) in
          rw (e, retire_asset)
            (rw c (
              finish-save a b (λ x. record x { policy = retired }) (retired_in a p.db) p
                (retire_thing env a p.twins) (λ x. refl) (λ x k. (refl, k.1)) refl l s.unique
                (live-Shows id p a e h) refl (retire_thing-cases env a p.twins m) h)))
  ]

  add-Holds :
      (env : Env) (id code : ℕ) (p : Platform V)
      → IsAnswered env
      → Holds p
      → Holds (create_component env id code p).0
  unfolding create_component component_added with_audit
  add-Holds env id code p (c, n, m) h = elim (Option-cases (live_asset id p.db.assets)) [
    | inl e ↦ rw (e, create_component) h
    | inr (a, e) ↦
        rw (e, create_component)
          (if_ind (λ (x : Platform V × Result (Unit {0})). Holds x.0)
            (has_component a.id code p.db.components) _ _ (λ _. h)
            (λ _. rw c (
              finish-kept a.code (λ x. record x { components = with_key code x.components })
                (component_added a code p.db) p (add_component env a code p.twins) (λ x. refl)
                (λ b x k. k) refl (add_component-cases env a code p.twins n) h)))
  ]

  run-Holds :
      (rs : List (Env × Request V)) (p : Platform V)
      → All (λ r. IsAnswered r.0) rs
      → IsSound p.db
      → Holds p
      → Holds (run build rs p)
  unfolding run step
  run-Holds [] p a s h = h
  run-Holds ((env, creating d) ∷ rs) p (a, as') s h =
      run-Holds rs _ as' (step-IsSound build p (env, creating d) s) (create-Holds env d p s h)
  run-Holds ((env, updating id change) ∷ rs) p (a, as') s h =
      run-Holds rs _ as' (step-IsSound build p (env, updating id change) s)
        (update-Holds env id change p a s h)
  run-Holds ((env, retiring id) ∷ rs) p (a, as') s h =
      run-Holds rs _ as' (step-IsSound build p (env, retiring id) s) (retire-Holds env id p a s h)
  run-Holds ((env, adding id code) ∷ rs) p (a, as') s h =
      run-Holds rs _ as' (step-IsSound build p (env, adding id code) s)
        (add-Holds env id code p a h)

-- After any requests whose commits succeed and in which no merge or change of policy takes effect
-- though its answer is lost, each asset has a thing in Ditto with its attributes; the policy of the
-- thing is the read-only one if the asset is retired, and the other one if it is not. Refused calls
-- are included, and creations whose call takes effect without an answer.
pub run-InStep :
    {V : Type 0} (build : IdShort → Asset V → V) (requests : List (Env × Request V))
    → All (λ r. IsAnswered r.0) requests
    → InStep (run build requests no_assets).twins.things (run build requests no_assets).db.assets
run-InStep build requests h =
    run-Holds build requests no_assets h (record { unique = tt; fresh = tt }) tt
