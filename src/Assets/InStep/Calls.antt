-- ===== src/Assets/InStep/Calls.antt =====
-- What the calls of Ditto leave behind.
use digital_twin.Prelude.{
  ℕ, ◌≡◌, ◌≢◌, ◌⊎◌, inl, inr, refl, ap, arith, true, false, List, Bool-cases,
}
use digital_twin.Assets.Tables.{
  Asset, active, retired, Thing, Twins, lost, merge_thing, set_policy_id, Env,
}
use digital_twin.Assets.Sync.{
  called, and_then, with_policy, ensure_policies, put, change, create_thing, update_thing,
  retire_thing, add_component, with_key,
}

pub pair : {A B : Type 0} {p : A × B} {b : B} → p.1 ≡ b → p ≡ (p.0, b)
pair {p} q = ap (λ x. (p.0, x)) q

module _ {V : Type 0} where
  pub ensure-things : (env : Env) (t : Twins V) → (ensure_policies env t).0.things ≡ t.things
  unfolding ensure_policies called and_then with_policy
  ensure-things env t = ground arith

  -- the policies are ensured, or the request ends there
  pub ensured :
      (env : Env) (t : Twins V)
      → ((x : Twins V) × (ensure_policies env t ≡ (x, true)) × (x.things ≡ t.things))
        ⊎ ((x : Twins V) × (ensure_policies env t ≡ (x, false)) × (x.things ≡ t.things))
  ensured env t = elim (Bool-cases (ensure_policies env t).1) [
    | inl q ↦ inl ((ensure_policies env t).0, pair q, ensure-things env t)
    | inr q ↦ inr ((ensure_policies env t).0, pair q, ensure-things env t)
  ]

  -- the thing of a new asset
  abbrev pub new_thing : Asset V → List ℕ → Thing V
  new_thing a cs = record { code = a.code; policy = active; attributes = a.values; components = cs }

  pub create_thing-cases :
      (env : Env) (a : Asset V) (cs : List ℕ) (t : Twins V)
      → (((create_thing env a cs t).1 ≡ false) × ((create_thing env a cs t).0.things ≡ t.things))
        ⊎ ((create_thing env a cs t).0.things ≡ put (new_thing a cs) t.things)
  unfolding create_thing called and_then
  create_thing-cases env a cs t = elim (ensured env t) [
    | inl (x, e, h) ↦ rw e (ground (arith, h))
    | inr (x, e, h) ↦ rw e (inl (refl, h))
  ]

  pub update_thing-cases :
      (env : Env) (a : Asset V) (t : Twins V)
      → env.outcome merge_thing ≢ lost
      → (((update_thing env a t).1 ≡ false) × ((update_thing env a t).0.things ≡ t.things))
        ⊎ (((update_thing env a t).1 ≡ true)
            × ((update_thing env a t).0.things
                ≡ change a.code (λ x. record x { attributes = a.values }) t.things))
  unfolding update_thing called
  update_thing-cases env a t n = ground (arith, n)

  pub add_component-cases :
      (env : Env) (a : Asset V) (code : ℕ) (t : Twins V)
      → env.outcome merge_thing ≢ lost
      → (((add_component env a code t).1 ≡ false)
          × ((add_component env a code t).0.things ≡ t.things))
        ⊎ (((add_component env a code t).1 ≡ true)
            × ((add_component env a code t).0.things
                ≡ change a.code
                    (λ x. record x { components = with_key code x.components })
                    t.things))
  unfolding add_component called
  add_component-cases env a code t n = ground (arith, n)

  pub retire_thing-cases :
      (env : Env) (a : Asset V) (t : Twins V)
      → env.outcome set_policy_id ≢ lost
      → (((retire_thing env a t).1 ≡ false) × ((retire_thing env a t).0.things ≡ t.things))
        ⊎ (((retire_thing env a t).1 ≡ true)
            × ((retire_thing env a t).0.things
                ≡ change a.code (λ x. record x { policy = retired }) t.things))
  unfolding retire_thing called and_then
  retire_thing-cases env a t n = elim (ensured env t) [
    | inl (x, e, h) ↦ rw e (ground (arith, h, n))
    | inr (x, e, h) ↦ rw e (inl (refl, h))
  ]
