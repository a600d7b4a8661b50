-- ===== src/Assets/Sync.antt =====
-- `TwinSyncService` of apps/api/app/modules/twin/service.py, which keeps the things of Ditto in step
-- with the assets. A 404 of Ditto is no error to its client.
use digital_twin.Prelude.{ℕ, Bool, true, false, List, [], ◌∷◌, ◌==◌, if◌then◌else◌}
use digital_twin.Assets.Tables.{
  Asset, Policy, active, retired, Thing, Twins, Outcome, done, refused, lost, put_active,
  put_retired, put_thing, merge_thing, set_policy_id, Env,
}

-- the keys of the feature components, with a new one
unfoldable pub with_key : ℕ → List ℕ → List ℕ
with_key code [] = code ∷ []
with_key code (k ∷ ks) = if k == code then k ∷ ks else k ∷ with_key code ks

module _ {V : Type 0} where
  -- the state of Ditto after a call, and whether the client raises nothing
  unfoldable pub called : Outcome → (Twins V → Twins V) → Twins V → Twins V × Bool
  called done f t = (f t, true)
  called refused f t = (t, false)
  called lost f t = (f t, false)

  -- the rest runs if nothing was raised
  unfoldable pub and_then : Twins V × Bool → (Twins V → Twins V × Bool) → Twins V × Bool
  and_then (t, true) rest = rest t
  and_then (t, false) rest = (t, false)

  unfoldable pub with_policy : Policy → Twins V → Twins V
  with_policy p t = record t { policies = p ∷ t.policies }

  unfoldable pub ensure_policies : Env → Twins V → Twins V × Bool
  unfolding called and_then with_policy
  ensure_policies env t =
      if t.policies_ready
      then (t, true)
      else and_then
          (and_then (called (env.outcome put_active) (with_policy active) t)
            (λ t. called (env.outcome put_retired) (with_policy retired) t))
          (λ t. (record t { policies_ready = true }, true))

  -- PUT /things/{id}
  unfoldable pub put : Thing V → List (Thing V) → List (Thing V)
  put x [] = x ∷ []
  put x (y ∷ ys) = if y.code == x.code then x ∷ ys else y ∷ put x ys

  -- PATCH /things/{id} and PUT /things/{id}/policyId change only a thing that is there.
  unfoldable pub change : ℕ → (Thing V → Thing V) → List (Thing V) → List (Thing V)
  change code f [] = []
  change code f (y ∷ ys) = if y.code == code then f y ∷ ys else y ∷ change code f ys

  unfoldable pub create_thing : Env → Asset V → List ℕ → Twins V → Twins V × Bool
  unfolding ensure_policies put
  create_thing env a components t = and_then (ensure_policies env t) (λ t.
      called (env.outcome put_thing)
        (λ t. record t {
          things =
              put
                (record {
                  code = a.code;
                  policy = active;
                  attributes = a.values;
                  components = components;
                })
                t.things;
        })
        t)

  unfoldable pub update_thing : Env → Asset V → Twins V → Twins V × Bool
  unfolding called change
  update_thing env a t =
      called (env.outcome merge_thing)
        (λ t. record t {
          things = change a.code (λ x. record x { attributes = a.values }) t.things;
        })
        t

  unfoldable pub add_component : Env → Asset V → ℕ → Twins V → Twins V × Bool
  unfolding called change
  add_component env a code t =
      called (env.outcome merge_thing)
        (λ t. record t {
          things =
              change a.code (λ x. record x { components = with_key code x.components }) t.things;
        })
        t

  unfoldable pub retire_thing : Env → Asset V → Twins V → Twins V × Bool
  unfolding ensure_policies change
  retire_thing env a t = and_then (ensure_policies env t) (λ t.
      called (env.outcome set_policy_id)
        (λ t. record t { things = change a.code (λ x. record x { policy = retired }) t.things }) t)
