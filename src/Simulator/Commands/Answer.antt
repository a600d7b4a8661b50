-- ===== src/Simulator/Commands/Answer.antt =====
-- Which commands are answered; a rejected one changes no machine.
use digital_twin.Prelude.{
  String, true, Option, none, some, List, ◌≡◌, ◌⊎◌, refl, inl, inr, ◌&&◌, if_ind,
}
use text.Mathlib.Text.{◌==◌ as str_eq}
use digital_twin.Prelude.Floats.{Floats}
use digital_twin.Simulator.Machine.Service.{has_component}
use digital_twin.Simulator.Machine.{Process, Machine}
use digital_twin.Simulator.Commands.{
  Leaf, null, string, Payload, fields, not_json, not_object, Error, Engine, Outcome, done, failed,
  crashed, Number, float, not_number, too_large, huge, unreadable, get, number_of, number_at,
  set_load, set_speed, reset_at, dispatch, Ack, machine, recorded, dispatch_to, is_id, params_of,
  with_params, attempt, id_of, answered, handle_command,
}

module _ (fl : Floats) (pr : Process fl.F) where
  -- the asset is known and the command has an id
  unfoldable pub IsAddressed : String → Payload fl.F → Engine fl.F pr.P → Type 0
  IsAddressed code payload e =
      (m : Machine fl.F pr.P) × (machine code e.machines ≡ some m)
      × (is_id fl pr (id_of fl pr payload) ≡ true)

  -- a load or a speed that no float can hold
  abbrev pub HasHuge : List (String × Leaf fl.F) → Type 0
  HasHuge l = (get "load_pct" l ≡ huge) ⊎ (get "speed_pct" l ≡ huge)

  -- `json.loads` or `float` raises what `handle_command` does not catch
  unfoldable pub IsUncaught : Payload fl.F → Type 0
  IsUncaught unreadable = Unit {0}
  IsUncaught not_json = ⊥
  IsUncaught not_object = ⊥
  IsUncaught (fields i b params) =
      (l : List (String × Leaf fl.F)) × (params_of fl pr params ≡ some l) × HasHuge l

  -- what an operation that ends or crashes shows
  unfoldable Shows : Type 0 → Type 0 → Outcome (Engine fl.F pr.P) → Type 0
  Shows P Q (done e') = P
  Shows P Q (failed x) = Unit {0}
  Shows P Q crashed = Q

  number_of-huge : (v : Leaf fl.F) → number_of v ≡ too_large → v ≡ huge
  unfolding number_of
  number_of-huge huge h = refl
  number_of-huge v h = cc

  set_load-Shows :
      (code : String) (n : Number fl.F) (e : Engine fl.F pr.P) (P Q : Type 0)
      → P
      → (n ≡ too_large → Q)
      → Shows P Q (set_load fl pr code n e)
  unfolding Shows set_load
  set_load-Shows code not_number e P Q p q = tt
  set_load-Shows code too_large e P Q p q = q refl
  set_load-Shows code (float x) e P Q p q =
      if_ind (Shows P Q) (fl.le (fl.of_ℕ 0) x && fl.le x (fl.of_ℕ 110)) _ _ (λ t. p) (λ f. tt)

  set_speed-Shows :
      (code : String) (n : Number fl.F) (e : Engine fl.F pr.P) (P Q : Type 0)
      → P
      → (n ≡ too_large → Q)
      → Shows P Q (set_speed fl pr code n e)
  unfolding Shows set_speed
  set_speed-Shows code not_number e P Q p q = tt
  set_speed-Shows code too_large e P Q p q = q refl
  set_speed-Shows code (float x) e P Q p q =
      if_ind (Shows P Q) (fl.le (fl.of_ℕ 50) x && fl.le x (fl.of_ℕ 120)) _ _ (λ t. p) (λ f. tt)

  reset_at-Shows :
      (code : String) (m : Machine fl.F pr.P) (v : Leaf fl.F) (e : Engine fl.F pr.P) (P Q : Type 0)
      → P
      → Shows P Q (reset_at fl pr code m v e)
  unfolding Shows reset_at
  reset_at-Shows code m null e P Q p = p
  reset_at-Shows code m (string c) e P Q p =
      if_ind (Shows P Q) (has_component fl pr c m.components) _ _ (λ t. p) (λ f. tt)
  reset_at-Shows code m v e P Q p = tt

  dispatch-Shows :
      (code : String) (m : Machine fl.F pr.P) (command : String)
      (params : List (String × Leaf fl.F)) (e : Engine fl.F pr.P) (P : Type 0)
      → P
      → Shows P (HasHuge params) (dispatch fl pr code m command params e)
  unfolding Shows dispatch number_at
  dispatch-Shows code m command params e P p =
      if_ind (Shows P (HasHuge params)) (str_eq command "set_load") _ _
        (λ t.
          set_load-Shows code (number_at "load_pct" params) e P (HasHuge params) p
            (λ h. inl (number_of-huge (get "load_pct" params) h)))
        (λ f.
          if_ind (Shows P (HasHuge params)) (str_eq command "set_speed") _ _
            (λ t.
              set_speed-Shows code (number_at "speed_pct" params) e P (HasHuge params) p
                (λ h. inr (number_of-huge (get "speed_pct" params) h)))
            (λ g.
              if_ind (Shows P (HasHuge params)) (str_eq command "maintenance_reset") _ _
                (λ t. reset_at-Shows code m (get "component_code" params) e P (HasHuge params) p)
                (λ k. tt)))

  Shows-map :
      (o : Outcome (Engine fl.F pr.P)) (P P' Q Q' : Type 0)
      → (P → P')
      → (Q → Q')
      → Shows P Q o
      → Shows P' Q' o
  unfolding Shows
  Shows-map (done e') P P' Q Q' f g h = f h
  Shows-map (failed x) P P' Q Q' f g h = tt
  Shows-map crashed P P' Q Q' f g h = g h

  abbrev IsKnown : String → Engine fl.F pr.P → Type 0
  IsKnown code e = (m : Machine fl.F pr.P) × (machine code e.machines ≡ some m)

  dispatch_to-Shows :
      (o : Option (Machine fl.F pr.P)) (code command : String) (params : List (String × Leaf fl.F))
      (e : Engine fl.F pr.P)
      → machine code e.machines ≡ o
      → Shows (IsKnown code e) (HasHuge params) (dispatch_to fl pr o code command params e)
  unfolding dispatch_to Shows
  dispatch_to-Shows none code command params e q = tt
  dispatch_to-Shows (some m) code command params e q =
      dispatch-Shows code m command params e (IsKnown code e) (m, q)

  with_params-Shows :
      (o : Option (List (String × Leaf fl.F))) (code command : String) (e : Engine fl.F pr.P)
      → Shows
          (IsKnown code e)
          ((l : List (String × Leaf fl.F)) × (o ≡ some l) × HasHuge l)
          (with_params fl pr o code command e)
  unfolding with_params Shows
  with_params-Shows none code command e = tt
  with_params-Shows (some params) code command e =
      Shows-map (dispatch_to fl pr (machine code e.machines) code command params e) (IsKnown code e)
        (IsKnown code e) (HasHuge params) _ (λ k. k) (λ h. (params, refl, h))
        (dispatch_to-Shows (machine code e.machines) code command params e refl)

  attempt-Shows :
      (payload : Payload fl.F) (code command : String) (e : Engine fl.F pr.P)
      → Shows
          (IsAddressed code payload e)
          (IsUncaught payload)
          (attempt fl pr payload code command e)
  unfolding attempt id_of IsAddressed IsUncaught Shows
  attempt-Shows (fields i b params) code command e =
      if_ind (Shows (IsAddressed code (fields i b params) e) (IsUncaught (fields i b params)))
        (is_id fl pr i) _ _
        (λ t.
          Shows-map (with_params fl pr (params_of fl pr params) code command e) (IsKnown code e) _ _
            _ (λ (m, k). (m, k, t)) (λ h. h)
            (with_params-Shows (params_of fl pr params) code command e))
        (λ f. tt)
  attempt-Shows unreadable code command e = tt
  attempt-Shows not_json code command e = tt
  attempt-Shows not_object code command e = tt

  -- the ack to a command
  abbrev pub Answer :
      String → Payload fl.F → Engine fl.F pr.P → Engine fl.F pr.P × Option (Ack fl.F) → Type 0
  Answer code payload e out =
      (a : Ack fl.F) × (out.1 ≡ some a)
      × (a.command_id ≡ id_of fl pr payload)
      × ((x : Error) → a.error ≡ some x → out.0.machines ≡ e.machines)
      × (a.error ≡ none → IsAddressed code payload e)

  answered_lem :
      (payload : Payload fl.F) (o : Outcome (Engine fl.F pr.P)) (code command : String)
      (e : Engine fl.F pr.P)
      → Shows (IsAddressed code payload e) (IsUncaught payload) o
      → Answer code payload e (answered fl pr o (id_of fl pr payload) code command e)
        ⊎ (IsUncaught payload × (answered fl pr o (id_of fl pr payload) code command e ≡ (e, none)))
  unfolding answered recorded Shows
  answered_lem payload (done e') code command e h = inl (_, refl, refl, (λ x k. cc), λ k. h)
  answered_lem payload (failed x) code command e h = inl (_, refl, refl, (λ y k. refl), λ k. cc)
  answered_lem payload crashed code command e h = inr (h, refl)

  -- A command is answered with the id of its payload, unless `json.loads` raises an exception that is
  -- not caught or the load or the speed is an integer that no float can hold; then nothing is changed.
  -- If the ack has an error, then every machine is as it was; if it has none, then the command had an
  -- id that is a text and not empty, and the asset is one of the fleet.
  pub handle_command-ack :
      (code command : String) (payload : Payload fl.F) (e : Engine fl.F pr.P)
      → Answer code payload e (handle_command fl pr code command payload e)
        ⊎ (IsUncaught payload × (handle_command fl pr code command payload e ≡ (e, none)))
  unfolding handle_command
  handle_command-ack code command payload e =
      answered_lem payload (attempt fl pr payload code command e) code command e
        (attempt-Shows payload code command e)
