-- ===== src/Simulator/Commands/Safety.antt =====
-- No command takes a machine out of range or makes the log too long.
use text.Mathlib.Text.{◌==◌ as str_eq}
use digital_twin.Prelude.{
  String, true, false, Option, none, some, List, [], ◌∷◌, ◌++◌, ◌&&◌, ◌≤◌, leb, length, drop, ◌≡◌,
  arith, All, if_ind, length-append, length-drop,
}
use digital_twin.Prelude.Floats.{Floats}
use digital_twin.Simulator.Machine.{Process, Machine, refresh_damage}
use digital_twin.Simulator.Machine.Service.{set_load_setpoint, has_component}
use digital_twin.Simulator.Machine.Service.{reset as reset_machine}
use digital_twin.Simulator.Machine.Load.{InRange, Bounds, IsInRange, zero-InRange, HasSetpoint}
use digital_twin.Simulator.Commands.{
  Leaf, null, string, Value, Payload, fields, not_json, not_object, unreadable, Number, float,
  not_number, too_large, crashed, Level, info, warning, LogEntry, Engine, Outcome, done, failed,
  machine, changed, appended, recorded, operated, get, number_at, set_load, set_speed, reset_at,
  dispatch, dispatch_to, is_id, params_of, with_params, attempt, id_of, known, answered,
  handle_command,
}

length-appended : (e : LogEntry) (l : List LogEntry) → length l ≤ 100 → length (appended e l) ≤ 100
unfolding appended
length-appended e l h =
    if_ind (λ x. length x ≤ 100) (leb 100 (length l)) (drop 1 l ++ e ∷ []) (l ++ e ∷ [])
      (λ t. omega (arith, h, length-append (drop 1 l) (e ∷ []), length-drop 1 l))
      (λ t. let u : length l ≤ 99 = ground (arith, t) in omega (arith, u, length-append l (e ∷ [])))

module _ (fl : Floats) (pr : Process fl.F) where
  module _ (bounds : Bounds fl) (agree : (a b : fl.F) → fl.le a b ≡ true → fl.lt b a ≡ false) where
    -- every machine is in range, and the log is short
    pub record IsSafe (e : Engine fl.F pr.P) : Type 0 where
      pub machines : All (λ x. IsInRange fl bounds pr x.1) e.machines
      pub log : length e.log ≤ 100

    changed-All :
        (code : String) (f : Machine fl.F pr.P → Machine fl.F pr.P)
        → ((m : Machine fl.F pr.P) → IsInRange fl bounds pr m → IsInRange fl bounds pr (f m))
        → (l : List (String × Machine fl.F pr.P)) → All (λ x. IsInRange fl bounds pr x.1) l
        → All (λ x. IsInRange fl bounds pr x.1) (changed code f l)
    unfolding changed
    changed-All code f g [] h = tt
    changed-All code f g ((c, m) ∷ l) (p, h) =
        if_ind (λ k. All (λ x. IsInRange fl bounds pr x.1) k) (str_eq c code) ((c, f m) ∷ l)
          ((c, m) ∷ changed code f l) (λ e. (g m p, h)) (λ e. (p, changed-All code f g l h))

    recorded-IsSafe :
        (level : Level) (code : Option String) (e : Engine fl.F pr.P)
        → IsSafe e
        → IsSafe (recorded level code e)
    unfolding recorded
    recorded-IsSafe level code e h = record {
      machines = h.machines;
      log = length-appended _ e.log h.log;
    }

    operated-IsSafe :
        (code : String) (f : Machine fl.F pr.P → Machine fl.F pr.P) (e : Engine fl.F pr.P)
        → ((m : Machine fl.F pr.P) → IsInRange fl bounds pr m → IsInRange fl bounds pr (f m))
        → IsSafe e
        → IsSafe (operated code f e)
    unfolding operated
    operated-IsSafe code f e g h =
        recorded-IsSafe info (some code) (record e { machines = changed code f e.machines })
          (record { machines = changed-All code f g e.machines h.machines; log = h.log })

    -- what an operation gives is safe, if it gives anything
    unfoldable pub IsGood : Outcome (Engine fl.F pr.P) → Type 0
    IsGood (done e) = IsSafe e
    IsGood (failed x) = Unit
    IsGood crashed = Unit

    set_load-IsGood :
        (code : String) (o : Number fl.F) (e : Engine fl.F pr.P)
        → IsSafe e
        → IsGood (set_load fl pr code o e)
    unfolding set_load IsGood set_load_setpoint HasSetpoint InRange
    set_load-IsGood code not_number e h = tt
    set_load-IsGood code too_large e h = tt
    set_load-IsGood code (float x) e h =
        if_ind IsGood (fl.le (fl.of_ℕ 0) x && fl.le x (fl.of_ℕ 110))
          (done (operated code (set_load_setpoint fl pr x) e)) _
          (λ t.
            operated-IsSafe code (set_load_setpoint fl pr x) e
              (λ m k. record {
                load = k.load;
                setpoint = (
                  agree (fl.of_ℕ 0) x (ground (arith, t)),
                  agree x (fl.of_ℕ 110) (ground (arith, t)),
                );
              })
              h)
          (λ f. tt)

    set_speed-IsGood :
        (code : String) (o : Number fl.F) (e : Engine fl.F pr.P)
        → IsSafe e
        → IsGood (set_speed fl pr code o e)
    unfolding set_speed IsGood
    set_speed-IsGood code not_number e h = tt
    set_speed-IsGood code too_large e h = tt
    set_speed-IsGood code (float x) e h =
        if_ind IsGood (fl.le (fl.of_ℕ 50) x && fl.le x (fl.of_ℕ 120))
          (done (operated code (λ m. record m { speed_setpoint_pct = x }) e)) _
          (λ t.
            operated-IsSafe code (λ m. record m { speed_setpoint_pct = x }) e
              (λ m k. record { load = k.load; setpoint = k.setpoint }) h)
          (λ f. tt)

    reset-IsInRange :
        (choice : Option String) (m : Machine fl.F pr.P)
        → IsInRange fl bounds pr m
        → IsInRange fl bounds pr (reset_machine fl pr choice m)
    unfolding reset_machine refresh_damage
    reset-IsInRange choice m h = record { load = zero-InRange fl bounds; setpoint = h.setpoint }

    reset_at-IsGood :
        (code : String) (m : Machine fl.F pr.P) (v : Leaf fl.F) (e : Engine fl.F pr.P)
        → IsSafe e
        → IsGood (reset_at fl pr code m v e)
    unfolding reset_at IsGood
    reset_at-IsGood code m null e h =
        operated-IsSafe code (reset_machine fl pr none) e (reset-IsInRange none) h
    reset_at-IsGood code m (string c) e h =
        if_ind IsGood (has_component fl pr c m.components)
          (done (operated code (reset_machine fl pr (some c)) e)) _
          (λ t. operated-IsSafe code (reset_machine fl pr (some c)) e (reset-IsInRange (some c)) h)
          (λ f. tt)
    reset_at-IsGood code m v e h = tt

    dispatch_to-IsGood :
        (o : Option (Machine fl.F pr.P)) (code command : String)
        (params : List (String × Leaf fl.F)) (e : Engine fl.F pr.P)
        → IsSafe e
        → IsGood (dispatch_to fl pr o code command params e)
    unfolding dispatch_to dispatch IsGood
    dispatch_to-IsGood none code command params e h = tt
    dispatch_to-IsGood (some m) code command params e h =
        if_ind IsGood (str_eq command "set_load") _ _
          (λ t. set_load-IsGood code (number_at "load_pct" params) e h)
          (λ f.
            if_ind IsGood (str_eq command "set_speed") _ _
              (λ t. set_speed-IsGood code (number_at "speed_pct" params) e h)
              (λ g.
                if_ind IsGood (str_eq command "maintenance_reset") _ _
                  (λ t. reset_at-IsGood code m (get "component_code" params) e h) (λ k. tt)))

    with_params-IsGood :
        (o : Option (List (String × Leaf fl.F))) (code command : String) (e : Engine fl.F pr.P)
        → IsSafe e
        → IsGood (with_params fl pr o code command e)
    unfolding with_params IsGood
    with_params-IsGood none code command e h = tt
    with_params-IsGood (some params) code command e h =
        dispatch_to-IsGood (machine code e.machines) code command params e h

    attempt-IsGood :
        (payload : Payload fl.F) (code command : String) (e : Engine fl.F pr.P)
        → IsSafe e
        → IsGood (attempt fl pr payload code command e)
    unfolding attempt IsGood
    attempt-IsGood (fields i b params) code command e h =
        if_ind IsGood (is_id fl pr i) _ _
          (λ t. with_params-IsGood (params_of fl pr params) code command e h) (λ f. tt)
    attempt-IsGood unreadable code command e h = tt
    attempt-IsGood not_json code command e h = tt
    attempt-IsGood not_object code command e h = tt

    answered-IsSafe :
        (o : Outcome (Engine fl.F pr.P)) (i : Value fl.F) (code command : String)
        (e : Engine fl.F pr.P)
        → IsGood o
        → IsSafe e
        → IsSafe (answered fl pr o i code command e).0
    unfolding answered IsGood
    answered-IsSafe (done e') i code command e g h = recorded-IsSafe info (known fl pr code e') e' g
    answered-IsSafe (failed x) i code command e g h =
        recorded-IsSafe warning (known fl pr code e) e h
    answered-IsSafe crashed i code command e g h = h

    -- No command, whatever its payload, takes a machine's load or its load setpoint out of 0 to 110
    -- percent or makes the log longer than 100 entries.
    pub handle_command-IsSafe :
        (code command : String) (payload : Payload fl.F) (e : Engine fl.F pr.P)
        → IsSafe e
        → IsSafe (handle_command fl pr code command payload e).0
    unfolding handle_command
    handle_command-IsSafe code command payload e h =
        answered-IsSafe (attempt fl pr payload code command e) (id_of fl pr payload) code command e
          (attempt-IsGood payload code command e h) h
