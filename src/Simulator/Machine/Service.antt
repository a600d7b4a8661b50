-- ===== src/Simulator/Machine/Service.antt =====
-- apps/simulator/sim/machines/base.py: `set_load_setpoint`, `inject` and `reset`, and a machine under
-- any sequence of them. The checks of engine.py on their arguments are in Simulator/Commands.antt.
use text.Mathlib.Text.{◌==◌ as str_eq}
use digital_twin.Prelude.{
  String, Bool, true, false, Option, none, some, List, [], ◌∷◌, ◌++◌, ◌&&◌, ◌||◌, if◌then◌else◌,
}
use digital_twin.Prelude.Floats.{Floats}
use digital_twin.Simulator.Machine.{
  maintenance, FaultMode, gradual, sudden, Conditions, Process, ActiveMode, Component, Machine,
  OperatingContext, refresh_damage, check_failures, step,
}

module _ (fl : Floats) (pr : Process fl.F) where
  -- `set_load_setpoint`
  unfoldable pub set_load_setpoint : fl.F → Machine fl.F pr.P → Machine fl.F pr.P
  set_load_setpoint l m = record m { load_setpoint_pct = some l; operating_load_pct = l }

  -- is the component one of those to reset?
  unfoldable pub is_chosen : Option String → String → Bool
  is_chosen none code = true
  is_chosen (some c) code = str_eq c code

  unfoldable pub reset_components :
      Option String → List (Component fl.F pr.P) → List (Component fl.F pr.P)
  unfolding is_chosen
  reset_components choice [] = []
  reset_components choice (c ∷ l) =
      (if is_chosen choice c.code
        then record c {
          process = elim c.process [ none ↦ none | some p ↦ some (pr.reset p) ];
          active_modes = [];
        }
        else c)
      ∷ reset_components choice l

  unfoldable pub has_component : String → List (Component fl.F pr.P) → Bool
  has_component code [] = false
  has_component code (c ∷ l) = str_eq c.code code || has_component code l

  unfoldable pub remaining_failure :
      Option String → List (Component fl.F pr.P) → Option String → Option String
  unfolding is_chosen has_component
  remaining_failure choice l none = none
  remaining_failure choice l (some code) =
      if is_chosen choice code && has_component code l then none else some code

  -- `reset`, of a component that the machine has, or of all
  unfoldable pub reset : Option String → Machine fl.F pr.P → Machine fl.F pr.P
  unfolding reset_components remaining_failure
  reset choice m =
      record (refresh_damage fl pr
        (record m { components = reset_components choice m.components })) {
          failed_component = remaining_failure choice m.components m.failed_component;
          state = maintenance;
          maintenance_left_s = m.maintenance_duration_s;
          load_pct = fl.of_ℕ 0;
        }

  unfoldable pub has_mode : String → Component fl.F pr.P → Bool
  has_mode mode c = elim c.failure_mode [ none ↦ false | some f ↦ str_eq f mode ]

  -- `component_for_mode`; a KeyError is none
  unfoldable pub component_for_mode :
      String → List (Component fl.F pr.P) → Option (Component fl.F pr.P)
  unfolding has_mode
  component_for_mode mode [] = none
  component_for_mode mode (c ∷ l) = if has_mode mode c then some c else component_for_mode mode l

  -- the first component of the failure mode gets another process
  unfoldable pub with_process :
      String → pr.P → List (Component fl.F pr.P) → List (Component fl.F pr.P)
  unfolding has_mode
  with_process mode p [] = []
  with_process mode p (c ∷ l) =
      if has_mode mode c then record c { process = some p } ∷ l else c ∷ with_process mode p l

  unfoldable pub with_active_mode :
      ActiveMode fl.F → List (Component fl.F pr.P) → List (Component fl.F pr.P)
  unfolding has_mode
  with_active_mode a [] = []
  with_active_mode a (c ∷ l) =
      if has_mode a.failure_mode c
      then record c { active_modes = c.active_modes ++ a ∷ [] } ∷ l
      else c ∷ with_active_mode a l

  -- (GRADUAL_MAX_H - (GRADUAL_MAX_H - GRADUAL_MIN_H) * severity) * 3600
  unfoldable pub target_life : fl.F → fl.F
  target_life severity =
      fl.mul (fl.sub (fl.of_ℕ 24) (fl.mul (fl.sub (fl.of_ℕ 24) (fl.of_ℕ 1)) severity))
        (fl.of_ℕ 3600)

  -- `math.isfinite(rul) and rul > target_s`
  unfoldable pub hastened : Option fl.F → fl.F → pr.P → pr.P
  hastened none target p = p
  hastened (some rul) target p = if fl.lt target rul then pr.scale_rate (fl.div rul target) p else p

  unfoldable pub operating : Option fl.F → Machine fl.F pr.P → Conditions fl.F
  operating temp m = record {
    load = fl.div m.operating_load_pct (fl.of_ℕ 100);
    speed = fl.div m.speed_setpoint_pct (fl.of_ℕ 100);
    temp_c = temp;
  }

  unfoldable pub inject_into :
      FaultMode → String → fl.F → Option fl.F → pr.P → Machine fl.F pr.P → Machine fl.F pr.P
  unfolding with_process target_life hastened operating
  inject_into gradual mode severity temp p m = record m {
    components =
        with_process mode (hastened (pr.true_rul (operating temp m) p) (target_life severity) p)
          m.components;
  }
  inject_into sudden mode severity temp p m = check_failures fl pr (
      refresh_damage fl pr
        (record m { components = with_process mode (pr.jump severity p) m.components }))

  -- the rest of `inject`, with the process of the component
  unfoldable pub inject_at :
      Option pr.P
      → String
      → FaultMode
      → fl.F
      → Option fl.F
      → Machine fl.F pr.P
      → Option (Machine fl.F pr.P)
  unfolding inject_into with_active_mode
  inject_at none mode kind severity temp m = none
  inject_at (some p) mode kind severity temp m =
      let m' = inject_into kind mode severity temp p m in
      some (record m' {
        components =
            with_active_mode
              (record {
                failure_mode = mode;
                mode = kind;
                severity = severity;
                started_s = m.now_s;
              })
              m'.components;
      })

  -- `inject`, at the temperature of the component's operating point; none is an exception
  unfoldable pub inject :
      String → FaultMode → fl.F → Option fl.F → Machine fl.F pr.P → Option (Machine fl.F pr.P)
  unfolding component_for_mode inject_at
  inject mode kind severity temp m =
      inject_at (elim (component_for_mode mode m.components) [ none ↦ none | some c ↦ c.process ])
        mode kind severity temp m

  -- what happens to a machine
  pub data Event : Type 0 where
    stepped :
        fl.F → OperatingContext fl.F → fl.F → (String → Option fl.F) → (String → pr.Draw) → Event
    load_set speed_set : fl.F → Event
    injected : String → FaultMode → fl.F → Option fl.F → Event
    was_reset : Option String → Event

  unfoldable pub or_same : Option (Machine fl.F pr.P) → Machine fl.F pr.P → Machine fl.F pr.P
  or_same none m = m
  or_same (some m') m = m'

  unfoldable pub on_event : (fl.F → fl.F) → Event → Machine fl.F pr.P → Machine fl.F pr.P
  unfolding set_load_setpoint reset inject or_same
  on_event exp (stepped dt ctx normal temp draw) m = step fl pr exp dt ctx normal temp draw m
  on_event exp (load_set l) m = set_load_setpoint l m
  on_event exp (speed_set s) m = record m { speed_setpoint_pct = s }
  on_event exp (injected mode kind severity temp) m = or_same (inject mode kind severity temp m) m
  on_event exp (was_reset choice) m = reset choice m

  unfoldable pub run : (fl.F → fl.F) → List Event → Machine fl.F pr.P → Machine fl.F pr.P
  unfolding on_event
  run exp [] m = m
  run exp (e ∷ l) m = run exp l (on_event exp e m)
