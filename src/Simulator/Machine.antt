-- ===== src/Simulator/Machine.antt =====
-- apps/simulator/sim/machines/base.py: the operating state of a machine, its load and the failures of
-- its components, with `follow_plan` of production.py and the constants they use. The processes of
-- wear are an interface, `Process`, which Simulator/Wear.antt fills. Floating-point numbers and exp are parameters;
-- a draw of the random generator is an argument. Signals, sensors, energy, production counts and the
-- texts of events are not modelled: the clean temperature of a component is an argument of a step.
pub mod Service
pub mod Failures
pub mod Load
pub mod Repair
use digital_twin.Prelude.{
  ℕ, String, Bool, true, false, not, Option, none, some, List, [], ◌∷◌, ◌&&◌, ◌||◌, if◌then◌else◌,
}
use digital_twin.Prelude.Floats.{Floats}
use digital_twin.Simulator.Clamp.{fmax, fmin}

pub data State : Type 0 where
  running idle down maintenance : State

pub data FaultMode : Type 0 where
  gradual sudden : FaultMode

pub record Conditions (F : Type 0) : Type 0 where
  pub load : F
  pub speed : F
  pub temp_c : Option F

-- what a machine asks of a `DegradationProcess`; a life without end is none
pub record Process (F : Type 0) : Type 1 where
  pub P : Type 0
  pub Draw : Type 0
  pub damage : P → F
  pub failed : P → Bool
  pub step : F → Conditions F → Draw → P → P
  pub true_rul : Conditions F → P → Option F
  pub scale_rate : F → P → P
  pub jump : F → P → P
  pub reset : P → P

pub record ActiveMode (F : Type 0) : Type 0 where
  pub failure_mode : String
  pub mode : FaultMode
  pub severity : F
  pub started_s : F

pub record Component (F P : Type 0) : Type 0 where
  pub code : String
  pub failure_mode : Option String
  pub process : Option P
  pub active_modes : List (ActiveMode F)

pub record Machine (F P : Type 0) : Type 0 where
  pub components : List (Component F P)
  pub state : State
  pub load_pct : F
  pub speed_setpoint_pct : F
  pub load_setpoint_pct : Option F
  pub now_s : F
  pub maintenance_duration_s : F
  pub maintenance_left_s : F
  pub failed_component : Option String
  pub operating_load_pct : F
  pub damage : List (String × F)

pub record OperatingContext (F : Type 0) : Type 0 where
  pub now_s : F
  pub producing : Bool
  pub plan_load_pct : F

unfoldable pub is_running : State → Bool
is_running running = true
is_running _ = false

unfoldable pub is_down : State → Bool
is_down down = true
is_down _ = false

module _ (fl : Floats) where
  -- the walk of `follow_plan`; 300 is LOAD_CORRELATION_S, 5/2 LOAD_WALK_STD_PCT, 110 MAX_LOAD_PCT
  unfoldable pub walked : (fl.F → fl.F) → fl.F → fl.F → fl.F → fl.F → fl.F
  unfolding fmax fmin
  walked exp load_pct target_pct dt normal =
      let decay = exp (fl.div (fl.sub (fl.of_ℕ 0) dt) (fl.of_ℕ 300)) in
      let noise =
        fl.mul
          (fl.mul (fl.div (fl.of_ℕ 5) (fl.of_ℕ 2))
            (fl.sqrt (fl.sub (fl.of_ℕ 1) (fl.mul decay decay))))
          normal in
      fmin fl
        (fmax fl (fl.add (fl.add target_pct (fl.mul (fl.sub load_pct target_pct) decay)) noise)
          (fl.of_ℕ 0))
        (fl.of_ℕ 110)

  -- `follow_plan`
  unfoldable pub follow_plan : (fl.F → fl.F) → fl.F → fl.F → fl.F → fl.F → Bool → fl.F
  follow_plan exp load_pct target_pct dt normal walk =
      if walk then walked exp load_pct target_pct dt normal else target_pct

  module _ (pr : Process fl.F) where
    -- does the component's process exist and has it failed?
    unfoldable pub has_failed : Component fl.F pr.P → Bool
    has_failed c = elim c.process [ none ↦ false | some p ↦ pr.failed p ]

    unfoldable pub damage_of : Component fl.F pr.P → fl.F
    damage_of c = elim c.process [ none ↦ fl.of_ℕ 0 | some p ↦ pr.damage p ]

    unfoldable pub damages : List (Component fl.F pr.P) → List (String × fl.F)
    unfolding damage_of
    damages [] = []
    damages (c ∷ l) = (c.code, damage_of c) ∷ damages l

    -- `_refresh_damage`
    unfoldable pub refresh_damage : Machine fl.F pr.P → Machine fl.F pr.P
    unfolding damages
    refresh_damage m = record m { damage = damages m.components }

    unfoldable pub first_failed : List (Component fl.F pr.P) → Option String
    unfolding has_failed
    first_failed [] = none
    first_failed (c ∷ l) = let rest = first_failed l in if has_failed c then some c.code else rest

    -- `_fail`
    unfoldable pub fail : String → Machine fl.F pr.P → Machine fl.F pr.P
    fail code m = record m { state = down; load_pct = fl.of_ℕ 0; failed_component = some code }

    unfoldable pub fail_first : Option String → Machine fl.F pr.P → Machine fl.F pr.P
    unfolding fail
    fail_first none m = m
    fail_first (some code) m = fail code m

    -- `_check_failures`
    unfoldable pub check_failures : Machine fl.F pr.P → Machine fl.F pr.P
    unfolding fail_first first_failed is_down
    check_failures m = if is_down m.state then m else fail_first (first_failed m.components) m

    unfoldable pub after_maintenance : Bool → State
    after_maintenance producing = if producing then running else idle

    unfoldable pub update_from : State → fl.F → Bool → Machine fl.F pr.P → Machine fl.F pr.P
    unfolding after_maintenance
    update_from down dt producing m = m
    update_from maintenance dt producing m =
        let left = fl.sub m.maintenance_left_s dt in
        if fl.lt (fl.of_ℕ 0) left
        then record m { maintenance_left_s = left }
        else record m { maintenance_left_s = left; state = after_maintenance producing }
    update_from _ dt producing m = record m { state = after_maintenance producing }

    -- `_update_state`
    unfoldable pub update_state : fl.F → Bool → Machine fl.F pr.P → Machine fl.F pr.P
    unfolding update_from
    update_state dt producing m = update_from m.state dt producing m

    -- `load` and `speed`
    unfoldable pub per_unit : State → fl.F → fl.F
    unfolding is_running
    per_unit state pct = if is_running state then fl.div pct (fl.of_ℕ 100) else fl.of_ℕ 0

    -- `_degrade`, at the actual conditions
    unfoldable pub degraded :
        fl.F
        → fl.F
        → fl.F
        → (String → Option fl.F)
        → (String → pr.Draw)
        → List (Component fl.F pr.P)
        → List (Component fl.F pr.P)
    degraded dt load speed temp draw [] = []
    degraded dt load speed temp draw (c ∷ l) =
        record c {
          process = elim c.process [
            | none ↦ none
            | some p ↦ some (
                pr.step dt (record { load = load; speed = speed; temp_c = temp c.code })
                  (draw c.code) p)
          ];
        }
        ∷ degraded dt load speed temp draw l

    unfoldable pub degrade :
        fl.F → (String → Option fl.F) → (String → pr.Draw) → Machine fl.F pr.P → Machine fl.F pr.P
    unfolding degraded per_unit
    degrade dt temp draw m = record m {
      components =
          degraded dt (per_unit m.state m.load_pct) (per_unit m.state m.speed_setpoint_pct) temp
            draw m.components;
    }

    unfoldable pub is_manual : Machine fl.F pr.P → Bool
    is_manual m = elim m.load_setpoint_pct [ none ↦ false | some l ↦ true ]

    unfoldable pub target_of : OperatingContext fl.F → Machine fl.F pr.P → fl.F
    target_of ctx m = elim m.load_setpoint_pct [ none ↦ ctx.plan_load_pct | some l ↦ l ]

    -- the load and the wear of a step, after the state was updated
    unfoldable pub operate :
        (fl.F → fl.F)
        → fl.F
        → fl.F
        → Bool
        → Bool
        → fl.F
        → (String → Option fl.F)
        → (String → pr.Draw)
        → Machine fl.F pr.P
        → Machine fl.F pr.P
    unfolding is_running follow_plan refresh_damage degrade
    operate exp dt target manual was_running normal temp draw m =
        if is_running m.state
        then refresh_damage (
            degrade dt temp draw (record m {
              operating_load_pct = target;
              load_pct =
                  follow_plan exp (if was_running then m.load_pct else target) target dt normal
                    (not manual);
            }))
        else record m { load_pct = fl.of_ℕ 0 }

    -- `step`
    unfoldable pub step :
        (fl.F → fl.F)
        → fl.F
        → OperatingContext fl.F
        → fl.F
        → (String → Option fl.F)
        → (String → pr.Draw)
        → Machine fl.F pr.P
        → Machine fl.F pr.P
    unfolding update_state operate check_failures is_manual target_of is_running
    step exp dt ctx normal temp draw m = check_failures (
        operate exp dt (target_of ctx m) (is_manual m) (is_running m.state) normal temp draw (
          update_state dt (ctx.producing && fl.lt (fl.of_ℕ 0) (target_of ctx m))
            (record m { now_s = ctx.now_s })))
