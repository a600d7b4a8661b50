-- ===== src/Tests/Simulator.antt =====
-- The theorems on apps/simulator at concrete inputs.
use digital_twin.Prelude.{
  ℕ, String, Bool, true, false, Option, none, some, List, [], ◌∷◌, ◌≡◌, ◌⊎◌, ◌-◌, refl, arith, All,
}
use digital_twin.Prelude.Floats.{whole}
use digital_twin.Simulator.Machine.{
  Process, Machine, State, running, down, maintenance, OperatingContext, is_down, step,
  update_state, update_from, operate, check_failures, first_failed, has_failed, fail_first,
  is_running, target_of, is_manual,
}
use digital_twin.Simulator.Machine.Service.{
  stepped, load_set, speed_set, was_reset, run as run_machine, reset, reset_components, is_chosen,
}
use digital_twin.Simulator.Machine.Failures.{NoneFailed, step-NoneFailed, IsOrdinary}
use digital_twin.Simulator.Machine.Load.{
  InRange, Bounds, IsInRange, HasSetpoint, IsChecked, load-InRange,
}
use digital_twin.Simulator.Machine.Repair.{is_maintenance, left_after, IsWithin, maintenance_ends}
use digital_twin.Simulator.Wear.{Wiener, Degradation, wiener, process}
use digital_twin.Simulator.Commands.{
  leaf, string, number, object, Payload, fields, Engine, handle_command,
}
use digital_twin.Simulator.Commands.Answer.{Answer, IsUncaught, handle_command-ack}
use digital_twin.Simulator.Commands.Safety.{IsSafe}
use digital_twin.Simulator.EdgeNode.{MetricDef, Reading, Metric, late, new_node}
use digital_twin.Simulator.EdgeNode.Session.{Tracks, messages_follow_the_rules}
use digital_twin.Simulator.EdgeNode.Traffic.{
  Host, waiting, in_session_after, hear_all, Action, adding, reading, publishing, connected,
  disconnected, asked, run,
}

abbrev defs : List MetricDef
defs = record { name = "temp"; datatype = 10; unit = "C" } ∷ []

abbrev warm : Reading ℕ
warm = record { values = λ n. some 40; jitter_ms = λ n. some (late 3) }

abbrev actions : List (Action ℕ × ℕ)
actions =
    (adding "press" defs, 1000)
    ∷ (reading "press" warm, 1001)
    ∷ (connected false, 1002)
    ∷ (publishing "press" warm, 1003)
    ∷ (disconnected, 1004)
    ∷ (publishing "press" warm, 1005)
    ∷ (connected false, 1006)
    ∷ (asked true, 1007)
    ∷ []

abbrev all : List (Metric ℕ) → Bool
all ms = true

messages_follow_the_rules_example :
    (h : Host) × (hear_all (some waiting) (run all actions new_node).wire ≡ some h)
    × Tracks h (in_session_after actions false) (run all actions new_node)
    × ((run all actions new_node).will ≡ (run all actions new_node).bd_seq)
messages_follow_the_rules_example = messages_follow_the_rules all (λ ms. refl) actions

abbrev pow : ℕ → ℕ → ℕ
pow a b = a

abbrev same : ℕ → ℕ
same a = a

abbrev fatigue : Process ℕ
fatigue = process whole pow same (wiener whole pow same)

abbrev level_at : ℕ → Bool → Degradation ℕ (Wiener ℕ)
level_at x b = record {
  arrhenius = none;
  rate_multiplier = 1;
  state = record { drift = 1; diffusion = 0; load_exp = 1; speed_exp = 1; level = x; failed = b };
}

abbrev press : State → ℕ → Bool → Machine ℕ (Degradation ℕ (Wiener ℕ))
press s load b = record {
  components =
      record {
        code = "seal";
        failure_mode = some "leak";
        process = some (level_at 0 b);
        active_modes = [];
      }
      ∷ [];
  state = s;
  load_pct = load;
  speed_setpoint_pct = 100;
  load_setpoint_pct = some 80;
  now_s = 0;
  maintenance_duration_s = 5;
  maintenance_left_s = 5;
  failed_component = none;
  operating_load_pct = 80;
  damage = [];
}

abbrev shift : OperatingContext ℕ
shift = record { now_s = 10; producing = true; plan_load_pct = 90 }

abbrev cold : String → Option ℕ
cold n = none

abbrev draws : String → ℕ
draws n = 0

-- a maintenance that goes on
still_up :
    is_down (step whole fatigue same 2 shift 0 cold draws (press maintenance 0 false)).state ≡ false
unfolding step update_state update_from operate check_failures first_failed has_failed fail_first
    is_down is_running target_of is_manual
still_up = refl

step-NoneFailed_example :
    NoneFailed whole fatigue
      (step whole fatigue same 2 shift 0 cold draws (press maintenance 0 false)).components
step-NoneFailed_example =
    step-NoneFailed whole fatigue same 2 shift 0 cold draws (press maintenance 0 false) still_up

ordinary :
    All (IsOrdinary whole fatigue) (stepped 2 shift 0 cold draws ∷ load_set 50 ∷ speed_set 60 ∷ [])
unfolding IsOrdinary
ordinary = (tt, (tt, (tt, tt)))

bounds : Bounds whole
bounds = record { low = refl; high = refl; order = refl }

checked :
    All
      (IsChecked whole bounds fatigue)
      (load_set 50 ∷ stepped 2 shift 0 cold draws ∷ was_reset none ∷ [])
unfolding IsChecked InRange
checked = ((refl, refl), (tt, (tt, tt)))

press-IsInRange : IsInRange whole bounds fatigue (press running 80 false)
unfolding InRange HasSetpoint
press-IsInRange = record { load = (refl, refl); setpoint = (refl, refl) }

load-InRange_example :
    InRange whole
      (run_machine whole fatigue same
        (load_set 50 ∷ stepped 2 shift 0 cold draws ∷ was_reset none ∷ [])
        (press running 80 false)).load_pct
load-InRange_example =
    load-InRange whole bounds fatigue same
      (load_set 50 ∷ stepped 2 shift 0 cold draws ∷ was_reset none ∷ []) (press running 80 false)
      checked press-IsInRange

within : IsWithin whole fatigue 5 (stepped 2 shift 0 cold draws ∷ stepped 2 shift 0 cold draws ∷ [])
unfolding IsWithin
within = (refl, (refl, tt))

maintenance_ends_example :
    ((run_machine whole fatigue same
        (stepped 2 shift 0 cold draws ∷ stepped 2 shift 0 cold draws ∷ [])
        (reset whole fatigue none (press down 0 true))).state
      ≡ maintenance)
    × ((dt : ℕ) (ctx : OperatingContext ℕ) (normal : ℕ) (temp : String → Option ℕ)
          (draw : String → ℕ)
        → whole.lt 0 (
            left_after whole fatigue 5
              (stepped 2 shift 0 cold draws ∷ stepped 2 shift 0 cold draws ∷ [])
            - dt)
          ≡ false
        → is_maintenance
            (step whole fatigue same dt ctx normal temp draw (
              run_machine whole fatigue same
                (stepped 2 shift 0 cold draws ∷ stepped 2 shift 0 cold draws ∷ [])
                (reset whole fatigue none (press down 0 true)))).state
          ≡ false)
unfolding first_failed has_failed reset_components is_chosen
maintenance_ends_example =
    maintenance_ends whole fatigue same
      (stepped 2 shift 0 cold draws ∷ stepped 2 shift 0 cold draws ∷ []) none (press down 0 true)
      refl within

abbrev engine : Engine ℕ (Degradation ℕ (Wiener ℕ))
engine = record { machines = ("press", press running 80 false) ∷ []; log = [] }

abbrev set_load_50 : Payload ℕ
set_load_50 =
    fields (leaf (string "c1")) (leaf (string "anna")) (object (("load_pct", number 50) ∷ []))

handle_command-ack_example :
    Answer whole fatigue "press" set_load_50 engine
      (handle_command whole fatigue "press" "set_load" set_load_50 engine)
    ⊎ (IsUncaught whole fatigue set_load_50
        × (handle_command whole fatigue "press" "set_load" set_load_50 engine ≡ (engine, none)))
handle_command-ack_example = handle_command-ack whole fatigue "press" "set_load" set_load_50 engine

le_agrees : (a b : ℕ) → whole.le a b ≡ true → whole.lt b a ≡ false
le_agrees a b h = ground arith

engine-IsSafe : IsSafe whole fatigue bounds le_agrees engine
engine-IsSafe = record { machines = (press-IsInRange, tt); log = omega arith }
