-- ===== src/Tests/Voice.antt =====
-- The theorems on apps/api/app/modules/voice at concrete inputs.
use text.Mathlib.Text.{◌==◌ as str_eq}
use digital_twin.Prelude.{ℕ, ◌+◌, ◌≤◌, true, false, none, some, List, [], ◌∷◌, ◌≡◌, ◌⊎◌, ◌==◌}
use digital_twin.Telemetry.Alarms.{active}
use digital_twin.Voice.Actions.{
  returned, crashed, Setup, Store, Request, say_confirm, say_cancel, find, confirm,
}
use digital_twin.Voice.Validation.{World, Params, VoiceAction, t2, t3, pending}
use digital_twin.Voice.Actions.Guards.{MayRun, confirm-MayRun}
use digital_twin.Voice.Actions.Once.{
  Event, reading_back, confirming, cancelling, saying, expiring, new_store, run, runs,
  tools_run_at_most_once,
}

abbrev setup : Setup
setup = record { allow_t3 = true; verify = λ sub pin. str_eq pin "4711" }

abbrev world : World
world = record {
  asset_registered = λ i. i == 3;
  technician_registered = λ i. true;
  windows = λ i. [];
  alarm_status = λ i. some active;
}

abbrev params : Params
params = record {
  asset_id = some 3;
  when = none;
  planned_start = none;
  technician_id = none;
  alarm_id = none;
}

abbrev waiting : Store
waiting = record {
  actions =
      record {
        id = 0;
        session_id = 9;
        tool = "set_simulation_scenario";
        params = params;
        tier = t3;
        status = pending;
        second_factor_ok = none;
        expires_at = some 10000100;
        created_at = 100;
      }
      ∷ [];
  next_id = 1;
  audit = [];
  ran = [];
  repeatable = [];
}

confirm-MayRun_example :
    ((confirm setup world "op" 0 (some "4711") 500 returned waiting).0.ran ≡ [])
    ⊎ ((a : VoiceAction) × (find 0 waiting.actions ≡ some a)
        × ((confirm setup world "op" 0 (some "4711") 500 returned waiting).0.ran ≡ a.id ∷ [])
        × MayRun setup world "op" (some "4711") 500 a)
confirm-MayRun_example = confirm-MayRun setup world "op" (some "4711") 500 returned 0 waiting

abbrev request : Request
request = record { session_id = 9; tool = "create_work_order"; params = params; tier = t2 }

abbrev events : List (Event × ℕ × World)
events =
    (reading_back request, 100, world)
    ∷ (saying "op" 9 say_confirm (crashed false), 200, world)
    ∷ (confirming "op" 0 none returned, 300, world)
    ∷ (reading_back request, 400, world)
    ∷ (saying "op" 9 say_cancel returned, 500, world)
    ∷ (cancelling 1, 600, world)
    ∷ (expiring, 700, world)
    ∷ []

tools_run_at_most_once_example :
    runs 0 (run setup events new_store).ran ≤ 1 + runs 0 (run setup events new_store).repeatable
tools_run_at_most_once_example = tools_run_at_most_once setup events 0
