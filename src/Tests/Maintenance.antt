-- ===== src/Tests/Maintenance.antt =====
-- The theorems on apps/api/app/modules/maintenance at concrete inputs.
use text.Mathlib.Text.{◌==◌ as str_eq}
use digital_twin.Prelude.{
  ℕ, String, Bool, true, false, not, is_empty, All, ◌&&◌, ◌||◌, Option, none, some, List, [], ◌∷◌,
  ◌≡◌, ◌==◌, refl, arith, if◌then◌else◌,
}
use digital_twin.Prelude.Result.{ok}
use digital_twin.Maintenance.Conflicts.{Assignment, order_by_start, conflicts}
use digital_twin.Maintenance.Conflicts.Pairs.{all_pairs, conflicts_lem}
use digital_twin.Maintenance.WorkOrders.{
  WorkOrder, WorkOrderUpdate, WorkOrderClose, Db, Status, scheduled, closed, set, unset, reply,
  is_terminal, is_rejection, find, get_or_404, save, written, closed_order, resets, checked_close,
  close_order, close_entry,
}
use digital_twin.Maintenance.WorkOrders.Final.{
  close_order-closes, updating, closing, run, terminal_is_final,
}
use digital_twin.Maintenance.Availability.{
  Window, available, training, availability, slot_time, slot_count, available_slots, is_available,
}
use digital_twin.Maintenance.Availability.Slots.{working, away, is_available-available_slots}
use digital_twin.Maintenance.Schedule
use digital_twin.Maintenance.Schedule.{
  Schedule, ScheduleItem, OptimiseRequest, ScheduleItemPatch, find_schedule, find_item, patch_item,
  schedule_or_404, item_or_404, checked_patch, new_start, new_end, end_from, is_stranger, moved,
  adjusted, planned,
}
use digital_twin.Maintenance.Schedule.Moves.{InHorizon, IsPlanned}
use digital_twin.Maintenance.Solver.{IsInDomain}
use digital_twin.Maintenance.Schedule.Horizon
use digital_twin.Maintenance.Schedule.Horizon.{optimising, patching, IsSolved}
use digital_twin.Maintenance.Schedule.Active.{OneActive, plans_stay_valid, patch_item-rows}

abbrev assignment : String → ℕ → ℕ → Assignment
assignment i s e = record {
  order_id = i;
  technician_id = some "anna";
  start_slot = s;
  end_slot = e;
}

abbrev plan : List Assignment
plan = assignment "c" 9 12 ∷ assignment "a" 0 4 ∷ assignment "b" 3 8 ∷ []

abbrev line_of : String → Option String
line_of i = if str_eq i "a" then some "line 1" else none

conflicts_lem_example : conflicts line_of plan ≡ all_pairs line_of (order_by_start plan)
conflicts_lem_example = conflicts_lem line_of plan (omega arith, (omega arith, (omega arith, tt)))

abbrev order : Status → WorkOrder
order s = record {
  id = 4;
  asset_id = 3;
  component_id = none;
  title = "bearing";
  status = s;
  planned_start = some 100;
  planned_end = some 200;
  actual_start = none;
  actual_end = none;
  technician_id = none;
  outcome = none;
  prediction_was_correct = none;
}

abbrev db : Status → Db
db s = record { orders = order s ∷ []; audit = [] }

abbrev closure : WorkOrderClose
closure = record {
  outcome = "replaced";
  actual_start = none;
  actual_end = none;
  prediction_was_correct = some true;
  reset_damage = true;
}

abbrev asset_known : ℕ → Bool
asset_known i = i == 3

abbrev done_order : WorkOrder
done_order = record {
  id = 4;
  asset_id = 3;
  component_id = none;
  title = "bearing";
  status = closed;
  planned_start = some 100;
  planned_end = some 200;
  actual_start = some 100;
  actual_end = some 300;
  technician_id = none;
  outcome = some "replaced";
  prediction_was_correct = some true;
}

abbrev done_db : Db
done_db = record { orders = done_order ∷ []; audit = (close_entry, 4) ∷ [] }

closing_succeeds :
    close_order true asset_known (reply (some "accepted")) 4 closure 300 (db scheduled) ≡ ok done_db
unfolding close_order get_or_404 find save written checked_close closed_order resets is_rejection
closing_succeeds = refl

close_order-closes_example :
    (o : WorkOrder) × (find 4 (db scheduled).orders ≡ some o)
    × (is_terminal o.status ≡ false)
    × (resets true asset_known closure o ≡ true → is_rejection (reply (some "accepted")) ≡ false)
    × ((j : ℕ)
        → find j done_db.orders
          ≡ (if 4 == j then some (closed_order closure 300 o) else find j (db scheduled).orders))
close_order-closes_example =
    close_order-closes true asset_known (reply (some "accepted")) 4 closure 300 (db scheduled)
      done_db closing_succeeds

abbrev change : WorkOrderUpdate
change = record {
  title = set "gear";
  status = unset;
  planned_start = unset;
  planned_end = unset;
  technician_id = unset;
}

order_found : find 4 (db closed).orders ≡ some (order closed)
unfolding find
order_found = refl

terminal_is_final_example :
    find 4
      (run true asset_known asset_known
        (updating 4 change ∷ closing 4 closure (reply none) 400 ∷ [])
        (db closed)).orders
    ≡ some (order closed)
terminal_is_final_example =
    terminal_is_final true asset_known asset_known
      (updating 4 change ∷ closing 4 closure (reply none) 400 ∷ []) (db closed) 4 (order closed)
      order_found refl

-- two slots: the first is covered, the second is a training
abbrev week : List Window
week =
    record { kind = training; starts_at = 900000000; ends_at = 1000000000 }
    ∷ record { kind = available; starts_at = 0; ends_at = 5000000000 }
    ∷ []

is_available-available_slots_example : is_available (available_slots week 0 3) 1 ≡ (
    is_empty (availability week 0 (slot_time 0 3))
    || (not (away (availability week 0 (slot_time 0 3)) (slot_time 0 1))
        && working (availability week 0 (slot_time 0 3)) (slot_time 0 1)))
is_available-available_slots_example = is_available-available_slots week 0 3 1 (omega arith)

abbrev schedule : Schedule
schedule = record { id = 1; horizon_start = 0; horizon_end = 9000000000; is_active = true }

abbrev item : ScheduleItem
item = record {
  id = 2;
  schedule_id = 1;
  work_order_id = 4;
  technician_id = none;
  starts_at = 900000000;
  ends_at = 2700000000;
  manually_adjusted = false;
}

abbrev tables : Schedule.Db
tables = record {
  schedules = schedule ∷ [];
  items = item ∷ [];
  orders = order scheduled ∷ [];
  next_id = 3;
}

abbrev request : OptimiseRequest
request = record { horizon_start = 0; horizon_end = 1800000000; activate = true }

abbrev shift_by_one : ScheduleItemPatch
shift_by_one = record { starts_at = some 1800000000; ends_at = none; technician_id = some 8 }

abbrev requests : List Horizon.Request
requests =
    optimising request (record { id = 4; duration_min = 25; required_skills = 1 ∷ [] } ∷ [])
      (record { id = 8; skills = 1 ∷ [] } ∷ [])
      (some (record { start = λ o. 0; assign = λ o t. true }))
    ∷ patching 1 2 shift_by_one
    ∷ []

abbrev technician_known : ℕ → Bool
technician_known i = i == 8

tables-IsPlanned : IsPlanned tables
unfolding InHorizon find_schedule
tables-IsPlanned = record {
  ids = (omega arith, tt);
  items = ((schedule, refl, omega arith, omega arith, omega arith), tt);
}

requests-IsSolved : All IsSolved requests
unfolding IsSolved IsInDomain slot_count
requests-IsSolved = ((omega arith, ((λ h. omega arith), tt)), (tt, tt))

tables-OneActive : OneActive tables.schedules
unfolding OneActive
tables-OneActive = (1, ((λ h. refl), tt))

plans_stay_valid_example :
    IsPlanned (Horizon.run technician_known requests tables)
    × OneActive (Horizon.run technician_known requests tables).schedules
plans_stay_valid_example =
    plans_stay_valid technician_known requests tables requests-IsSolved tables-IsPlanned
      tables-OneActive

patched :
    patch_item technician_known 1 2 shift_by_one tables
    ≡ ok (moved (adjusted shift_by_one item) tables)
unfolding patch_item schedule_or_404 item_or_404 find_schedule find_item checked_patch new_start
    new_end end_from is_stranger
patched = refl

patch_item-rows_example :
    (x : ScheduleItem) × (find_item 2 tables.items ≡ some x)
    × (x.schedule_id ≡ 1)
    × ((j : ℕ)
        → find_item j (moved (adjusted shift_by_one item) tables).items
          ≡ (if 2 == j then some (adjusted shift_by_one x) else find_item j tables.items))
    × (find x.work_order_id tables.orders ≡ some (order scheduled)
        → (j : ℕ)
        → find j (moved (adjusted shift_by_one item) tables).orders ≡ (
            if x.work_order_id == j
            then some (planned (adjusted shift_by_one x) (order scheduled))
            else find j tables.orders))
patch_item-rows_example =
    patch_item-rows technician_known 1 2 shift_by_one tables
      (moved (adjusted shift_by_one item) tables) (order scheduled) patched
