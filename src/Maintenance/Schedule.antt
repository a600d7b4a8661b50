-- ===== src/Maintenance/Schedule.antt =====
-- apps/api/app/modules/maintenance/service.py: `ScheduleService.optimise` after the solver's answer,
-- and `patch_item`, with the methods of `ScheduleRepository` that they call. Times are in
-- microseconds, ids are numbers, and a new row takes the next one. Risks, energy, the objective and
-- the audit are not modelled; the assignments of `solve` are an argument, which Horizon fills. A session that raises is
-- rolled back, so an error leaves the tables as they were.
pub mod Moves
pub mod Horizon
pub mod Active
use digital_twin.Prelude.{
  ℕ, suc, ◌+◌, ◌-◌, Bool, true, false, not, Option, none, some, List, [], ◌∷◌, ◌++◌, leb, ◌==◌,
  ◌&&◌, ◌||◌, is_empty, if◌then◌else◌,
}
use digital_twin.Prelude.Result.{Result, ok, err, not_found, unprocessable, ◌>>=◌}
use digital_twin.Maintenance.WorkOrders.{
  WorkOrder, Status, open_status, scheduled, find, save, or_else,
}
use digital_twin.Maintenance.Availability.{slot_time}

pub record Schedule : Type 0 where
  pub id : ℕ
  pub horizon_start : ℕ
  pub horizon_end : ℕ
  pub is_active : Bool

pub record ScheduleItem : Type 0 where
  pub id : ℕ
  pub schedule_id : ℕ
  pub work_order_id : ℕ
  pub technician_id : Option ℕ
  pub starts_at : ℕ
  pub ends_at : ℕ
  pub manually_adjusted : Bool

pub record Db : Type 0 where
  pub schedules : List Schedule
  pub items : List ScheduleItem
  pub orders : List WorkOrder
  pub next_id : ℕ

pub record ScheduleItemPatch : Type 0 where
  pub starts_at : Option ℕ
  pub ends_at : Option ℕ
  pub technician_id : Option ℕ

-- an assignment of the solver; `order_id` is the id of an order that it was given
pub record Assignment : Type 0 where
  pub order_id : ℕ
  pub technician_id : Option ℕ
  pub start_slot : ℕ
  pub end_slot : ℕ

pub record OptimiseRequest : Type 0 where
  pub horizon_start : ℕ
  pub horizon_end : ℕ
  pub activate : Bool

-- `session.get(Schedule, id)`
unfoldable pub find_schedule : ℕ → List Schedule → Option Schedule
find_schedule i [] = none
find_schedule i (s ∷ l) = if s.id == i then some s else find_schedule i l

unfoldable pub find_item : ℕ → List ScheduleItem → Option ScheduleItem
find_item i [] = none
find_item i (x ∷ l) = if x.id == i then some x else find_item i l

unfoldable pub save_item : ScheduleItem → List ScheduleItem → List ScheduleItem
save_item x [] = []
save_item x (y ∷ l) = if y.id == x.id then x ∷ l else y ∷ save_item x l

-- `ScheduleRepository.activate`
unfoldable pub activate : ℕ → List Schedule → List Schedule
activate i [] = []
activate i (s ∷ l) = record s { is_active = s.id == i } ∷ activate i l

-- the times and the technician that an order takes from its item
unfoldable pub planned : ScheduleItem → WorkOrder → WorkOrder
planned x o = record o {
  planned_start = some x.starts_at;
  planned_end = some x.ends_at;
  technician_id = x.technician_id;
}

unfoldable pub is_open : Status → Bool
is_open open_status = true
is_open _ = false

-- the item of an assignment
unfoldable pub item_of : OptimiseRequest → ℕ → ℕ → Assignment → ScheduleItem
unfolding slot_time
item_of r schedule_id i a = record {
  id = i;
  schedule_id = schedule_id;
  work_order_id = a.order_id;
  technician_id = a.technician_id;
  starts_at = slot_time r.horizon_start a.start_slot;
  ends_at = slot_time r.horizon_start a.end_slot;
  manually_adjusted = false;
}

unfoldable pub items_of : OptimiseRequest → ℕ → ℕ → List Assignment → List ScheduleItem
unfolding item_of
items_of r schedule_id i [] = []
items_of r schedule_id i (a ∷ l) = item_of r schedule_id i a ∷ items_of r schedule_id (suc i) l

-- an open order becomes scheduled
unfoldable pub placed : ScheduleItem → WorkOrder → WorkOrder
unfolding planned is_open
placed x o = record (planned x o) { status = if is_open o.status then scheduled else o.status }

unfoldable pub place : ScheduleItem → List WorkOrder → List WorkOrder
place x orders = elim (find x.work_order_id orders) [
  | none ↦ orders
  | some o ↦ save (placed x o) orders
]

unfoldable pub place_all : List ScheduleItem → List WorkOrder → List WorkOrder
unfolding place
place_all [] orders = orders
place_all (x ∷ l) orders = place_all l (place x orders)

unfoldable pub count : {A : Type 0} → List A → ℕ
count [] = 0
count (x ∷ l) = suc (count l)

-- `optimise`, from the solver's assignments on
unfoldable pub optimise : OptimiseRequest → List Assignment → Db → Db
unfolding items_of place_all activate count
optimise r assignments db =
    let schedule : Schedule = record {
      id = db.next_id;
      horizon_start = r.horizon_start;
      horizon_end = r.horizon_end;
      is_active = false;
    } in
    let items = items_of r db.next_id (suc db.next_id) assignments in
    record {
      schedules =
          if r.activate && not (is_empty assignments)
          then activate db.next_id (db.schedules ++ schedule ∷ [])
          else db.schedules ++ schedule ∷ [];
      items = db.items ++ items;
      orders = place_all items db.orders;
      next_id = suc db.next_id + count assignments;
    }

-- data.starts_at or item.starts_at
unfoldable pub new_start : ScheduleItemPatch → ScheduleItem → ℕ
new_start d x = elim d.starts_at [ none ↦ x.starts_at | some t ↦ t ]

unfoldable pub end_from : Option ℕ → Option ℕ → ScheduleItem → ℕ
end_from none none x = x.ends_at
end_from (some s) none x = s + (x.ends_at - x.starts_at)
end_from start (some e) x = e

-- a move keeps the length unless the end is given as well
unfoldable pub new_end : ScheduleItemPatch → ScheduleItem → ℕ
unfolding end_from
new_end d x = end_from d.starts_at d.ends_at x

unfoldable pub adjusted : ScheduleItemPatch → ScheduleItem → ScheduleItem
unfolding new_start new_end
adjusted d x = record x {
  starts_at = new_start d x;
  ends_at = new_end d x;
  technician_id = or_else d.technician_id x.technician_id;
  manually_adjusted = true;
}

unfoldable pub is_stranger : (ℕ → Bool) → Option ℕ → Bool
is_stranger known none = false
is_stranger known (some t) = not (known t)

-- the checks on the new times and the technician, in their order
unfoldable pub checked_patch :
    (ℕ → Bool) → Schedule → ScheduleItemPatch → ScheduleItem → Result ScheduleItem
unfolding adjusted is_stranger new_start new_end
checked_patch known s d x =
    if leb (new_end d x) (new_start d x)
    then err unprocessable
    else if not (leb s.horizon_start (new_start d x) && leb (new_end d x) s.horizon_end)
    then err unprocessable
    else if is_stranger known d.technician_id
    then err not_found
    else ok (adjusted d x)

unfoldable pub schedule_or_404 : ℕ → Db → Result Schedule
unfolding find_schedule
schedule_or_404 i db = elim (find_schedule i db.schedules) [ none ↦ err not_found | some s ↦ ok s ]

-- the item, if it is one of the schedule
unfoldable pub item_or_404 : ℕ → ℕ → Db → Result ScheduleItem
unfolding find_item
item_or_404 schedule_id i db = elim (find_item i db.items) [
  | none ↦ err not_found
  | some x ↦ if x.schedule_id == schedule_id then ok x else err not_found
]

unfoldable pub replan : ScheduleItem → List WorkOrder → List WorkOrder
replan x orders = elim (find x.work_order_id orders) [
  | none ↦ orders
  | some o ↦ save (planned x o) orders
]

unfoldable pub moved : ScheduleItem → Db → Db
unfolding save_item replan
moved x db = record db { items = save_item x db.items; orders = replan x db.orders }

unfoldable pub patch_item : (ℕ → Bool) → ℕ → ℕ → ScheduleItemPatch → Db → Result Db
unfolding schedule_or_404 item_or_404 checked_patch moved
patch_item known schedule_id i d db = do
  s ← schedule_or_404 schedule_id db
  x ← item_or_404 schedule_id i db
  x' ← checked_patch known s d x
  ok (moved x' db)
