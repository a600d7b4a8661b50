-- ===== src/Maintenance/Schedule/Horizon.antt =====
-- Every item of a schedule stays inside the horizon of its schedule.
use digital_twin.Prelude.{
  ℕ, suc, ◌+◌, ◌<◌, ◌≤◌, Option, ◌≡◌, refl, arith, Bool, true, false, not, some, List, [], ◌∷◌,
  ◌++◌, ◌==◌, ◌&&◌, is_empty, if◌then◌else◌, All,
}
use digital_twin.Prelude.Result.{Result, ok, err}
use digital_twin.Maintenance.Availability.{slot_time, slot_count, slot_length}
use digital_twin.Maintenance.Solver.{
  OrderInput, TechnicianInput, Values, solve, solve-Fits, IsInDomain,
}
use digital_twin.Maintenance.Schedule.{
  Schedule, ScheduleItem, Db, ScheduleItemPatch, Assignment, OptimiseRequest, find_schedule,
  activate, items_of, item_of, count, optimise, patch_item,
}
use digital_twin.Maintenance.Schedule.Moves.{
  InHorizon, IsPlanned, All-map, All-append, find-activate, find-append, find-fresh, InHorizon-kept,
  IsFeasible, patch_item-IsPlanned,
}

-- the items of feasible assignments lie inside the horizon
items_of-InHorizon :
    (r : OptimiseRequest) (s : Schedule) (l : List Schedule) (i : ℕ) (xs : List Assignment)
    → find_schedule s.id l ≡ some s
    → s.horizon_start ≡ r.horizon_start
    → s.horizon_end ≡ r.horizon_end
    → IsFeasible r xs
    → All (InHorizon l) (items_of r s.id i xs)
unfolding items_of InHorizon item_of IsFeasible slot_time slot_count
items_of-InHorizon r s l i [] found a b h = tt
items_of-InHorizon r s l i (x ∷ xs) found a b (w, ((p, q), h)) = (
  (s, found, omega (arith, a), omega (arith, p), omega (arith, p, q, w, b)),
  items_of-InHorizon r s l (suc i) xs found a b (w, h),
)

-- the schedule that `optimise` adds, before it is activated
unfoldable pub fresh_schedule : OptimiseRequest → ℕ → Schedule
fresh_schedule r i = record {
  id = i;
  horizon_start = r.horizon_start;
  horizon_end = r.horizon_end;
  is_active = false;
}

unfoldable pub activated : Bool → ℕ → List Schedule → List Schedule
activated b i l = if b then activate i l else l

find-activated :
    (b : Bool) (i j : ℕ) (s : Schedule) (l : List Schedule)
    → find_schedule i l ≡ some s
    → (t : Schedule) × (find_schedule i (activated b j l) ≡ some t)
      × (t.horizon_start ≡ s.horizon_start)
      × (t.horizon_end ≡ s.horizon_end)
unfolding activated
find-activated true i j s l h =
    (record s { is_active = s.id == j }, find-activate i j s l h, refl, refl)
find-activated false i j s l h = (s, h, refl, refl)

ids-activated :
    (n : ℕ) (b : Bool) (j : ℕ) (l : List Schedule)
    → All (λ s. s.id < n) l
    → All (λ s. s.id < n) (activated b j l)
unfolding activated activate
ids-activated n false j l h = h
ids-activated n true j [] h = tt
ids-activated n true j (s ∷ l) (p, h) = (p, ids-activated n true j l h)

optimise-IsPlanned :
    (r : OptimiseRequest) (xs : List Assignment) (db : Db)
    → IsFeasible r xs
    → IsPlanned db
    → IsPlanned (optimise r xs db)
unfolding optimise activated fresh_schedule
optimise-IsPlanned r xs db f p =
    let s : Schedule = fresh_schedule r db.next_id in
    let l : List Schedule = db.schedules ++ s ∷ [] in
    let b : Bool = r.activate && not (is_empty xs) in
    let n : ℕ = suc db.next_id + count xs in
    let old : All (λ t. t.id < n) db.schedules =
      All-map (λ t. t.id < db.next_id) (λ t. t.id < n) (λ t q. omega (arith, q)) db.schedules
        p.ids in
    let found : find_schedule db.next_id l ≡ some s =
      find-fresh db.next_id s db.schedules refl p.ids in
    let into : (x : ScheduleItem) → InHorizon l x → InHorizon (activated b db.next_id l) x =
      InHorizon-kept l (activated b db.next_id l) (λ i t h. find-activated b i db.next_id t l h) in
    let before : (x : ScheduleItem) → InHorizon db.schedules x → InHorizon l x =
      InHorizon-kept db.schedules l
        (λ i t h. (t, find-append i t db.schedules (s ∷ []) h, refl, refl)) in
    record {
      ids =
          ids-activated n b db.next_id l
            (All-append (λ t. t.id < n) db.schedules (s ∷ []) old (omega arith, tt));
      items =
          All-map (InHorizon l) (InHorizon (activated b db.next_id l)) into
            (db.items ++ items_of r db.next_id (suc db.next_id) xs)
            (All-append (InHorizon l) db.items (items_of r db.next_id (suc db.next_id) xs)
              (All-map (InHorizon db.schedules) (InHorizon l) before db.items p.items)
              (items_of-InHorizon r s l (suc db.next_id) xs found refl refl f));
    }

pub data Request : Type 0 where
  -- with the inputs of the solver and its answer
  optimising : OptimiseRequest → List OrderInput → List TechnicianInput → Option Values → Request
  patching : ℕ → ℕ → ScheduleItemPatch → Request

unfoldable pub kept : Result Db → Db → Db
kept (ok db') db = db'
kept (err problem) db = db

-- `solve` as `optimise` calls it
unfoldable pub planned_by :
    OptimiseRequest → List OrderInput → List TechnicianInput → Option Values → List Assignment
unfolding slot_count solve
planned_by r orders technicians answer =
    solve answer orders technicians (slot_count r.horizon_start r.horizon_end)

-- a request that raises leaves the tables as they were
unfoldable pub step : (ℕ → Bool) → Request → Db → Db
unfolding kept planned_by
step known (optimising r orders technicians answer) db =
    optimise r (planned_by r orders technicians answer) db
step known (patching schedule_id i d) db = kept (patch_item known schedule_id i d db) db

unfoldable pub run : (ℕ → Bool) → List Request → Db → Db
run known [] db = db
run known (q ∷ l) db = run known l (step known q db)

-- the horizon has room for a slot, and the solver keeps to the domains of its variables
unfoldable pub IsSolved : Request → Type 0
IsSolved (optimising r orders technicians answer) =
    (r.horizon_start + slot_length ≤ r.horizon_end)
    × IsInDomain (slot_count r.horizon_start r.horizon_end) orders answer
IsSolved (patching schedule_id i d) = Unit

pub kept_lem :
    (P : Db → Type 0) (m : Result Db) (db : Db)
    → P db
    → ((db' : Db) → m ≡ ok db' → P db')
    → P (kept m db)
unfolding kept
kept_lem P (ok db') db p h = h db' refl
kept_lem P (err problem) db p h = p

step-IsPlanned :
    (known : ℕ → Bool) (q : Request) (db : Db)
    → IsSolved q
    → IsPlanned db
    → IsPlanned (step known q db)
unfolding step IsSolved planned_by IsFeasible
step-IsPlanned known (optimising r orders technicians answer) db (room, f) p =
    optimise-IsPlanned r (planned_by r orders technicians answer) db
      (room, solve-Fits (slot_count r.horizon_start r.horizon_end) answer orders technicians f) p
step-IsPlanned known (patching sid i d) db f p =
    kept_lem IsPlanned (patch_item known sid i d db) db p
      (λ db' h. patch_item-IsPlanned known sid i d db db' h p)

pub items_in_horizon :
    (known : ℕ → Bool) (l : List Request) (db : Db)
    → All IsSolved l
    → IsPlanned db
    → IsPlanned (run known l db)
unfolding run
items_in_horizon known [] db h p = p
items_in_horizon known (q ∷ l) db (f, h) p =
    items_in_horizon known l (step known q db) h (step-IsPlanned known q db f p)
