-- ===== src/Maintenance/Schedule/Active.antt =====
-- At most one schedule is active, and a manual move carries over to the work order.
use digital_twin.Prelude.{
  ℕ, ◌≡◌, refl, ap, ◌∙◌, arith, Bool, true, not, none, some, List, [], ◌∷◌, ◌++◌, ◌==◌, ◌&&◌,
  ==_iff, is_empty, if◌then◌else◌, All, Bool-cases, inl, inr,
}
use digital_twin.Prelude.Result.{ok}
use digital_twin.Maintenance.Schedule.{
  Schedule, ScheduleItem, Db, ScheduleItemPatch, Assignment, OptimiseRequest, find_item, save_item,
  activate, optimise, adjusted, moved, patch_item, planned, replan,
}
use digital_twin.Maintenance.Schedule.Moves.{IsPlanned, patch_item_lem, All-append}
use digital_twin.Maintenance.Schedule.Horizon.{
  Request, optimising, patching, step, run, kept, kept_lem, planned_by, IsSolved, items_in_horizon,
}
use digital_twin.Maintenance.WorkOrders.{WorkOrder, find, save}
use digital_twin.Maintenance.WorkOrders.Final.{find-save, find-id}

-- every active schedule has the one id
unfoldable pub OneActive : List Schedule → Type 0
OneActive l = (i : ℕ) × All (λ s. s.is_active ≡ true → s.id ≡ i) l

activate-OneActive :
    (i : ℕ) (l : List Schedule) → All (λ s. s.is_active ≡ true → s.id ≡ i) (activate i l)
unfolding activate
activate-OneActive i [] = tt
activate-OneActive i (s ∷ l) = ((λ h. (==_iff s.id i).0 h), activate-OneActive i l)

optimise-OneActive :
    (r : OptimiseRequest) (xs : List Assignment) (db : Db)
    → OneActive db.schedules
    → OneActive (optimise r xs db).schedules
unfolding optimise OneActive
optimise-OneActive r xs db (i, h) = elim (Bool-cases (r.activate && not (is_empty xs))) [
  | inl e ↦ rw e (db.next_id, activate-OneActive db.next_id (db.schedules ++ _ ∷ []))
  | inr e ↦ rw e (
    i,
    All-append (λ s. s.is_active ≡ true → s.id ≡ i) db.schedules (_ ∷ []) h
        ((λ k. absurd (ground (arith, k))), tt),
  )
]

moved-OneActive :
    (x : ScheduleItem) (db : Db) → OneActive db.schedules → OneActive (moved x db).schedules
unfolding moved
moved-OneActive x db p = p

step-OneActive :
    (known : ℕ → Bool) (q : Request) (db : Db)
    → OneActive db.schedules
    → OneActive (step known q db).schedules
unfolding step kept
step-OneActive known (optimising r orders technicians answer) db p =
    optimise-OneActive r (planned_by r orders technicians answer) db p
step-OneActive known (patching sid i d) db p =
    kept_lem (λ t. OneActive t.schedules) (patch_item known sid i d db) db p
      (λ db' h.
        let (s, x, fs, fx, k, c, e) = patch_item_lem known sid i d db db' h in
        let q : OneActive (moved (adjusted d x) db).schedules =
          moved-OneActive (adjusted d x) db p in
        rw e q)

one_active :
    (known : ℕ → Bool) (l : List Request) (db : Db)
    → OneActive db.schedules
    → OneActive (run known l db).schedules
unfolding run
one_active known [] db p = p
one_active known (q ∷ l) db p = one_active known l (step known q db) (step-OneActive known q db p)

-- If every item starts before it ends inside the horizon of its schedule, and all active schedules
-- have one id, then both hold after any optimisations, by `solve` and whatever CP-SAT answers it, and
-- manual moves, given that each horizon to optimise has room for a slot and that CP-SAT's values lie
-- in the domains of their variables.
pub plans_stay_valid :
    (known : ℕ → Bool) (l : List Request) (db : Db)
    → All IsSolved l
    → IsPlanned db
    → OneActive db.schedules
    → IsPlanned (run known l db) × OneActive (run known l db).schedules
plans_stay_valid known l db h p o = (items_in_horizon known l db h p, one_active known l db o)

find_item-id :
    (i : ℕ) (x : ScheduleItem) (l : List ScheduleItem) → find_item i l ≡ some x → x.id ≡ i
unfolding find_item
find_item-id i x [] h = cc
find_item-id i x (y ∷ l) h = ground (arith, find_item-id i x l)

find_item-save_item :
    (j : ℕ) (x y : ScheduleItem) (l : List ScheduleItem)
    → find_item x.id l ≡ some y
    → find_item j (save_item x l) ≡ (if x.id == j then some x else find_item j l)
unfolding find_item save_item
find_item-save_item j x y [] h = cc
find_item-save_item j x y (z ∷ l) h = ground (arith, h, find_item-save_item j x y l)

-- the rows of the items after a move
find_item-moved :
    (j : ℕ) (x y : ScheduleItem) (db : Db)
    → find_item x.id db.items ≡ some y
    → find_item j (moved x db).items ≡ (if x.id == j then some x else find_item j db.items)
unfolding moved
find_item-moved j x y db h = find_item-save_item j x y db.items h

replan_lem :
    (x : ScheduleItem) (o : WorkOrder) (orders : List WorkOrder)
    → find x.work_order_id orders ≡ some o
    → replan x orders ≡ save (planned x o) orders
unfolding replan
replan_lem x o orders h = ap (λ m. elim m [ none ↦ orders | some p ↦ save (planned x p) orders ]) h

find-planned :
    (j : ℕ) (x : ScheduleItem) (o : WorkOrder) (orders : List WorkOrder)
    → find o.id orders ≡ some o
    → find j (save (planned x o) orders) ≡ (if o.id == j then some (planned x o) else find j orders)
unfolding planned
find-planned j x o orders h = find-save j (planned x o) o orders h

-- the rows of the orders
find-moved :
    (j : ℕ) (x : ScheduleItem) (o : WorkOrder) (db : Db)
    → find x.work_order_id db.orders ≡ some o
    → find j (moved x db).orders
      ≡ (if x.work_order_id == j then some (planned x o) else find j db.orders)
unfolding moved
find-moved j x o db h =
    let e : o.id ≡ x.work_order_id = find-id x.work_order_id o db.orders h in
    ap (find j) (replan_lem x o db.orders h)
    ∙ find-planned j x o db.orders (ap (λ k. find k db.orders) e ∙ h)
    ∙ ap (λ k. if k == j then some (planned x o) else find j db.orders) e

adjusted_lem :
    (d : ScheduleItemPatch) (x : ScheduleItem)
    → ((adjusted d x).id ≡ x.id) × ((adjusted d x).work_order_id ≡ x.work_order_id)
unfolding adjusted
adjusted_lem d x = (refl, refl)

-- A manual move that succeeds is one of an item of the schedule that is named. It writes the new
-- times and the technician to that item and, if the item's order exists, to that order; every
-- other item and every other order is as it was.
pub patch_item-rows :
    (known : ℕ → Bool) (sid i : ℕ) (d : ScheduleItemPatch) (db db' : Db) (o : WorkOrder)
    → patch_item known sid i d db ≡ ok db'
    → (x : ScheduleItem) × (find_item i db.items ≡ some x)
      × (x.schedule_id ≡ sid)
      × ((j : ℕ)
          → find_item j db'.items ≡ (if i == j then some (adjusted d x) else find_item j db.items))
      × (find x.work_order_id db.orders ≡ some o
          → (j : ℕ)
          → find j db'.orders
            ≡ (if x.work_order_id == j then some (planned (adjusted d x) o) else find j db.orders))
patch_item-rows known sid i d db db' o h =
    let (s, x, fs, fx, k, c, e) = patch_item_lem known sid i d db db' h in
    let (a, b) = adjusted_lem d x in
    let at : (adjusted d x).id ≡ i = a ∙ find_item-id i x db.items fx in
    (
      x,
      fx,
      k,
      λ j.
          ap (λ t. find_item j t.items) e
          ∙ find_item-moved j (adjusted d x) x db (ap (λ n. find_item n db.items) at ∙ fx)
          ∙ ap (λ n. if n == j then some (adjusted d x) else find_item j db.items) at,
      λ f j.
          ap (λ t. find j t.orders) e
          ∙ find-moved j (adjusted d x) o db (ap (λ n. find n db.orders) b ∙ f)
          ∙ ap (λ n. if n == j then some (planned (adjusted d x) o) else find j db.orders) b,
    )
