-- ===== src/Maintenance/Schedule/Moves.antt =====
-- What `patch_item` and the tables' lookups do to the items of a schedule.
use digital_twin.Prelude.{
  ℕ, ◌+◌, ◌≤◌, ◌<◌, ◌≡◌, refl, ap, ◌∙◌, arith, Bool, Option, some, List, [], ◌∷◌, ◌++◌, ◌==◌,
  if◌then◌else◌, All, Bool-cases, Option-cases, inl, inr,
}
use digital_twin.Prelude.Result.{ok, bind_ok}
use digital_twin.Maintenance.Availability.{slot_count, slot_length}
use digital_twin.Maintenance.Schedule.{
  Schedule, ScheduleItem, Db, ScheduleItemPatch, Assignment, OptimiseRequest, find_schedule,
  find_item, save_item, activate, new_start, new_end, adjusted, checked_patch, schedule_or_404,
  item_or_404, moved, patch_item,
}

-- an item of a known schedule that starts before it ends, both inside the schedule's horizon
unfoldable pub InHorizon : List Schedule → ScheduleItem → Type 0
InHorizon schedules x =
    (s : Schedule) × (find_schedule x.schedule_id schedules ≡ some s)
    × (s.horizon_start ≤ x.starts_at)
    × (x.starts_at < x.ends_at)
    × (x.ends_at ≤ s.horizon_end)

pub record IsPlanned (db : Db) : Type 0 where
  pub ids : All (λ s. s.id < db.next_id) db.schedules
  pub items : All (InHorizon db.schedules) db.items

pub All-map :
    {A : Type 0} (P Q : A → Type 0) → ((x : A) → P x → Q x) → (l : List A) → All P l → All Q l
All-map P Q f [] h = tt
All-map P Q f (x ∷ l) (p, h) = (f x p, All-map P Q f l h)

pub All-append : {A : Type 0} (P : A → Type 0) (l m : List A) → All P l → All P m → All P (l ++ m)
All-append P [] m h k = k
All-append P (x ∷ l) m (p, h) k = (p, All-append P l m h k)

pub All-find_item :
    (P : ScheduleItem → Type 0) (i : ℕ) (x : ScheduleItem) (l : List ScheduleItem)
    → find_item i l ≡ some x
    → All P l
    → P x
unfolding find_item
All-find_item P i x [] h a = cc
All-find_item P i x (y ∷ l) h (p, a) = elim (Bool-cases (y.id == i)) [
  | inl e ↦ let q : y ≡ x = ground (arith, h, e) in rw (← q) p
  | inr e ↦ All-find_item P i x l (ground (arith, h, e)) a
]

pub All-save_item :
    (P : ScheduleItem → Type 0) (x : ScheduleItem) (l : List ScheduleItem)
    → P x
    → All P l
    → All P (save_item x l)
unfolding save_item
All-save_item P x [] p a = tt
All-save_item P x (y ∷ l) p (q, a) =
    elim (Bool-cases (y.id == x.id))
      as (λ b. All P (if y.id == x.id then x ∷ l else y ∷ save_item x l)) [
        | inl e ↦ rw e (p, a)
        | inr e ↦ rw e (q, All-save_item P x l p a)
      ]

pub find-activate :
    (i j : ℕ) (s : Schedule) (l : List Schedule)
    → find_schedule i l ≡ some s
    → find_schedule i (activate j l) ≡ some (record s { is_active = s.id == j })
unfolding find_schedule activate
find-activate i j s [] h = cc
find-activate i j s (y ∷ l) h = elim (Bool-cases (y.id == i)) [
  | inl e ↦
      let q : y ≡ s = ground (arith, h, e) in
      rw e
        (ap {A = Schedule} {B = Option Schedule} (λ t. some (record t { is_active = t.id == j })) q)
  | inr e ↦ rw e (find-activate i j s l (ground (arith, h, e)))
]

pub find-append :
    (i : ℕ) (s : Schedule) (l m : List Schedule)
    → find_schedule i l ≡ some s
    → find_schedule i (l ++ m) ≡ some s
unfolding find_schedule
find-append i s [] m h = cc
find-append i s (y ∷ l) m h = ground (arith, h, find-append i s l m)

pub find-fresh :
    (i : ℕ) (s : Schedule) (l : List Schedule)
    → s.id ≡ i
    → All (λ s. s.id < i) l
    → find_schedule i (l ++ s ∷ []) ≡ some s
unfolding find_schedule
find-fresh i s [] e a = ground (arith, e)
find-fresh i s (y ∷ l) e (p, a) = ground (arith, p, find-fresh i s l e a)

pub checked_patch_lem :
    (known : ℕ → Bool) (s : Schedule) (d : ScheduleItemPatch) (x x' : ScheduleItem)
    → checked_patch known s d x ≡ ok x'
    → (x' ≡ adjusted d x)
      × (s.horizon_start ≤ new_start d x)
      × (new_start d x < new_end d x)
      × (new_end d x ≤ s.horizon_end)
unfolding checked_patch
checked_patch_lem known s d x x' h =
    (ground (arith, h), ground (arith, h), ground (arith, h), ground (arith, h))

pub schedule_or_404_lem :
    (i : ℕ) (db : Db) (s : Schedule)
    → schedule_or_404 i db ≡ ok s
    → find_schedule i db.schedules ≡ some s
unfolding schedule_or_404
schedule_or_404_lem i db s h = elim (Option-cases (find_schedule i db.schedules)) [
  | inl e ↦ absurd (ground (arith, h, e))
  | inr (x, e) ↦ ground (arith, h, e)
]

pub item_or_404_lem :
    (sid i : ℕ) (db : Db) (x : ScheduleItem)
    → item_or_404 sid i db ≡ ok x
    → (find_item i db.items ≡ some x) × (x.schedule_id ≡ sid)
unfolding item_or_404
item_or_404_lem sid i db x h = elim (Option-cases (find_item i db.items)) [
  | inl e ↦ absurd (ground (arith, h, e))
  | inr (y, e) ↦ (ground (arith, h, e), ground (arith, h, e))
]

pub patch_item_lem :
    (known : ℕ → Bool) (sid i : ℕ) (d : ScheduleItemPatch) (db db' : Db)
    → patch_item known sid i d db ≡ ok db'
    → (s : Schedule) × (x : ScheduleItem) × (find_schedule sid db.schedules ≡ some s)
      × (find_item i db.items ≡ some x)
      × (x.schedule_id ≡ sid)
      × (checked_patch known s d x ≡ ok (adjusted d x))
      × (db' ≡ moved (adjusted d x) db)
unfolding patch_item
patch_item_lem known sid i d db db' h =
    let (s, fs, h') = bind_ok (schedule_or_404 sid db) _ h in
    let (x, fx, h'') = bind_ok (item_or_404 sid i db) _ h' in
    let (x', cx, h''') = bind_ok (checked_patch known s d x) _ h'' in
    let (e, a, b, c) = checked_patch_lem known s d x x' cx in
    let (g, k) = item_or_404_lem sid i db x fx in
    (s, x, schedule_or_404_lem sid db s fs, g, k, cx ∙ ap ok e, cc)

-- a found schedule has the same horizon, and is still found, in the new tables
pub InHorizon-kept :
    (l m : List Schedule)
    → ((i : ℕ) (s : Schedule)
        → find_schedule i l ≡ some s
        → (t : Schedule) × (find_schedule i m ≡ some t)
          × (t.horizon_start ≡ s.horizon_start)
          × (t.horizon_end ≡ s.horizon_end))
    → (x : ScheduleItem) → InHorizon l x
    → InHorizon m x
unfolding InHorizon
InHorizon-kept l m f x (s, found, a, b, c) =
    let (t, found', e, e') = f x.schedule_id s found in (t, found', rw e a, b, rw e' c)

pub moved-ids :
    (x : ScheduleItem) (db : Db)
    → All (λ s. s.id < db.next_id) db.schedules
    → All (λ s. s.id < (moved x db).next_id) (moved x db).schedules
unfolding moved
moved-ids x db h = h

pub moved-items :
    (x : ScheduleItem) (db : Db)
    → InHorizon db.schedules x
    → All (InHorizon db.schedules) db.items
    → All (InHorizon (moved x db).schedules) (moved x db).items
unfolding moved
moved-items x db p h = All-save_item (InHorizon db.schedules) x db.items p h

pub adjusted-schedule :
    (d : ScheduleItemPatch) (x : ScheduleItem) → (adjusted d x).schedule_id ≡ x.schedule_id
unfolding adjusted
adjusted-schedule d x = refl

pub adjusted-times :
    (d : ScheduleItemPatch) (x : ScheduleItem) (s : Schedule)
    → s.horizon_start ≤ new_start d x
    → new_start d x < new_end d x
    → new_end d x ≤ s.horizon_end
    → (s.horizon_start ≤ (adjusted d x).starts_at)
      × ((adjusted d x).starts_at < (adjusted d x).ends_at)
      × ((adjusted d x).ends_at ≤ s.horizon_end)
unfolding adjusted
adjusted-times d x s a b c = (a, b, c)

-- the horizon has room for a slot, and every assignment takes at least one of the slots
unfoldable pub IsFeasible : OptimiseRequest → List Assignment → Type 0
IsFeasible r xs =
    (r.horizon_start + slot_length ≤ r.horizon_end)
    × All
        (λ a. (a.start_slot < a.end_slot) × (a.end_slot ≤ slot_count r.horizon_start r.horizon_end))
        xs

pub patch_item-IsPlanned :
    (known : ℕ → Bool) (sid i : ℕ) (d : ScheduleItemPatch) (db db' : Db)
    → patch_item known sid i d db ≡ ok db'
    → IsPlanned db
    → IsPlanned db'
unfolding InHorizon
patch_item-IsPlanned known sid i d db db' h p =
    let (s, x, fs, fx, k, cx, e) = patch_item_lem known sid i d db db' h in
    let (r, a, b, c) = checked_patch_lem known s d x (adjusted d x) cx in
    let (a', b', c') = adjusted-times d x s a b c in
    let found : find_schedule (adjusted d x).schedule_id db.schedules ≡ some s =
      ap (λ j. find_schedule j db.schedules) (adjusted-schedule d x ∙ k) ∙ fs in
    let q : IsPlanned (moved (adjusted d x) db) = record {
      ids = moved-ids (adjusted d x) db p.ids;
      items = moved-items (adjusted d x) db (s, found, a', b', c') p.items;
    } in
    rw e q
