-- ===== src/Maintenance/Availability.antt =====
-- apps/api/app/modules/maintenance: the slots of a horizon and when a technician can work
-- (`slot_count`, `slot_time`, `_slot_of`, `_technician_input`, `_available` and the query of
-- `TechnicianRepository.availability`). Times are in microseconds, from a point before all of them.
-- Skills and costs are not modelled. The query's order is that of the table: no result depends on it.
pub mod Slots
use digital_twin.Prelude.{
  ℕ, zero, suc, ◌+◌, ◌-◌, ◌*◌, ◌/◌, max, Bool, true, false, not, Option, none, some, List, [], ◌∷◌,
  leb, ltb, ◌&&◌, ◌||◌, is_empty, get_elem?, if◌then◌else◌,
}

-- SLOT_MINUTES
abbrev pub slot_length : ℕ
slot_length = 900000000

unfoldable pub slot_count : ℕ → ℕ → ℕ
slot_count horizon_start horizon_end = max 1 ((horizon_end - horizon_start) / slot_length)

unfoldable pub slot_time : ℕ → ℕ → ℕ
slot_time horizon_start slot = horizon_start + slot_length * slot

-- `_slot_of`, at a time that is not before the horizon
pub slot_of : ℕ → ℕ → ℕ
slot_of time horizon_start = (time - horizon_start) / slot_length

pub data Kind : Type 0 where
  available leave training : Kind

pub record Window : Type 0 where
  pub kind : Kind
  pub starts_at : ℕ
  pub ends_at : ℕ

-- window.kind == "available"
abbrev pub is_work : Kind → Bool
is_work available = true
is_work _ = false

-- the windows of a technician that overlap start to end
pub availability : List Window → ℕ → ℕ → List Window
availability [] start end = []
availability (w ∷ ws) start end =
    let rest = availability ws start end in
    if ltb start w.ends_at && ltb w.starts_at end then w ∷ rest else rest

pub covers : Window → ℕ → Bool
covers w time = leb w.starts_at time && ltb time w.ends_at

-- [False] * n
pub all_false : ℕ → List Bool
all_false zero = []
all_false (suc n) = false ∷ all_false n

-- the inner loop: the slots from number i on
pub mark : ℕ → Window → Bool → ℕ → List Bool → List Bool
unfolding covers slot_time
mark start w value i [] = []
mark start w value i (b ∷ slots) =
    (if covers w (slot_time start i) then value else b) ∷ mark start w value (suc i) slots

-- the outer loop over the windows that are available
pub mark_available : ℕ → List Window → List Bool → List Bool
unfolding mark
mark_available start [] slots = slots
mark_available start (w ∷ ws) slots =
    mark_available start ws (if is_work w.kind then mark start w true 0 slots else slots)

-- the outer loop over the other windows
pub mark_leave : ℕ → List Window → List Bool → List Bool
unfolding mark
mark_leave start [] slots = slots
mark_leave start (w ∷ ws) slots =
    mark_leave start ws (if is_work w.kind then slots else mark start w false 0 slots)

-- `available_slots` of `_technician_input`
pub available_slots : List Window → ℕ → ℕ → List Bool
unfolding availability mark_available mark_leave all_false slot_time
available_slots rows start n_slots =
    let windows = availability rows start (slot_time start n_slots) in
    if is_empty windows
    then []
    else mark_leave start windows (mark_available start windows (all_false n_slots))

-- slot < len(slots) and slots[slot]
pub flag_at : List Bool → ℕ → Bool
flag_at slots i = elim (get_elem? slots i) [ none ↦ false | some b ↦ b ]

-- `_available`
pub is_available : List Bool → ℕ → Bool
unfolding flag_at
is_available slots slot = is_empty slots || flag_at slots slot
