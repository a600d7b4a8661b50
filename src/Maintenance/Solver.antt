-- ===== src/Maintenance/Solver.antt =====
-- apps/api/app/modules/maintenance/optimiser.py: `solve`. The solver CP-SAT is not part of the
-- repository: the values that it finds for the variables are an argument, none if its status is
-- neither OPTIMAL nor FEASIBLE. Of the model that it is given, the domains of the start variables
-- and the assignment literals are kept; its other constraints and the objective only choose among
-- their values. Status, time, risk and energy of the result are left out, and ids are numbers.
use digital_twin.Prelude.{
  ℕ, ◌+◌, ◌-◌, ◌/◌, ◌<◌, ◌≤◌, ◌≡◌, max, arith, Bool, true, false, Option, none, some, List, [], ◌∷◌,
  leb, ◌==◌, ◌&&◌, ◌||◌, is_empty, if◌then◌else◌, All, if_ind,
}
use digital_twin.Maintenance.Schedule.{Assignment}

pub record OrderInput : Type 0 where
  pub id : ℕ
  pub duration_min : ℕ
  pub required_skills : List ℕ

pub record TechnicianInput : Type 0 where
  pub id : ℕ
  pub skills : List ℕ

-- the values of the start variable of an order and of the literal of an order and a technician
pub record Values : Type 0 where
  pub start : ℕ → ℕ
  pub assign : ℕ → ℕ → Bool

-- durations[o.id], in slots
unfoldable pub duration : OrderInput → ℕ
duration o = max 1 ((o.duration_min + 14) / 15)

unfoldable pub has_skill : ℕ → List ℕ → Bool
has_skill s [] = false
has_skill s (x ∷ xs) = (x == s) || has_skill s xs

unfoldable pub shares : List ℕ → List ℕ → Bool
unfolding has_skill
shares [] ys = false
shares (x ∷ xs) ys = has_skill x ys || shares xs ys

-- `_can_do`
unfoldable pub can_do : TechnicianInput → OrderInput → Bool
unfolding shares
can_do t o = is_empty o.required_skills || shares o.required_skills t.skills

unfoldable pub any_eligible : List TechnicianInput → OrderInput → Bool
unfolding can_do
any_eligible [] o = false
any_eligible (t ∷ ts) o = can_do t o || any_eligible ts o

-- does the order have a start variable and a technician?
unfoldable pub is_schedulable : ℕ → List TechnicianInput → OrderInput → Bool
unfolding duration any_eligible
is_schedulable n_slots technicians o = leb (duration o) n_slots && any_eligible technicians o

-- the first eligible technician whose literal is true
unfoldable pub technician_of : Values → OrderInput → List TechnicianInput → Option ℕ
unfolding can_do
technician_of v o [] = none
technician_of v o (t ∷ ts) =
    if can_do t o && v.assign o.id t.id then some t.id else technician_of v o ts

unfoldable pub assignment : Values → List TechnicianInput → OrderInput → Assignment
unfolding duration technician_of
assignment v technicians o = record {
  order_id = o.id;
  technician_id = technician_of v o technicians;
  start_slot = v.start o.id;
  end_slot = v.start o.id + duration o;
}

-- the last loop of `solve`
unfoldable pub assignments : ℕ → Values → List TechnicianInput → List OrderInput → List Assignment
unfolding is_schedulable assignment
assignments n_slots v technicians [] = []
assignments n_slots v technicians (o ∷ os) =
    let rest = assignments n_slots v technicians os in
    if is_schedulable n_slots technicians o then assignment v technicians o ∷ rest else rest

-- the assignments of `solve`
unfoldable pub solve : Option Values → List OrderInput → List TechnicianInput → ℕ → List Assignment
unfolding assignments
solve answer orders technicians n_slots =
    if is_empty orders || is_empty technicians
    then []
    else elim answer [ none ↦ [] | some v ↦ assignments n_slots v technicians orders ]

-- What CP-SAT promises of a variable from `new_int_var`: its value is in its domain.
unfoldable pub IsInDomain : ℕ → List OrderInput → Option Values → Type 0
IsInDomain n_slots orders none = Unit {0}
IsInDomain n_slots orders (some v) =
    All (λ o. duration o ≤ n_slots → v.start o.id ≤ n_slots - duration o) orders

-- an assignment takes at least one slot, inside the horizon
abbrev pub Fits : ℕ → Assignment → Type 0
Fits n_slots a = (a.start_slot < a.end_slot) × (a.end_slot ≤ n_slots)

assignment-Fits :
    (n_slots : ℕ) (v : Values) (technicians : List TechnicianInput) (o : OrderInput)
    → (duration o ≤ n_slots → v.start o.id ≤ n_slots - duration o)
    → is_schedulable n_slots technicians o ≡ true
    → Fits n_slots (assignment v technicians o)
unfolding assignment is_schedulable duration
assignment-Fits n_slots v technicians o d h =
    let le : duration o ≤ n_slots = ground (arith, h) in (omega arith, omega (arith, d le, le))

assignments-Fits :
    (n_slots : ℕ) (v : Values) (technicians : List TechnicianInput) (orders : List OrderInput)
    → All (λ o. duration o ≤ n_slots → v.start o.id ≤ n_slots - duration o) orders
    → All (Fits n_slots) (assignments n_slots v technicians orders)
unfolding assignments
assignments-Fits n_slots v technicians [] h = tt
assignments-Fits n_slots v technicians (o ∷ os) (d, h) =
    if_ind (All (Fits n_slots)) (is_schedulable n_slots technicians o) _ _
      (λ t.
        (assignment-Fits n_slots v technicians o d t, assignments-Fits n_slots v technicians os h))
      (λ f. assignments-Fits n_slots v technicians os h)

answered-Fits :
    (n_slots : ℕ) (answer : Option Values) (technicians : List TechnicianInput)
    (orders : List OrderInput)
    → IsInDomain n_slots orders answer
    → All (Fits n_slots) (elim answer as (λ x. List Assignment) [
      | none ↦ []
      | some v ↦ assignments n_slots v technicians orders
    ])
unfolding IsInDomain
answered-Fits n_slots none technicians orders h = tt
answered-Fits n_slots (some v) technicians orders h =
    assignments-Fits n_slots v technicians orders h

-- every assignment of `solve` fits
pub solve-Fits :
    (n_slots : ℕ) (answer : Option Values) (orders : List OrderInput)
    (technicians : List TechnicianInput)
    → IsInDomain n_slots orders answer
    → All (Fits n_slots) (solve answer orders technicians n_slots)
unfolding solve
solve-Fits n_slots answer orders technicians h =
    if_ind (All (Fits n_slots)) (is_empty orders || is_empty technicians) _ _ (λ t. tt)
      (λ f. answered-Fits n_slots answer technicians orders h)
