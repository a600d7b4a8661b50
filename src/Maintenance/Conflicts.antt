-- ===== src/Maintenance/Conflicts.antt =====
-- apps/api/app/modules/maintenance/optimiser.py: `conflicts`, which a planner sees after a manual
-- change of the schedule. Of an `OrderInput` the model keeps the line.
pub mod Pairs
use text.Mathlib.Text.{◌==◌ as str_eq}
use digital_twin.Prelude.{
  ℕ, String, Bool, true, false, not, Option, none, some, List, [], ◌∷◌, ◌++◌, leb, ◌&&◌, ◌||◌,
  if◌then◌else◌,
}

pub record Assignment : Type 0 where
  pub order_id : String
  pub technician_id : Option String
  pub start_slot : ℕ
  pub end_slot : ℕ

pub data Kind : Type 0 where
  technician_kind line_kind : Kind

pub record Conflict : Type 0 where
  pub first : String
  pub second : String
  pub kind : Kind

-- `sorted(assignments, key=lambda a: a.start_slot)`, which is stable
pub insert_by_start : Assignment → List Assignment → List Assignment
insert_by_start a [] = a ∷ []
insert_by_start a (x ∷ xs) =
    if leb a.start_slot x.start_slot then a ∷ x ∷ xs else x ∷ insert_by_start a xs

pub order_by_start : List Assignment → List Assignment
order_by_start [] = []
order_by_start (a ∷ l) = insert_by_start a (order_by_start l)

-- `first.technician_id and first.technician_id == second.technician_id`
pub same_technician : Option String → Option String → Bool
same_technician (some t) (some u) = not (str_eq t "") && str_eq t u
same_technician _ _ = false

-- both orders are known and have the same line
pub same_line : Option String → Option String → Bool
same_line (some l) (some m) = str_eq l m
same_line _ _ = false

module _ (line_of : String → Option String) where
  -- the body of the inner loop after its `break`
  pub clash : Assignment → Assignment → List Conflict
  clash a b =
      if same_technician a.technician_id b.technician_id
      then record { first = a.order_id; second = b.order_id; kind = technician_kind } ∷ []
      else if same_line (line_of a.order_id) (line_of b.order_id)
      then record { first = a.order_id; second = b.order_id; kind = line_kind } ∷ []
      else []

  -- the inner loop
  pub clashes : Assignment → List Assignment → List Conflict
  clashes first [] = []
  clashes first (second ∷ rest) =
      let later = clashes first rest in
      if leb first.end_slot second.start_slot then [] else clash first second ++ later

  pub found_in : List Assignment → List Conflict
  found_in [] = []
  found_in (first ∷ rest) = clashes first rest ++ found_in rest

  pub conflicts : List Assignment → List Conflict
  conflicts assignments = found_in (order_by_start assignments)
