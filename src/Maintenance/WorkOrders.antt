-- ===== src/Maintenance/WorkOrders.antt =====
-- apps/api/app/modules/maintenance/service.py: `update_order` and `close_order` of the work orders.
-- The table is a list of rows. A session that raises is rolled back, so an error leaves the table as
-- it was; a command that went out to the simulator stays out. The gateway that sends commands is not
-- modelled: its reply is an argument. Times are in microseconds; of the fields that only a client
-- writes and reads, such as parts and costs, the model keeps the title.
pub mod Final
use text.Mathlib.Text.{◌==◌ as str_eq}
use digital_twin.Prelude.{
  ℕ, String, Bool, true, false, not, Option, none, some, List, [], ◌∷◌, ◌++◌, leb, ◌==◌, ◌&&◌,
  if◌then◌else◌,
}
use digital_twin.Prelude.Result.{
  Result, ok, err, not_found, conflict, unprocessable, bad_gateway, ◌>>=◌,
}

pub data Status : Type 0 where
  open_status scheduled in_progress closed cancelled : Status

pub record WorkOrder : Type 0 where
  pub id : ℕ
  pub asset_id : ℕ
  pub component_id : Option ℕ
  pub title : String
  pub status : Status
  pub planned_start : Option ℕ
  pub planned_end : Option ℕ
  pub actual_start : Option ℕ
  pub actual_end : Option ℕ
  pub technician_id : Option ℕ
  pub outcome : Option String
  pub prediction_was_correct : Option Bool

-- `model_dump(exclude_unset=True)`: a field that the request leaves out, or its value
pub data Field (A : Type 0) : Type 0 where
  unset : Field A
  set : A → Field A

pub record WorkOrderUpdate : Type 0 where
  pub title : Field String
  pub status : Field Status
  pub planned_start : Field (Option ℕ)
  pub planned_end : Field (Option ℕ)
  pub technician_id : Field (Option ℕ)

pub record WorkOrderClose : Type 0 where
  pub outcome : String
  pub actual_start : Option ℕ
  pub actual_end : Option ℕ
  pub prediction_was_correct : Option Bool
  pub reset_damage : Bool

pub data Entry : Type 0 where
  update_entry close_entry : Entry

pub record Db : Type 0 where
  pub orders : List WorkOrder
  pub audit : List (Entry × ℕ)

abbrev pub is_terminal : Status → Bool
is_terminal closed = true
is_terminal cancelled = true
is_terminal _ = false

-- `values.get(key, default)`
abbrev pub get : {A : Type 0} → Field A → A → A
get unset d = d
get (set v) d = v

abbrev pub or_else : Option ℕ → Option ℕ → Option ℕ
or_else none d = d
or_else (some t) d = some t

-- start and end and end <= start
pub is_reversed : Option ℕ → Option ℕ → Bool
is_reversed (some start) (some end) = leb end start
is_reversed _ _ = false

-- a technician that is given and not known
pub is_unknown : (ℕ → Bool) → Field (Option ℕ) → Bool
is_unknown known (set (some t)) = not (known t)
is_unknown known _ = false

unfoldable pub find : ℕ → List WorkOrder → Option WorkOrder
find i [] = none
find i (o ∷ l) = if o.id == i then some o else find i l

unfoldable pub get_or_404 : ℕ → Db → Result WorkOrder
get_or_404 i db = elim (find i db.orders) [ none ↦ err not_found | some o ↦ ok o ]

-- the row of the order's id becomes the order
unfoldable pub save : WorkOrder → List WorkOrder → List WorkOrder
save o [] = []
save o (x ∷ l) = if x.id == o.id then o ∷ l else x ∷ save o l

pub updated : WorkOrderUpdate → WorkOrder → WorkOrder
updated data_ o = record o {
  title = get data_.title o.title;
  status = get data_.status o.status;
  planned_start = get data_.planned_start o.planned_start;
  planned_end = get data_.planned_end o.planned_end;
  technician_id = get data_.technician_id o.technician_id;
}

-- the checks of `update_order` on the row, and the row that is written
pub checked_update : (ℕ → Bool) → WorkOrderUpdate → WorkOrder → Result WorkOrder
unfolding is_reversed is_unknown updated
checked_update known data_ o =
    if is_terminal o.status
    then err conflict
    else if is_reversed (get data_.planned_start o.planned_start)
        (get data_.planned_end o.planned_end)
    then err unprocessable
    else if is_unknown known data_.technician_id
    then err not_found
    else ok (updated data_ o)

unfoldable pub written : Entry → WorkOrder → Db → Db
written e o db = record { orders = save o db.orders; audit = db.audit ++ (e, o.id) ∷ [] }

pub update_order : (ℕ → Bool) → ℕ → WorkOrderUpdate → Db → Result Db
unfolding get_or_404 written
update_order known i data_ db = do
  o ← get_or_404 i db
  o' ← checked_update known data_ o
  ok (written update_entry o' db)

-- what `commands.execute` returns: no reply, or a reply with its status
pub data Reply : Type 0 where
  no_reply : Reply
  reply : Option String → Reply

unfoldable pub is_rejection : Reply → Bool
is_rejection no_reply = false
is_rejection (reply none) = false
is_rejection (reply (some s)) = not (str_eq s "accepted")

unfoldable pub closed_order : WorkOrderClose → ℕ → WorkOrder → WorkOrder
closed_order data_ now o = record o {
  status = closed;
  outcome = some data_.outcome;
  actual_start =
      or_else data_.actual_start (or_else o.actual_start (or_else o.planned_start (some now)));
  actual_end = or_else data_.actual_end (some now);
  prediction_was_correct = data_.prediction_was_correct;
}

-- is a reset sent? `has_commands` is `self.commands is not None`, `asset_known` that the row exists
unfoldable pub resets : Bool → (ℕ → Bool) → WorkOrderClose → WorkOrder → Bool
resets has_commands asset_known data_ o =
    (data_.reset_damage && has_commands) && asset_known o.asset_id

unfoldable pub checked_close :
    Bool → (ℕ → Bool) → Reply → WorkOrderClose → ℕ → WorkOrder → Result WorkOrder
unfolding closed_order resets is_rejection
checked_close has_commands asset_known r data_ now o =
    if is_terminal o.status
    then err conflict
    else if resets has_commands asset_known data_ o && is_rejection r
    then err bad_gateway
    else ok (closed_order data_ now o)

unfoldable pub close_order : Bool → (ℕ → Bool) → Reply → ℕ → WorkOrderClose → ℕ → Db → Result Db
unfolding get_or_404 written
close_order has_commands asset_known r i data_ now db = do
  o ← get_or_404 i db
  o' ← checked_close has_commands asset_known r data_ now o
  ok (written close_entry o' db)
