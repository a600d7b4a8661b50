-- ===== src/Simulator/Commands.antt =====
-- apps/simulator/sim/commands.py: `handle_command`, with the operations of engine.py that it calls
-- (`machine`, `set_load`, `set_speed`, `reset`, `record`). `json.loads` is not part of the repository:
-- its result is the argument, a value of `Payload`. What `handle_command` does not catch leaves no
-- ack. The texts of errors and log entries are not kept, and the ack's time is left out.
pub mod Answer
pub mod Safety
use text.Mathlib.Text.{◌==◌ as str_eq}
use digital_twin.Prelude.{
  ℕ, String, Bool, true, false, not, Option, none, some, List, [], ◌∷◌, ◌++◌, ◌&&◌, ◌||◌, leb,
  length, drop, if◌then◌else◌,
}
use digital_twin.Prelude.Floats.{Floats}
use digital_twin.Simulator.Machine.{Process, Machine}
use digital_twin.Simulator.Machine.Service.{set_load_setpoint, has_component}
use digital_twin.Simulator.Machine.Service.{reset as reset_machine}

-- a JSON value; of a list the model keeps whether it is empty, and an integer that no float can hold
-- is huge
pub data Leaf (F : Type 0) : Type 0 where
  null : Leaf F
  boolean : Bool → Leaf F
  number : F → Leaf F
  huge : Leaf F
  string : String → Leaf F
  sequence : Bool → Leaf F

pub data Value (F : Type 0) : Type 0 where
  leaf : Leaf F → Value F
  object : List (String × Leaf F) → Value F

-- what `data.get` gives for the three keys, null for a missing one; of an unreadable payload
-- `json.loads` raises something else than a `JSONDecodeError` or a `UnicodeDecodeError`, as it does for
-- an integer with too many digits
pub data Payload (F : Type 0) : Type 0 where
  unreadable not_json not_object : Payload F
  fields : Value F → Value F → Value F → Payload F

pub data Error : Type 0 where
  unknown_asset invalid_request : Error

pub data Level : Type 0 where
  info warning error : Level

pub record LogEntry : Type 0 where
  pub level : Level
  pub asset_code : Option String

pub record Engine (F P : Type 0) : Type 0 where
  pub machines : List (String × Machine F P)
  pub log : List LogEntry

pub data Outcome (A : Type 0) : Type 0 where
  done : A → Outcome A
  failed : Error → Outcome A
  -- an exception that `handle_command` does not catch
  crashed : Outcome A

-- what `_number` does: it raises an InvalidRequestError, or `float` an OverflowError
pub data Number (F : Type 0) : Type 0 where
  float : F → Number F
  not_number too_large : Number F

pub record Ack (F : Type 0) : Type 0 where
  pub command_id : Value F
  pub command : String
  pub error : Option Error

-- LOG_SIZE entries are kept
unfoldable pub appended : LogEntry → List LogEntry → List LogEntry
appended e log = if leb 100 (length log) then drop 1 log ++ e ∷ [] else log ++ e ∷ []

module _ {F P : Type 0} where
  unfoldable pub machine : String → List (String × Machine F P) → Option (Machine F P)
  machine code [] = none
  machine code ((c, m) ∷ l) = if str_eq c code then some m else machine code l

  -- the machine of the code after a change of it
  unfoldable pub changed :
      String
      → (Machine F P → Machine F P)
      → List (String × Machine F P)
      → List (String × Machine F P)
  changed code f [] = []
  changed code f ((c, m) ∷ l) = if str_eq c code then (c, f m) ∷ l else (c, m) ∷ changed code f l

  -- `record`
  unfoldable pub recorded : Level → Option String → Engine F P → Engine F P
  unfolding appended
  recorded level code e = record e {
    log = appended (record { level = level; asset_code = code }) e.log;
  }

  -- a change of a machine that is logged
  unfoldable pub operated : String → (Machine F P → Machine F P) → Engine F P → Engine F P
  unfolding changed recorded
  operated code f e = recorded info (some code) (record e { machines = changed code f e.machines })

module _ {F : Type 0} where
  -- params.get(key), null for a missing one
  unfoldable pub get : String → List (String × Leaf F) → Leaf F
  get key [] = null
  get key ((k, v) ∷ l) = if str_eq k key then v else get key l

  unfoldable pub number_of : Leaf F → Number F
  number_of (number x) = float x
  number_of huge = too_large
  number_of _ = not_number

  -- `_number`
  unfoldable pub number_at : String → List (String × Leaf F) → Number F
  unfolding get number_of
  number_at key params = number_of (get key params)

module _ (fl : Floats) (pr : Process fl.F) where
  -- `set_load`
  unfoldable pub set_load : String → Number fl.F → Engine fl.F pr.P → Outcome (Engine fl.F pr.P)
  unfolding operated
  set_load code not_number e = failed invalid_request
  set_load code too_large e = crashed
  set_load code (float x) e =
      if fl.le (fl.of_ℕ 0) x && fl.le x (fl.of_ℕ 110)
      then done (operated code (set_load_setpoint fl pr x) e)
      else failed invalid_request

  -- `set_speed`
  unfoldable pub set_speed : String → Number fl.F → Engine fl.F pr.P → Outcome (Engine fl.F pr.P)
  unfolding operated
  set_speed code not_number e = failed invalid_request
  set_speed code too_large e = crashed
  set_speed code (float x) e =
      if fl.le (fl.of_ℕ 50) x && fl.le x (fl.of_ℕ 120)
      then done (operated code (λ m. record m { speed_setpoint_pct = x }) e)
      else failed invalid_request

  -- `reset`, after the test of the parameter's type
  unfoldable pub reset_at :
      String → Machine fl.F pr.P → Leaf fl.F → Engine fl.F pr.P → Outcome (Engine fl.F pr.P)
  unfolding operated
  reset_at code m null e = done (operated code (reset_machine fl pr none) e)
  reset_at code m (string c) e =
      if has_component fl pr c m.components
      then done (operated code (reset_machine fl pr (some c)) e)
      else failed invalid_request
  reset_at code m _ e = failed invalid_request

  -- the match on the command
  unfoldable pub dispatch :
      String
      → Machine fl.F pr.P
      → String
      → List (String × Leaf fl.F)
      → Engine fl.F pr.P
      → Outcome (Engine fl.F pr.P)
  unfolding set_load set_speed reset_at number_at get
  dispatch code m command params e =
      if str_eq command "set_load"
      then set_load code (number_at "load_pct" params) e
      else if str_eq command "set_speed"
      then set_speed code (number_at "speed_pct" params) e
      else if str_eq command "maintenance_reset"
      then reset_at code m (get "component_code" params) e
      else failed invalid_request

  unfoldable pub dispatch_to :
      Option (Machine fl.F pr.P)
      → String
      → String
      → List (String × Leaf fl.F)
      → Engine fl.F pr.P
      → Outcome (Engine fl.F pr.P)
  unfolding dispatch
  dispatch_to none code command params e = failed unknown_asset
  dispatch_to (some m) code command params e = dispatch code m command params e

  -- isinstance(command_id, str) and command_id
  unfoldable pub is_id : Value fl.F → Bool
  is_id (leaf (string s)) = not (str_eq s "")
  is_id _ = false

  -- `data.get("params") or {}`, and the test that it is a dict
  unfoldable pub params_of : Value fl.F → Option (List (String × Leaf fl.F))
  params_of (object l) = some l
  params_of (leaf null) = some []
  params_of (leaf (boolean b)) = if b then none else some []
  params_of (leaf (number x)) = if fl.le x (fl.of_ℕ 0) && fl.le (fl.of_ℕ 0) x then some [] else none
  params_of (leaf huge) = none
  params_of (leaf (string s)) = if str_eq s "" then some [] else none
  params_of (leaf (sequence is_nil)) = if is_nil then some [] else none

  unfoldable pub with_params :
      Option (List (String × Leaf fl.F))
      → String
      → String
      → Engine fl.F pr.P
      → Outcome (Engine fl.F pr.P)
  unfolding dispatch_to machine
  with_params none code command e = failed invalid_request
  with_params (some params) code command e =
      dispatch_to (machine code e.machines) code command params e

  -- the body of the `try`
  unfoldable pub attempt :
      Payload fl.F → String → String → Engine fl.F pr.P → Outcome (Engine fl.F pr.P)
  unfolding with_params is_id params_of
  attempt (fields command_id issued_by params) code command e =
      if is_id command_id
      then with_params (params_of params) code command e
      else failed invalid_request
  attempt unreadable code command e = crashed
  attempt _ code command e = failed invalid_request

  -- the id that the ack repeats
  unfoldable pub id_of : Payload fl.F → Value fl.F
  id_of (fields command_id issued_by params) = command_id
  id_of _ = leaf null

  unfoldable pub known : String → Engine fl.F pr.P → Option String
  unfolding machine
  known code e = elim (machine code e.machines) [ none ↦ none | some m ↦ some code ]

  -- the log entry and the ack, if there are any
  unfoldable pub answered :
      Outcome (Engine fl.F pr.P)
      → Value fl.F
      → String
      → String
      → Engine fl.F pr.P
      → Engine fl.F pr.P × Option (Ack fl.F)
  unfolding known recorded
  answered (done e') i code command e = (
    recorded info (known code e') e',
    some (record { command_id = i; command = command; error = none }),
  )
  answered (failed x) i code command e = (
    recorded warning (known code e) e,
    some (record { command_id = i; command = command; error = some x }),
  )
  answered crashed i code command e = (e, none)

  -- `handle_command`
  unfoldable pub handle_command :
      String → String → Payload fl.F → Engine fl.F pr.P → Engine fl.F pr.P × Option (Ack fl.F)
  unfolding attempt answered id_of
  handle_command code command payload e =
      answered (attempt payload code command e) (id_of payload) code command e
