-- ===== src/Telemetry/Alarms.antt =====
-- apps/api/app/modules/telemetry: the alarm rows, `AlarmRepository` and `AlarmService`, with
-- `_raise_alarm` of app/ingest/consumer.py, which inserts them. The table is a list of rows; a session
-- that raises is rolled back, so an error leaves no new state. Times are in microseconds. The audit
-- rows and the rows of `alarm_actions` are one log, of the action and the alarm.
pub mod Live
use digital_twin.Prelude.{
  ℕ, ◌+◌, Bool, true, false, Option, none, some, List, [], ◌∷◌, ◌++◌, ◌==◌, ◌&&◌, ◌||◌,
  if◌then◌else◌,
}
use digital_twin.Prelude.Result.{Result, ok, err, not_found, unprocessable, ◌>>=◌}
use digital_twin.Ingest.AlarmEngine.{AlarmData}

pub data Status : Type 0 where
  active acknowledged shelved cleared : Status

pub record Alarm (F : Type 0) : Type 0 where
  pub id : ℕ
  pub detail : AlarmData F
  pub status : Status
  pub acknowledged_by : Option ℕ
  pub acknowledged_at : Option ℕ
  pub assigned_to : Option ℕ
  pub shelved_until : Option ℕ
  pub cleared_at : Option ℕ

pub data Action : Type 0 where
  ack assign shelve unshelve clear : Action

-- `AlarmActionCreate`; the hours of a shelving are given in microseconds
pub record ActionCreate : Type 0 where
  pub action : Action
  pub assigned_to : Option ℕ
  pub shelve_for : Option ℕ

pub record Db (F : Type 0) : Type 0 where
  pub alarms : List (Alarm F)
  pub next_id : ℕ
  pub log : List (Action × ℕ)

abbrev pub is_active : Status → Bool
is_active active = true
is_active _ = false

-- status in ("active", "acknowledged")
abbrev pub is_live : Status → Bool
is_live active = true
is_live acknowledged = true
is_live _ = false

abbrev pub is_set : Option ℕ → Bool
is_set none = false
is_set (some t) = true

abbrev pub or_else : Option ℕ → ℕ → ℕ
or_else none d = d
or_else (some n) d = n

abbrev pub four_hours : ℕ
four_hours = 14400000000

pub contains : ℕ → List ℕ → Bool
contains i [] = false
contains i (j ∷ l) = (i == j) || contains i l

module _ {F : Type 0} where
  unfoldable pub find : ℕ → List (Alarm F) → Option (Alarm F)
  find i [] = none
  find i (a ∷ l) = if a.id == i then some a else find i l

  -- the row of the alarm's id becomes the alarm
  unfoldable pub save : Alarm F → List (Alarm F) → List (Alarm F)
  save a [] = []
  save a (x ∷ l) = if x.id == a.id then a ∷ l else x ∷ save a l

  abbrev pub is_for : ℕ → ℕ → Alarm F → Bool
  is_for rule_id asset_id a = (a.detail.rule_id == rule_id) && (a.detail.asset_id == asset_id)

  -- `active_for_rule_and_asset`
  unfoldable pub active_for_rule_and_asset : ℕ → ℕ → List (Alarm F) → Option (Alarm F)
  active_for_rule_and_asset rule_id asset_id [] = none
  active_for_rule_and_asset rule_id asset_id (a ∷ l) =
      if is_for rule_id asset_id a && is_live a.status
      then some a
      else active_for_rule_and_asset rule_id asset_id l

  -- `Alarm(**alarm_data)`; the status is the column's default
  unfoldable pub new_alarm : ℕ → AlarmData F → Alarm F
  new_alarm i d = record {
    id = i;
    detail = d;
    status = active;
    acknowledged_by = none;
    acknowledged_at = none;
    assigned_to = none;
    shelved_until = none;
    cleared_at = none;
  }

  -- `_raise_alarm`: the database, and the alarm that is published on the channel "alarms", if any
  pub raise_alarm : AlarmData F → Db F → Option (Alarm F) × Db F
  unfolding new_alarm
  raise_alarm d db = elim (active_for_rule_and_asset d.rule_id d.asset_id db.alarms) [
    | some existing ↦ (none, db)
    | none ↦ (
      some (new_alarm db.next_id d),
      record db { alarms = db.alarms ++ new_alarm db.next_id d ∷ []; next_id = db.next_id + 1 },
    )
  ]

  -- the branches of `perform_action`
  unfoldable pub change : ActionCreate → Action → ℕ → Alarm F → Result (Alarm F)
  change create ack now a =
      if is_active a.status
      then ok
          (record a { status = acknowledged; acknowledged_by = none; acknowledged_at = some now })
      else err unprocessable
  change create assign now a = elim create.assigned_to [
    | none ↦ err unprocessable
    | some user ↦ ok (record a { assigned_to = some user })
  ]
  change create shelve now a = ok (record a {
    status = shelved;
    shelved_until = some (now + or_else create.shelve_for four_hours);
  })
  change create unshelve now a = ok (record a {
    status = if is_set a.acknowledged_at then acknowledged else active;
    shelved_until = none;
  })
  change create clear now a = ok (record a { status = cleared; cleared_at = some now })

  unfoldable pub get_or_404 : ℕ → Db F → Result (Alarm F)
  get_or_404 alarm_id db = elim (find alarm_id db.alarms) [ none ↦ err not_found | some a ↦ ok a ]

  -- `perform_action`
  unfoldable pub perform_action : ℕ → ActionCreate → ℕ → Db F → Result (Alarm F × Db F)
  unfolding get_or_404
  perform_action alarm_id create now db = do
    a ← get_or_404 alarm_id db
    a' ← change create create.action now a
    ok (a', record db { alarms = save a' db.alarms; log = db.log ++ (create.action, a.id) ∷ [] })

  abbrev pub is_acked_by : List ℕ → Alarm F → Bool
  is_acked_by ids a = contains a.id ids && is_active a.status

  pub acked : ℕ → ℕ → Alarm F → Alarm F
  acked user now a = record a {
    status = acknowledged;
    acknowledged_by = some user;
    acknowledged_at = some now;
  }

  -- the UPDATE of `bulk_ack`, with its rowcount
  pub bulk_ack : List ℕ → ℕ → ℕ → List (Alarm F) → ℕ × List (Alarm F)
  unfolding acked
  bulk_ack ids user now [] = (0, [])
  bulk_ack ids user now (a ∷ l) =
      let (count, rest) = bulk_ack ids user now l in
      if is_acked_by ids a then (count + 1, acked user now a ∷ rest) else (count, a ∷ rest)
