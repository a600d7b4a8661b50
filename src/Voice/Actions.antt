-- ===== src/Voice/Actions.antt =====
-- apps/api/app/modules/voice/service.py and repository.py: a `VoiceAction` from its read-back to its
-- confirmation, with `needs_confirmation` and `needs_second_factor` of packages/nlu/twinvoice_nlu/tiers.py.
-- The store is what is committed: `confirm` commits before it raises. `ran` is the log of the actions
-- whose tool was called, and `repeatable` of those whose call was rolled back. The tools themselves
-- are not modelled: how a call ends is an argument, an `Ending`. The texts, the errors and the times
-- that are only written to the row are left out. Times are in microseconds.
pub mod Guards
pub mod Once
use text.Mathlib.Text.{◌==◌ as str_eq}
use digital_twin.Prelude.{
  ℕ, zero, suc, ◌+◌, String, Bool, true, false, not, Option, none, some, List, [], ◌∷◌, ◌++◌, ltb,
  leb, ◌==◌, ◌&&◌, ◌||◌, is_empty, if◌then◌else◌,
}
use digital_twin.Prelude.Result.{Result, ok, err, internal, not_found, conflict, forbidden}
use digital_twin.Voice.Validation.{
  Tier, t0, t1, t2, t3, Status, pending, confirmed, cancelled, expired, executed, failed, rejected,
  Params, VoiceAction, World, validate,
}

pub data Entry : Type 0 where
  read_back_entry second_factor_failed rejected_entry failed_entry executed_entry cancelled_entry :
      Entry

pub record Store : Type 0 where
  pub actions : List VoiceAction
  pub next_id : ℕ
  pub audit : List (Entry × ℕ)
  pub ran : List ℕ
  pub repeatable : List ℕ

-- How the call of a tool ends: it returns, raises a `ProblemError`, or raises another exception, which
-- `confirm` does not catch. Then the session is rolled back to its last commit, which is one of the
-- tool, after the row was set to confirmed, if the tool has committed.
pub data Ending : Type 0 where
  returned problem : Ending
  crashed : Bool → Ending

pub record Setup : Type 0 where
  pub allow_t3 : Bool
  -- `checker.verify(actor.sub, pin)`
  pub verify : String → String → Bool

abbrev pub needs_confirmation : Tier → Bool
needs_confirmation t2 = true
needs_confirmation t3 = true
needs_confirmation _ = false

abbrev pub needs_second_factor : Tier → Bool
needs_second_factor t3 = true
needs_second_factor _ = false

abbrev pub is_pending : Status → Bool
is_pending pending = true
is_pending _ = false

abbrev pub is_expired : ℕ → Option ℕ → Bool
is_expired now none = false
is_expired now (some t) = leb t now

-- `bool(pin) and checker.verify(actor.sub, pin or "")`
pub second_factor_ok : Setup → String → Option String → Bool
second_factor_ok setup sub none = false
second_factor_ok setup sub (some pin) = not (str_eq pin "") && setup.verify sub pin

-- what `confirm` makes of the row: its new form, the audit entry, whether the tool was called, and
-- the status that is answered or the error that is raised
pub record Verdict : Type 0 where
  pub action : VoiceAction
  pub entry : Option Entry
  pub ran : Bool
  pub rolled_back : Bool
  pub reply : Result Status

with_status : VoiceAction → Status → Option Entry → Bool → Verdict
with_status a s entry ran = record {
  action = record a { status = s };
  entry = entry;
  ran = ran;
  rolled_back = false;
  reply = ok s;
}

refused : VoiceAction → Status → Option Entry → Result Status → Verdict
refused a s entry reply = record {
  action = record a { status = s };
  entry = entry;
  ran = false;
  rolled_back = false;
  reply = reply;
}

-- what is left of a call: the row as it was before the request, and as it is when the tool is called
called : Ending → VoiceAction → VoiceAction → Verdict
unfolding with_status
called returned row a = with_status a executed (some executed_entry) true
called problem row a = with_status a failed (some failed_entry) true
called (crashed true) row a = record {
  action = record a { status = confirmed };
  entry = none;
  ran = true;
  rolled_back = false;
  reply = err internal;
}
called (crashed false) row a = record {
  action = row;
  entry = none;
  ran = true;
  rolled_back = true;
  reply = err internal;
}

-- from the validation on
pub execute : World → ℕ → Ending → VoiceAction → VoiceAction → Verdict
unfolding with_status called
execute world now ending row a =
    if is_empty (validate world now a)
    then called ending row a
    else with_status a rejected (some rejected_entry) false

pub decide : Setup → World → String → Option String → ℕ → Ending → VoiceAction → Verdict
unfolding refused
decide setup world sub pin now ending a =
    if not (is_pending a.status)
    then refused a a.status none (err conflict)
    else if is_expired now a.expires_at
    then refused a expired none (err conflict)
    else if not (needs_second_factor a.tier)
    then execute world now ending a a
    else if not setup.allow_t3
    then refused a rejected none (err forbidden)
    else if not (second_factor_ok setup sub pin)
    then refused (record a { second_factor_ok = some false }) rejected (some second_factor_failed)
        (err forbidden)
    else execute world now ending a (record a { second_factor_ok = some true })

pub find : ℕ → List VoiceAction → Option VoiceAction
find i [] = none
find i (a ∷ l) = if a.id == i then some a else find i l

-- the row of the action's id becomes the action
pub save : VoiceAction → List VoiceAction → List VoiceAction
save a [] = []
save a (x ∷ l) = if x.id == a.id then a ∷ l else x ∷ save a l

log_entry : Option Entry → ℕ → List (Entry × ℕ) → List (Entry × ℕ)
log_entry none id audit = audit
log_entry (some e) id audit = audit ++ (e, id) ∷ []

-- the row, the audit and the run of a verdict on an action
pub settle : Verdict → ℕ → Store → Store
unfolding log_entry
settle v id s = record s {
  actions = save v.action s.actions;
  audit = log_entry v.entry id s.audit;
  ran = if v.ran then s.ran ++ id ∷ [] else s.ran;
  repeatable = if v.rolled_back then s.repeatable ++ id ∷ [] else s.repeatable;
}

pub confirm_row :
    Setup
    → World
    → String
    → Option String
    → ℕ
    → Ending
    → Store
    → Option VoiceAction
    → Store × Result Status
confirm_row setup world sub pin now ending s none = (s, err not_found)
confirm_row setup world sub pin now ending s (some a) =
    let v = decide setup world sub pin now ending a in (settle v a.id s, v.reply)

pub confirm :
    Setup → World → String → ℕ → Option String → ℕ → Ending → Store → Store × Result Status
confirm setup world sub action_id pin now ending s =
    confirm_row setup world sub pin now ending s (find action_id s.actions)

pub cancel_row : Store → Option VoiceAction → Store × Result Status
unfolding refused with_status
cancel_row s none = (s, err not_found)
cancel_row s (some a) =
    if is_pending a.status
    then (settle (with_status a cancelled (some cancelled_entry) false) a.id s, ok cancelled)
    else (s, err conflict)

pub cancel : ℕ → Store → Store × Result Status
cancel action_id s = cancel_row s (find action_id s.actions)

abbrev pub confirm_window : ℕ
confirm_window = 10000000

-- what a read-back is asked for: the session, the tool, its parameters and its tier
pub record Request : Type 0 where
  pub session_id : ℕ
  pub tool : String
  pub params : Params
  pub tier : Tier

-- the branch of `handle` that reads back; other tiers run at once, without a pending action
pub read_back : Setup → Request → ℕ → Store → Store
read_back setup r now s =
    if not (needs_confirmation r.tier)
    then s
    else if needs_second_factor r.tier && not setup.allow_t3
    then s
    else record s {
      actions =
          s.actions
          ++ record {
            id = s.next_id;
            session_id = r.session_id;
            tool = r.tool;
            params = r.params;
            tier = r.tier;
            status = pending;
            second_factor_ok = none;
            expires_at = some (now + confirm_window);
            created_at = now;
          }
            ∷ [];
      next_id = suc s.next_id;
      audit = s.audit ++ (read_back_entry, s.next_id) ∷ [];
    }

-- the UPDATE of `expire_stale`
pub expire_stale : ℕ → List VoiceAction → List VoiceAction
expire_stale now [] = []
expire_stale now (a ∷ l) =
    (if is_pending a.status && is_expired now a.expires_at
      then record a { status = expired }
      else a)
    ∷ expire_stale now l

-- `expires_at > now` is false of a NULL
is_open_for : ℕ → ℕ → VoiceAction → Bool
is_open_for session_id now a =
    (a.session_id == session_id)
    && (is_pending a.status && elim a.expires_at [ none ↦ false | some t ↦ ltb now t ])

newest : VoiceAction → Option VoiceAction → Option VoiceAction
newest a none = some a
newest a (some b) = if leb a.created_at b.created_at then some b else some a

-- the newest; of two of one time, the one that was inserted last
pub pending_for_session : ℕ → ℕ → List VoiceAction → Option VoiceAction
unfolding is_open_for newest
pending_for_session session_id now [] = none
pending_for_session session_id now (a ∷ l) =
    let later = pending_for_session session_id now l in
    if is_open_for session_id now a then newest a later else later

pub data Control : Type 0 where
  say_confirm say_cancel : Control

-- with the store before the request as well: a roll-back takes back what the request has flushed
pub control_row :
    Setup
    → World
    → String
    → Control
    → ℕ
    → Ending
    → Store
    → Store
    → Option VoiceAction
    → Store × Result Status
control_row setup world sub c now ending before s none = (s, err not_found)
control_row setup world sub say_confirm now ending before s (some a) =
    if (decide setup world sub none now ending a).rolled_back
    then confirm setup world sub a.id none now ending before
    else confirm setup world sub a.id none now ending s
control_row setup world sub say_cancel now ending before s (some a) = cancel a.id s

-- `_handle_control` after `expire_stale`; when nothing waits, the answer is a text, and here not_found
pub handle_control :
    Setup → World → String → ℕ → Control → ℕ → Ending → Store → Store × Result Status
handle_control setup world sub session_id c now ending s =
    let s' = record s { actions = expire_stale now s.actions } in
    control_row setup world sub c now ending s s' (pending_for_session session_id now s'.actions)
