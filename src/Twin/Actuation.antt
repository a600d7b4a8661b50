-- ===== src/Twin/Actuation.antt =====
-- `TwinService.send_command` of apps/api/app/modules/twin/service.py with `SecondFactor` of
-- core/security.py. What `execute` of the command gateway gives is an argument, as are the answers
-- of the identity provider and the clock; an answer is none where the HTTP call raises.
pub mod Guards
use digital_twin.Prelude.{
  ℕ, ◌+◌, String, Bool, true, false, Option, none, some, List, [], ◌∷◌, ◌++◌, ◌||◌, ltb,
  if◌then◌else◌,
}
use digital_twin.Prelude.Result.{
  Problem, not_found, forbidden, locked, service_unavailable, gateway_timeout, internal, Result, ok,
  err,
}
use text.Mathlib.Text.{◌==◌ as str_eq}

-- the service token and when it expires
abbrev pub Token : Type 0
Token = ℕ × ℕ

pub record Provider : Type 0 where
  -- the token endpoint: an access token and the seconds it is good for
  pub post : Option Token
  -- the attribute tv_pin of a user, as a service token reads it
  pub user : ℕ → String → Option (Option (List String))

-- a token that is good for more than ten seconds
pub cached : ℕ → Option Token → Option ℕ
cached now none = none
cached now (some (token, expires)) = if ltb (now + 10) expires then some token else none

-- `_service_token`: the token, if there is one, and the field `_token`; later is the time after the
-- answer
pub service_token : Provider → ℕ → ℕ → Option Token → Option ℕ × Option Token
unfolding cached
service_token http now later held = elim (cached now held) [
  | some token ↦ (some token, held)
  | none ↦ elim http.post [
    | none ↦ (none, held)
    | some (token, seconds) ↦ (some token, some (token, later + seconds))
  ]
]

-- bool(stored) and stored[0] == pin, for stored = attributes.get("tv_pin") or []
pub pin_matches : Option (List String) → String → Bool
pin_matches none pin = false
pin_matches (some []) pin = false
pin_matches (some (stored ∷ rest)) pin = str_eq stored pin

pub user_matches : Provider → Option ℕ → String → String → Result Bool
unfolding pin_matches
user_matches http none sub pin = err service_unavailable
user_matches http (some token) sub pin = elim (http.user token sub) [
  | none ↦ err service_unavailable
  | some stored ↦ ok (pin_matches stored pin)
]

-- `SecondFactor.verify`, with the field `_token`
pub verify : Provider → ℕ → ℕ → Option Token → String → String → Result Bool × Option Token
unfolding service_token user_matches
verify http now later held sub pin =
    let (token, held') = service_token http now later held in
    (user_matches http token sub pin, held')

-- an ack of the gateway, whose status may be missing
pub record Ack : Type 0 where
  pub status : Option String
  pub error : Option String

-- what `execute` does: it raises before anything is sent, or gives the id and the ack
pub data Executed : Type 0 where
  unsent : Executed
  sent : ℕ → Option Ack → Executed

pub record Audit : Type 0 where
  pub asset_id : ℕ
  pub command_id : ℕ
  pub status : String

pub record CommandRequest : Type 0 where
  pub command : String
  pub pin : Option String

-- the service's second factor, the calls of execute and the audit rows
pub record State : Type 0 where
  pub token : Option Token
  pub calls : List (ℕ × String)
  pub audits : List Audit

-- what a request meets
pub record World : Type 0 where
  pub allow_t3 : Bool
  pub asset_id : Option ℕ
  pub provider : Provider
  pub now : ℕ
  pub later : ℕ
  pub executed : Executed
  -- does the session commit?
  pub commits : Bool

-- ack["status"] if ack else "timeout"; none is a KeyError
pub outcome_of : Option Ack → Option String
outcome_of none = some "timeout"
outcome_of (some a) = a.status

-- the end of `send_command`: `CommandResult` takes two texts as status
pub reply : Option Ack → Result Ack
reply none = err gateway_timeout
reply (some a) = elim a.status [
  | none ↦ err internal
  | some status ↦
      if str_eq status "accepted" || str_eq status "rejected" then ok a else err internal
]

-- what follows on a command that was sent, from its outcome on
pub audited : World → ℕ → ℕ → Option Ack → Option String → State → State × Result Ack
unfolding reply
audited w asset id ack none s = (s, err internal)
audited w asset id ack (some status) s =
    if w.commits
    then (
      record s {
        audits = s.audits ++ record { asset_id = asset; command_id = id; status = status } ∷ [];
      },
      reply ack,
    )
    else (s, err internal)

-- `send_command` from the call of execute on
pub execute : World → ℕ → CommandRequest → State → State × Result Ack
unfolding outcome_of audited
execute w asset r s = elim w.executed [
  | unsent ↦ (s, err service_unavailable)
  | sent id ack ↦
      audited w asset id ack (outcome_of ack)
        (record s { calls = s.calls ++ (asset, r.command) ∷ [] })
]

-- what follows on the second factor
pub after_pin : World → ℕ → CommandRequest → State → Result Bool → State × Result Ack
unfolding execute
after_pin w asset r s (err problem) = (s, err problem)
after_pin w asset r s (ok false) = (s, err locked)
after_pin w asset r s (ok true) = execute w asset r s

-- not request.pin or not second_factor.verify(...): the field `_token` may change
pub with_pin : World → String → ℕ → CommandRequest → String → State → State × Result Ack
unfolding verify after_pin
with_pin w sub asset r pin s =
    if str_eq pin ""
    then (s, err locked)
    else (let (right, token) = verify w.provider w.now w.later s.token sub pin in
        after_pin w asset r (record s { token = token }) right)

pub send_command : World → String → CommandRequest → State → State × Result Ack
unfolding with_pin
send_command w sub r s =
    if w.allow_t3
    then elim w.asset_id [
      | none ↦ (s, err not_found)
      | some asset ↦ elim r.pin [ none ↦ (s, err locked) | some pin ↦ with_pin w sub asset r pin s ]
    ]
    else (s, err forbidden)
