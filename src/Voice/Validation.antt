-- ===== src/Voice/Validation.antt =====
-- apps/api/app/modules/voice/service.py: the row of a `VoiceAction` and `_validate`, which checks its
-- parameters against the rows there are when it is confirmed.
use text.Mathlib.Text.{◌==◌ as str_eq}
use digital_twin.Prelude.{
  ℕ, String, Bool, false, not, Option, none, some, List, [], ◌∷◌, ◌++◌, ltb, leb, ◌&&◌, ◌||◌,
  is_empty, if◌then◌else◌,
}
use digital_twin.Telemetry.Alarms
use digital_twin.Telemetry.Alarms.{is_active}

pub data Tier : Type 0 where
  t0 t1 t2 t3 : Tier

pub data Status : Type 0 where
  pending confirmed cancelled expired executed failed rejected : Status

-- the parameters that `_validate` reads
pub record Params : Type 0 where
  pub asset_id : Option ℕ
  pub when : Option ℕ
  pub planned_start : Option ℕ
  pub technician_id : Option ℕ
  pub alarm_id : Option ℕ

pub record VoiceAction : Type 0 where
  pub id : ℕ
  pub session_id : ℕ
  pub tool : String
  pub params : Params
  pub tier : Tier
  pub status : Status
  pub second_factor_ok : Option Bool
  pub expires_at : Option ℕ
  pub created_at : ℕ

-- a row of `technician_availability`
pub record Window : Type 0 where
  pub is_available : Bool
  pub starts_at : ℕ
  pub ends_at : ℕ

-- the rows of other tables, as they are when an action is confirmed; a row that is missing or deleted
-- is not registered
pub record World : Type 0 where
  pub asset_registered : ℕ → Bool
  pub technician_registered : ℕ → Bool
  pub windows : ℕ → List Window
  pub alarm_status : ℕ → Option Alarms.Status

any_open : ℕ → List Window → Bool
any_open at [] = false
any_open at (w ∷ ws) =
    (w.is_available && (leb w.starts_at at && ltb at w.ends_at)) || any_open at ws

pub technician_available : World → ℕ → ℕ → Bool
unfolding any_open
technician_available world technician_id at =
    world.technician_registered technician_id
    && (any_open at (world.windows technician_id) || is_empty (world.windows technician_id))

pub data Error : Type 0 where
  asset_error when_error technician_error alarm_error : Error

-- `params.get("when") or params.get("planned_start")`
when_of : Option ℕ → Option ℕ → Option ℕ
when_of (some t) o = some t
when_of none o = o

error_if : Bool → Error → List Error
error_if b e = if b then e ∷ [] else []

asset_errors : World → Option ℕ → List Error
asset_errors world none = []
asset_errors world (some a) = error_if (not (world.asset_registered a)) asset_error

when_errors : ℕ → Option ℕ → List Error
when_errors now none = []
when_errors now (some t) = error_if (leb t now) when_error

technician_errors : World → Option ℕ → Option ℕ → List Error
technician_errors world (some technician) (some t) =
    error_if (not (technician_available world technician t)) technician_error
technician_errors world _ _ = []

is_open : Option Alarms.Status → Bool
is_open none = false
is_open (some status) = is_active status

alarm_errors : World → String → Option ℕ → List Error
alarm_errors world tool none = []
alarm_errors world tool (some alarm) =
    error_if (str_eq tool "acknowledge_alarm" && not (is_open (world.alarm_status alarm)))
      alarm_error

unfoldable pub validate : World → ℕ → VoiceAction → List Error
unfolding when_of error_if asset_errors when_errors technician_errors is_open alarm_errors
validate world now a =
    let when = when_of a.params.when a.params.planned_start in
    asset_errors world a.params.asset_id
    ++ (when_errors now when
        ++ (technician_errors world a.params.technician_id when
            ++ alarm_errors world a.tool a.params.alarm_id))
