-- ===== src/Edge/Window.antt =====
-- apps/edge/edge/features.py: `RollingWindow`, the samples of one asset. A reading is of an abstract
-- type `F` with the value `zero_f` for 0.0; a metric that is missing and one that is None are both
-- `none`. `vector` calls numpy, pandas and `build_features`, and is not modelled.
pub mod Schedule
pub mod Carry
use text.Mathlib.Text.{◌==◌ as str_eq}
use digital_twin.Prelude.{
  ℕ, suc, ◌+◌, ◌-◌, String, Bool, true, false, Option, none, some, List, [], ◌∷◌, ◌++◌, map, length,
  drop, leb, ◌==◌, ◌&&◌, ◌||◌, if◌then◌else◌,
}

-- the part of `FeatureSpec` that the window reads
pub record FeatureSpec : Type 0 where
  pub window_size : ℕ
  pub stride : ℕ
  pub sensor_cols : List String

-- a deque with maxlen: the oldest items leave
unfoldable pub push {ℓ} : {A : Type ℓ} → ℕ → A → List A → List A
push maxlen x xs = drop (suc (length xs) - maxlen) (xs ++ x ∷ [])

-- a dictionary of readings, such as `_last`
abbrev pub Readings : Type 0 → Type 0
Readings F = String → Option F

module _ {F : Type 0} where
  unfoldable pub store : String → Option F → Readings F → Readings F
  store name none last = last
  store name (some v) last = λ n. if str_eq n name then some v else last n

  -- `for name in sensor_cols`
  unfoldable pub carry : List String → Readings F → Readings F → Readings F
  carry [] metrics last = last
  carry (name ∷ cols) metrics last = carry cols metrics (store name (metrics name) last)

  abbrev pub is_some : Option F → Bool
  is_some none = false
  is_some (some v) = true

  unfoldable pub any_known : List String → Readings F → Bool
  any_known [] last = false
  any_known (name ∷ cols) last = is_some (last name) || any_known cols last

  abbrev pub or_zero : F → Option F → F
  or_zero z none = z
  or_zero z (some v) = v

pub record Window (F : Type 0) : Type 0 where
  pub rows : List (ℕ × List (String × F))
  pub last : Readings F
  pub since_emit : ℕ

abbrev pub fresh : {F : Type 0} → Window F
fresh = record { rows = []; last = λ n. none; since_emit = 0 }

module _ {F : Type 0} (zero_f : F) (spec : FeatureSpec) where
  unfoldable pub row_of : Readings F → List (String × F)
  row_of last = map (λ name. (name, or_zero zero_f (last name))) spec.sensor_cols

  -- the window with the sample in it, before the test for a due score
  unfoldable pub append : ℕ → Readings F → Window F → Window F
  append time last w = record {
    rows = push spec.window_size (time, row_of last) w.rows;
    last = last;
    since_emit = w.since_emit + 1;
  }

  unfoldable pub is_due : Window F → Bool
  is_due w = (length w.rows == spec.window_size) && leb spec.stride w.since_emit

  -- `add`
  unfoldable pub add : ℕ → Readings F → Window F → Bool × Window F
  add time metrics w =
      let last = carry spec.sensor_cols metrics w.last in
      if any_known spec.sensor_cols last
      then (let w' = append time last w in
          if is_due w' then (true, record w' { since_emit = 0 }) else (false, w'))
      else (false, record w { last = last })
