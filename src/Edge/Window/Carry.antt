-- ===== src/Edge/Window/Carry.antt =====
-- The readings that a sample carries forward.
use text.Mathlib.Text.{◌==◌ as str_eq}
use text.Mathlib.TextEquality.{eq_iff}
use digital_twin.Prelude.{
  String, Bool, true, false, Option, none, some, List, [], ◌∷◌, ◌||◌, ◌≡◌, refl, ◌∙◌, arith,
  if◌then◌else◌,
}
use digital_twin.Edge.Window.{Readings, store, carry, is_some, any_known}

abbrev pub contains : List String → String → Bool
contains [] n = false
contains (c ∷ cols) n = str_eq n c || contains cols n

module _ {F : Type 0} where
  abbrev pub or_else : Option F → Option F → Option F
  or_else none o = o
  or_else (some v) o = some v

  store_lem :
      (c : String) (o : Option F) (last : Readings F) (n : String)
      → store c o last n ≡ (if str_eq n c then or_else o (last n) else last n)
  unfolding store
  store_lem c none last n = ground arith
  store_lem c (some v) last n = refl

  -- The reading kept for a sensor is the sample's if it has one, else the last good one. What is
  -- not a sensor of the model is left as it was.
  pub carry_lem :
      (cols : List String) (metrics last : Readings F) (n : String)
      → carry cols metrics last n
        ≡ (if contains cols n then or_else (metrics n) (last n) else last n)
  unfolding carry store
  carry_lem [] metrics last n = refl
  carry_lem (c ∷ cols) metrics last n =
      carry_lem cols metrics (store c (metrics c) last) n
      ∙ ground (arith, store_lem c (metrics c) last n, eq_iff n c)

  is_some-or_else : (a b : Option F) → is_some b ≡ true → is_some (or_else a b) ≡ true
  is_some-or_else none b h = h
  is_some-or_else (some v) b h = refl

  is_some-carry :
      (cols : List String) (metrics last : Readings F) (n : String)
      → is_some (last n) ≡ true
      → is_some (carry cols metrics last n) ≡ true
  is_some-carry cols metrics last n h =
      rw carry_lem (ground (arith, is_some-or_else (metrics n) (last n)))

  pub any_known-carry :
      (l cols : List String) (metrics last : Readings F)
      → any_known l last ≡ true
      → any_known l (carry cols metrics last) ≡ true
  unfolding any_known
  any_known-carry [] cols metrics last h = h
  any_known-carry (n ∷ l) cols metrics last h =
      ground (arith, is_some-carry cols metrics last n, any_known-carry l cols metrics last)
