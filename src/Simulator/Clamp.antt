-- ===== src/Simulator/Clamp.antt =====
-- Python's `min` and `max` of floats, and what a value that is cut to a range satisfies.
use digital_twin.Prelude.{false, if◌then◌else◌, ◌≡◌, if_ind}
use digital_twin.Prelude.Floats.{Floats}

module _ (fl : Floats) where
  -- max and min of Python: the first argument unless the second is beyond it
  unfoldable pub fmax : fl.F → fl.F → fl.F
  fmax a b = if fl.lt a b then b else a

  unfoldable pub fmin : fl.F → fl.F → fl.F
  fmin a b = if fl.lt b a then b else a

  -- neither below the range nor above it
  abbrev pub Within : fl.F → fl.F → fl.F → Type 0
  Within low high x = (fl.lt x low ≡ false) × (fl.lt high x ≡ false)

  fmax-low : (low x : fl.F) → fl.lt low low ≡ false → fl.lt (fmax x low) low ≡ false
  unfolding fmax
  fmax-low low x h = if_ind (λ y. fl.lt y low ≡ false) (fl.lt x low) low x (λ e. h) (λ e. e)

  pub clamp-Within :
      (low high x : fl.F)
      → fl.lt low low ≡ false
      → fl.lt high high ≡ false
      → fl.lt high low ≡ false
      → Within low high (fmin (fmax x low) high)
  unfolding fmin
  clamp-Within low high x l h o =
      if_ind (Within low high) (fl.lt high (fmax x low)) high (fmax x low) (λ e. (o, h))
        (λ e. (fmax-low low x l, e))
