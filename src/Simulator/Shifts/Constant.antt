-- ===== src/Simulator/Shifts/Constant.antt =====
-- The shift of the calendar between two changes.
use digital_twin.Prelude.{
  ℕ, zero, suc, ◌+◌, ◌-◌, ◌*◌, ◌<◌, ◌≤◌, ◌⊎◌, ◌%◌, ◌≡◌, refl, sym, ap, ◌∙◌, arith, Option, none,
  some, List, [], ◌∷◌, ◌++◌, inl, inr, Bool-cases, All, append_assoc,
}
use digital_twin.Simulator.Shifts.{
  ShiftSpec, ShiftCalendar, Instance, one_day, search_days, day_of, is_in, instances, covers,
  first_covering, covering, next_edge,
}
use digital_twin.Simulator.Shifts.Edges.{
  IsTimes, Within, instances-Within, next_edge-NoEdge, next_edge-bound, first_covering-same,
}

instances-add :
    (c : ShiftCalendar) (a k m : ℕ)
    → instances c a (k + m) ≡ instances c a k ++ instances c (a + k) m
unfolding instances
instances-add c a zero m =
    let e : a + 0 ≡ a = omega arith in let z : 0 + m ≡ m = omega arith in simp (e, z)
instances-add c a (suc k) m =
    let e : suc a + k ≡ a + suc k = omega arith in
    let z : suc k + m ≡ suc (k + m) = omega arith in
    let ih : instances c (suc a) (k + m) ≡ instances c (suc a) k ++ instances c (a + suc k) m =
      instances-add c (suc a) k m ∙ ap (λ d. instances c (suc a) k ++ instances c d m) e in
    elim (Bool-cases (is_in (a % 7) c.working_days)) [
      | inl w ↦ simp (z, w, ih, append_assoc)
      | inr w ↦ simp (z, w, ih)
    ]

covers_none :
    (a b x : ℕ) (is : List Instance)
    → All (Within a b) is
    → (x < one_day * a) ⊎ (one_day * b + one_day ≤ x)
    → first_covering is x ≡ none
unfolding first_covering covers
covers_none a b x [] h l = refl
covers_none a b x (i ∷ is) (h, hs) l = ground (arith, h, covers_none a b x is hs l)

or_else : Option ShiftSpec → Option ShiftSpec → Option ShiftSpec
or_else none y = y
or_else (some s) y = some s

or_else-none : (x : Option ShiftSpec) → or_else x none ≡ x
unfolding or_else
or_else-none none = refl
or_else-none (some s) = refl

first_covering-append :
    (is js : List Instance) (x : ℕ)
    → first_covering (is ++ js) x ≡ or_else (first_covering is x) (first_covering js x)
unfolding first_covering or_else
first_covering-append [] js x = refl
first_covering-append (i ∷ is) js x = elim (Bool-cases (covers i x)) [
  | inl e ↦ simp e
  | inr e ↦ simp (e, first_covering-append is js x)
]

-- `active` finds the first occurrence that covers a time on any days around it.
around :
    (c : ShiftCalendar) (k m x : ℕ)
    → All IsTimes c.shifts
    → k < day_of x
    → first_covering (instances c (day_of x - 1 - k) (k + (2 + m))) x ≡ covering c x
unfolding covering day_of or_else
around c k m x h l =
    let a : ℕ = day_of x - 1 - k in
    let e : a + k ≡ day_of x - 1 = omega arith in
    ap (λ is. first_covering is x)
      (instances-add c a k (2 + m) ∙ ap (λ is. instances c a k ++ is) (instances-add c (a + k) 2 m))
    ∙ first_covering-append (instances c a k) _ x
    ∙ ap (λ y. or_else y (first_covering (instances c (a + k) 2 ++ instances c (a + k + 2) m) x))
        (covers_none a (a + k) x _ (instances-Within c h a k) (inr (omega arith)))
    ∙ first_covering-append (instances c (a + k) 2) _ x
    ∙ ap (or_else (first_covering (instances c (a + k) 2) x)) (
        covers_none (a + k + 2) (a + k + 2 + m) x _ (instances-Within c h (a + k + 2) m)
          (inl (omega arith)))
    ∙ or_else-none _
    ∙ ap (λ d. first_covering (instances c d 2) x) e

same_as_window :
    (c : ShiftCalendar) (t x : ℕ)
    → All IsTimes c.shifts
    → one_day ≤ t
    → t ≤ x
    → x < one_day * (day_of t - 1 + search_days)
    → first_covering (instances c (day_of t - 1) search_days) x ≡ covering c x
unfolding day_of
same_as_window c t x h l le lt =
    let k : ℕ = day_of x - day_of t in
    let e : day_of t - 1 ≡ day_of x - 1 - k = omega arith in
    let f : search_days ≡ k + (2 + (search_days - 2 - k)) = omega arith in
    ap (λ a. first_covering (instances c a search_days) x) e
    ∙ ap (λ n. first_covering (instances c (day_of x - 1 - k) n) x) f
    ∙ around c k (search_days - 2 - k) x h (omega arith)

-- For a calendar whose shifts begin and end at times of the day, and for a time at least a day
-- after the first: the shift that is active at the time stays the active one until the next change,
-- also across days off and midnights.
pub active_until_change :
    (c : ShiftCalendar) (t u : ℕ)
    → All IsTimes c.shifts
    → one_day ≤ t
    → t ≤ u
    → u < next_edge c t
    → covering c u ≡ covering c t
active_until_change c t u h l le lt =
    let b : next_edge c t ≤ one_day * (day_of t - 1 + search_days) = next_edge-bound c t h in
    let is : List Instance = instances c (day_of t - 1) search_days in
    sym (same_as_window c t u h l le (omega arith))
    ∙ first_covering-same (day_of t - 1) (day_of t - 1 + search_days) t u is le
        (instances-Within c h (day_of t - 1) search_days) (next_edge-NoEdge c t u lt)
    ∙ same_as_window c t t h l (omega arith) (omega arith)
