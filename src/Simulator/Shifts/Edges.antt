-- ===== src/Simulator/Shifts/Edges.antt =====
-- Between a time and the next change of shift, no shift begins or ends.
use digital_twin.Prelude.{
  ℕ, zero, suc, ◌+◌, ◌-◌, ◌*◌, ◌<◌, ◌≤◌, ◌%◌, ◌≡◌, refl, arith, List, [], ◌∷◌, ◌++◌, inl, inr, ltb,
  ltb→lt, if_ind, Bool-cases, All, if◌then◌else◌,
}
use digital_twin.Simulator.Shifts.{
  ShiftSpec, ShiftCalendar, Instance, one_day, search_days, day_of, is_in, instance_on,
  instances_on, instances, covers, first_covering, if_later, boundaries, least, least_or, next_edge,
}

-- a time of the day
abbrev pub IsTimes : ShiftSpec → Type 0
IsTimes s = (s.start < one_day) × (s.end < one_day)

-- an occurrence that begins on one of the days from a up to b, and ends within a day
abbrev pub Within : ℕ → ℕ → Instance → Type 0
Within a b i =
    (one_day * a ≤ i.start)
    × (i.start < one_day * b)
    × (i.start < i.end)
    × (i.end ≤ i.start + one_day)

Within-wider :
    (a a' b b' : ℕ) (is : List Instance)
    → a' ≤ a
    → b ≤ b'
    → All (Within a b) is
    → All (Within a' b') is
Within-wider a a' b b' [] ha hb h = tt
Within-wider a a' b b' (i ∷ is) ha hb (h, hs) =
    (omega (arith, h), Within-wider a a' b b' is ha hb hs)

Within-append :
    (a b : ℕ) (is js : List Instance)
    → All (Within a b) is
    → All (Within a b) js
    → All (Within a b) (is ++ js)
Within-append a b [] js h k = k
Within-append a b (i ∷ is) js (h, hs) k = (h, Within-append a b is js hs k)

instance_on-Within : (d : ℕ) (s : ShiftSpec) → IsTimes s → Within d (suc d) (instance_on d s)
unfolding instance_on
instance_on-Within d s h = ground arith

instances_on-Within :
    (d : ℕ) (ss : List ShiftSpec) → All IsTimes ss → All (Within d (suc d)) (instances_on d ss)
unfolding instances_on
instances_on-Within d [] h = tt
instances_on-Within d (s ∷ ss) (h, hs) = (instance_on-Within d s h, instances_on-Within d ss hs)

pub instances-Within :
    (c : ShiftCalendar)
    → All IsTimes c.shifts
    → (d n : ℕ) → All (Within d (d + n)) (instances c d n)
unfolding instances
instances-Within c h d zero = tt
instances-Within c h d (suc n) =
    let rest : All (Within d (d + suc n)) (instances c (suc d) n) =
      Within-wider (suc d) d (suc d + n) (d + suc n) _ (omega arith) (omega arith)
        (instances-Within c h (suc d) n) in
    elim (Bool-cases (is_in (d % 7) c.working_days)) [
      | inl e ↦ rw e (
          Within-append d (d + suc n) (instances_on d c.shifts) _
            (Within-wider d d (suc d) (d + suc n) _ (omega arith) (omega arith)
              (instances_on-Within d c.shifts h))
            rest)
      | inr e ↦ rw e rest
    ]

least-le : (x : ℕ) (ys : List ℕ) → (least x ys ≤ x) × All (λ y. least x ys ≤ y) ys
unfolding least
least-le x [] = omega arith
least-le x (y ∷ ys) =
    let (h, hs) = least-le (if ltb y x then y else x) ys in
    elim (Bool-cases (ltb y x)) [
      | inl e ↦ (ground (arith, h, e), (ground (arith, h, e), hs))
      | inr e ↦ (ground (arith, h, e), (ground (arith, h, e), hs))
    ]

least_or-le : (d : ℕ) (ys : List ℕ) → All (λ y. least_or d ys ≤ y) ys
unfolding least_or
least_or-le d [] = tt
least_or-le d (x ∷ xs) = least-le x xs

-- Every edge after t comes after u.
abbrev pub NoEdge : ℕ → ℕ → Instance → Type 0
NoEdge t u i = (t < i.start → u < i.start) × (t < i.end → u < i.end)

kept :
    (t u e : ℕ) (es : List ℕ)
    → All (λ x. u < x) (if_later t e es)
    → (t < e → u < e) × All (λ x. u < x) es
unfolding if_later
kept t u e es h = elim (Bool-cases (ltb t e)) [
  | inl eq ↦ (let g : All (λ x. u < x) (e ∷ es) = rw eq at h in (λ _. g.0, g.1))
  | inr eq ↦ (λ l. absurd (ground (arith, l, eq)), rw eq at h)
]

no_edges : (t u : ℕ) (is : List Instance) → All (λ x. u < x) (boundaries is t) → All (NoEdge t u) is
unfolding boundaries
no_edges t u [] h = tt
no_edges t u (i ∷ is) h =
    let (a, h') = kept t u i.start (if_later t i.end (boundaries is t)) h in
    let (b, h'') = kept t u i.end (boundaries is t) h' in ((a, b), no_edges t u is h'')

All-lt : (u n : ℕ) (es : List ℕ) → u < n → All (λ x. n ≤ x) es → All (λ x. u < x) es
All-lt u n [] l h = tt
All-lt u n (e ∷ es) l (h, hs) = (omega arith, All-lt u n es l hs)

-- Before the next change no edge of the occurrences that next_change looks at has passed.
pub next_edge-NoEdge :
    (c : ShiftCalendar) (t u : ℕ)
    → u < next_edge c t
    → All (NoEdge t u) (instances c (day_of t - 1) search_days)
unfolding next_edge
next_edge-NoEdge c t u l =
    no_edges t u _ (All-lt u _ _ l (least_or-le (t + one_day) (boundaries _ t)))

-- Without an edge in between, the same occurrence is the first to cover t and u.
pub first_covering-same :
    (a b t u : ℕ) (is : List Instance)
    → t ≤ u
    → All (Within a b) is
    → All (NoEdge t u) is
    → first_covering is u ≡ first_covering is t
unfolding first_covering covers
first_covering-same a b t u [] l w h = refl
first_covering-same a b t u (i ∷ is) l (w, ws) (h, hs) =
    ground (arith, w, h.0, h.1, first_covering-same a b t u is l ws hs)

-- The next change is not after the last day that next_change looks at.
least_or-bound :
    (a b t d : ℕ) (is : List Instance)
    → t + one_day ≤ one_day * b
    → d ≤ one_day * b
    → All (Within a b) is
    → least_or d (boundaries is t) ≤ one_day * b
unfolding boundaries if_later least_or
least_or-bound a b t d [] l m h = m
least_or-bound a b t d (i ∷ is) l m (h, hs) = elim (Bool-cases (ltb t i.start)) [
  | inl e ↦
      rw e (omega (arith, h, (least_or-le d (i.start ∷ if_later t i.end (boundaries is t))).0))
  | inr e ↦ rw e (elim (Bool-cases (ltb t i.end)) [
    | inl e' ↦ rw e' (ground (arith, h, e, (least_or-le d (i.end ∷ boundaries is t)).0))
    | inr e' ↦ rw e' (least_or-bound a b t d is l m hs)
  ])
]

pub next_edge-bound :
    (c : ShiftCalendar) (t : ℕ)
    → All IsTimes c.shifts
    → next_edge c t ≤ one_day * (day_of t - 1 + search_days)
unfolding next_edge day_of
next_edge-bound c t h =
    least_or-bound (day_of t - 1) (day_of t - 1 + search_days) t (t + one_day) _ (omega arith)
      (omega arith) (instances-Within c h (day_of t - 1) search_days)

least-after : (t x : ℕ) (es : List ℕ) → t < x → All (λ e. t < e) es → t < least x es
unfolding least
least-after t x [] l h = l
least-after t x (e ∷ es) l (h, hs) = least-after t (if ltb e x then e else x) es (ground arith) hs

least_or-after : (t d : ℕ) (es : List ℕ) → t < d → All (λ e. t < e) es → t < least_or d es
unfolding least_or
least_or-after t d [] l h = l
least_or-after t d (e ∷ es) l (h, hs) = least-after t e es h hs

later_only : (t e : ℕ) (es : List ℕ) → All (λ x. t < x) es → All (λ x. t < x) (if_later t e es)
unfolding if_later
later_only t e es h =
    if_ind (All (λ x. t < x)) (ltb t e) (e ∷ es) es (λ l. (ltb→lt t e l, h)) (λ _. h)

boundaries-later : (t : ℕ) (is : List Instance) → All (λ x. t < x) (boundaries is t)
unfolding boundaries
boundaries-later t [] = tt
boundaries-later t (i ∷ is) = later_only t i.start _ (later_only t i.end _ (boundaries-later t is))

-- A change lies in the future.
pub next_edge-after : (c : ShiftCalendar) (t : ℕ) → t < next_edge c t
unfolding next_edge
next_edge-after c t =
    let is : List Instance = instances c (day_of t - 1) search_days in
    least_or-after t (t + one_day) (boundaries is t) (omega arith) (boundaries-later t is)
