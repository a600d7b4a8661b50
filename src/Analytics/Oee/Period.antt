-- ===== src/Analytics/Oee/Period.antt =====
-- The durations of the events of a period fill it once.
use text.Mathlib.TextEquality.{eq_iff}
use mathlib.Core.Path.{subst}
use digital_twin.Prelude.{
  ℕ, ◌+◌, ◌-◌, ◌≤◌, min, max, String, Bool, true, not, List, [], ◌∷◌, ltb, leb, ◌≡◌, refl, sym, ap,
  ◌∙◌, arith, if◌then◌else◌, Bool-cases, inl, inr,
}
use digital_twin.Analytics.Oee.{
  Event, StateDuration, insert_by_time, order_by_time, next_time, clipped, durations_from_events,
  time_in, is_running, is_planned,
}

-- the time of the earliest of some events
pub earliest : Event → List Event → ℕ
earliest e [] = e.at
earliest e (x ∷ xs) = min e.at (earliest x xs)

pub all_time : List StateDuration → ℕ
all_time [] = 0
all_time (d ∷ ds) = d.seconds + all_time ds

-- no event comes before a time, and each no later than the next
Ascends : ℕ → List Event → Type 0
Ascends t [] = Unit
Ascends t (e ∷ es) = (t ≤ e.at) × Ascends e.at es

insert-Ascends :
    (t : ℕ) (e : Event) (l : List Event) → t ≤ e.at → Ascends t l → Ascends t (insert_by_time e l)
unfolding Ascends insert_by_time
insert-Ascends t e [] h a = (h, tt)
insert-Ascends t e (x ∷ xs) h a = elim (Bool-cases (leb e.at x.at)) [
  | inl q ↦ rw (q, insert_by_time) (h, (ground (arith, q), a.1))
  | inr q ↦ rw (q, insert_by_time) (a.0, insert-Ascends x.at e xs (ground (arith, q)) a.1)
]

order-Ascends : (l : List Event) → Ascends 0 (order_by_time l)
unfolding order_by_time Ascends
order-Ascends [] = tt
order-Ascends (e ∷ es) = insert-Ascends 0 e (order_by_time es) (omega arith) (order-Ascends es)

insert-next :
    (e : Event) (l : List Event) (d : ℕ)
    → next_time (insert_by_time e l) d ≡ min e.at (next_time l e.at)
unfolding insert_by_time next_time
insert-next e [] d = omega arith
insert-next e (x ∷ xs) d = elim (Bool-cases (leb e.at x.at)) [
  | inl q ↦ rw (q, insert_by_time) (ground (arith, q))
  | inr q ↦ rw (q, insert_by_time) (ground (arith, q))
]

order-next :
    (e : Event) (l : List Event) (d : ℕ) → next_time (order_by_time (e ∷ l)) d ≡ earliest e l
unfolding order_by_time earliest next_time insert_by_time
order-next e [] d = refl
order-next e (x ∷ xs) d =
    insert-next e (order_by_time (x ∷ xs)) d ∙ ap (min e.at) (order-next x xs e.at)

clip_time :
    (start end : ℕ) (d : StateDuration) (rest : List StateDuration)
    → d.seconds ≡ end - start
    → all_time (if ltb start end then d ∷ rest else rest) ≡ (end - start) + all_time rest
unfolding all_time
clip_time start end d rest h = ground arith

clipped-all_time :
    (t : ℕ) (l : List Event) (s d : ℕ)
    → Ascends t l
    → all_time (clipped l s d) ≡ d - max (next_time l d) s
unfolding clipped all_time Ascends next_time
clipped-all_time t [] s d a = omega arith
clipped-all_time t (e ∷ []) s d a = clip_time (max e.at s) (min d d) _ [] refl ∙ omega arith
clipped-all_time t (e ∷ x ∷ xs) s d a =
    clip_time (max e.at s) (min x.at d) _ (clipped (x ∷ xs) s d) refl
    ∙ omega (arith, clipped-all_time e.at (x ∷ xs) s d a.1, a.1.0)

time_in-split :
    (p : String → Bool) (ds : List StateDuration)
    → time_in p ds + time_in (λ s. not (p s)) ds ≡ all_time ds
unfolding time_in all_time
time_in-split p [] = refl
time_in-split p (d ∷ ds) = ground (arith, time_in-split p ds)

time_in-le :
    (p q : String → Bool) (ds : List StateDuration)
    → ((s : String) → p s ≡ true → q s ≡ true)
    → time_in p ds ≤ time_in q ds
unfolding time_in
time_in-le p q [] h = omega arith
time_in-le p q (d ∷ ds) h = ground (arith, time_in-le p q ds h, h d.state)

running-is_planned : (s : String) → is_running s ≡ true → is_planned s ≡ true
running-is_planned s h = subst (λ u. is_planned u ≡ true) (sym ((eq_iff s "RUNNING").0 h)) refl

-- For any events, in any order, of which there is one: the durations of a period fill it exactly
-- once, from the earliest event, or the start of the period where that is later, to its end. So
-- planned time and maintenance add up to it, and the running time is at most the planned time.
pub durations_fill_period :
    (e : Event) (es : List Event) (s d : ℕ)
    → (all_time (durations_from_events (e ∷ es) s d) ≡ d - max (earliest e es) s)
      × (time_in is_planned (durations_from_events (e ∷ es) s d)
            + time_in (λ x. not (is_planned x)) (durations_from_events (e ∷ es) s d)
          ≡ d - max (earliest e es) s)
      × (time_in is_running (durations_from_events (e ∷ es) s d)
          ≤ time_in is_planned (durations_from_events (e ∷ es) s d))
unfolding durations_from_events
durations_fill_period e es s d =
    let l = order_by_time (e ∷ es) in
    let filled =
      clipped-all_time 0 l s d (order-Ascends (e ∷ es))
      ∙ ap (λ t. d - max t s) (order-next e es d) in
    (
      filled,
      time_in-split is_planned (clipped l s d) ∙ filled,
      time_in-le is_running is_planned (clipped l s d) running-is_planned,
    )
