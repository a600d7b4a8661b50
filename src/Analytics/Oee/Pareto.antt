-- ===== src/Analytics/Oee/Pareto.antt =====
-- The rows of the downtime chart account for the unplanned time.
use text.Mathlib.Text.{◌==◌ as str_eq}
use text.Mathlib.TextEquality.{eq_iff}
use mathlib.Core.Path.{subst}
use digital_twin.Prelude.{
  ℕ, zero, suc, ◌+◌, ◌≤◌, String, true, false, List, [], ◌∷◌, leb, ◌≡◌, refl, sym, ap, ◌∙◌, arith,
  ◌&&◌, take, if◌then◌else◌, Bool-cases, inl, inr,
}
use digital_twin.Analytics.Oee.{
  StateDuration, is_unplanned, cause_of, add_to, by_cause, sum_values, insert_descending,
  order_descending, Row, rows_from, downtime_pareto, time_in,
}

-- the unplanned time under a cause
pub time_of : String → List StateDuration → ℕ
time_of c [] = 0
time_of c (d ∷ ds) =
    (if is_unplanned d.state && str_eq (cause_of d.cause_code) c then d.seconds else 0)
    + time_of c ds

-- `d.get(c, 0.0)`
pub value : String → List (String × ℕ) → ℕ
value c [] = 0
value c ((k, n) ∷ d) = if str_eq k c then n else value c d

apart : (j k c : String) → str_eq j k ≡ false → str_eq j c ≡ true → str_eq k c ≡ false
apart j k c q a = elim (Bool-cases (str_eq k c)) [
  | inl b ↦
      let e : str_eq j k ≡ true = (eq_iff j k).1 ((eq_iff j c).0 a ∙ sym ((eq_iff k c).0 b)) in
      ground (arith, e, q)
  | inr b ↦ b
]

value-add_to :
    (c k : String) (n : ℕ) (d : List (String × ℕ))
    → value c (add_to k n d) ≡ value c d + (if str_eq k c then n else 0)
unfolding value add_to
value-add_to c k n [] = ground arith
value-add_to c k n ((j, m) ∷ d) = elim (Bool-cases (str_eq j k)) [
  | inl q ↦
      rw (q, add_to)
        (let e : str_eq j c ≡ str_eq k c = ap (λ x. str_eq x c) ((eq_iff j k).0 q) in
          rw e (ground arith))
  | inr q ↦ rw (q, add_to) (ground (arith, value-add_to c k n d, apart j k c q))
]

value-by_cause :
    (c : String) (ds : List StateDuration) (d : List (String × ℕ))
    → value c (by_cause ds d) ≡ value c d + time_of c ds
unfolding by_cause time_of
value-by_cause c [] d = omega arith
value-by_cause c (x ∷ xs) d = elim (Bool-cases (is_unplanned x.state)) [
  | inl q ↦ rw q (
      value-by_cause c xs (add_to (cause_of x.cause_code) x.seconds d)
      ∙ omega (arith, value-add_to c (cause_of x.cause_code) x.seconds d))
  | inr q ↦ rw q (value-by_cause c xs d ∙ omega arith)
]

value-causes : (c : String) (ds : List StateDuration) → value c (by_cause ds []) ≡ time_of c ds
unfolding value
value-causes c ds = value-by_cause c ds [] ∙ omega arith

sum-add_to :
    (k : String) (n : ℕ) (d : List (String × ℕ)) → sum_values (add_to k n d) ≡ sum_values d + n
unfolding sum_values add_to
sum-add_to k n [] = omega arith
sum-add_to k n ((j, m) ∷ d) = ground (arith, sum-add_to k n d)

sum-by_cause :
    (ds : List StateDuration) (d : List (String × ℕ))
    → sum_values (by_cause ds d) ≡ sum_values d + time_in is_unplanned ds
unfolding by_cause time_in
sum-by_cause [] d = omega arith
sum-by_cause (x ∷ xs) d = elim (Bool-cases (is_unplanned x.state)) [
  | inl q ↦ rw (q) (
      sum-by_cause xs (add_to (cause_of x.cause_code) x.seconds d)
      ∙ omega (arith, sum-add_to (cause_of x.cause_code) x.seconds d))
  | inr q ↦ rw (q) (sum-by_cause xs d ∙ omega arith)
]

sum-causes : (ds : List StateDuration) → sum_values (by_cause ds []) ≡ time_in is_unplanned ds
unfolding sum_values
sum-causes ds = sum-by_cause ds [] ∙ omega arith

sum-insert :
    (x : String × ℕ) (l : List (String × ℕ))
    → sum_values (insert_descending x l) ≡ x.1 + sum_values l
unfolding sum_values insert_descending
sum-insert x [] = refl
sum-insert x (y ∷ ys) = ground (arith, sum-insert x ys)

sum-order : (l : List (String × ℕ)) → sum_values (order_descending l) ≡ sum_values l
unfolding sum_values order_descending
sum-order [] = refl
sum-order (x ∷ xs) = sum-insert x (order_descending xs) ∙ ap (λ n. x.1 + n) (sum-order xs)

sum-take : (n : ℕ) (l : List (String × ℕ)) → sum_values (take n l) ≤ sum_values l
unfolding sum_values
sum-take zero l = omega arith
sum-take (suc n) [] = omega arith
sum-take (suc n) (x ∷ xs) = omega (arith, sum-take n xs)

-- each at most the one before, and the first at most a bound
Descends : ℕ → List (String × ℕ) → Type 0
Descends b [] = Unit
Descends b (x ∷ xs) = (x.1 ≤ b) × Descends x.1 xs

insert-Descends :
    (b : ℕ) (x : String × ℕ) (l : List (String × ℕ))
    → x.1 ≤ b
    → Descends b l
    → Descends b (insert_descending x l)
unfolding Descends insert_descending
insert-Descends b x [] h a = (h, tt)
insert-Descends b x (y ∷ ys) h a = elim (Bool-cases (leb y.1 x.1)) [
  | inl q ↦ rw (q, insert_descending) (h, (ground (arith, q), a.1))
  | inr q ↦ rw (q, insert_descending) (a.0, insert-Descends y.1 x ys (ground (arith, q)) a.1)
]

Descends-mono : (b c : ℕ) (l : List (String × ℕ)) → b ≤ c → Descends b l → Descends c l
unfolding Descends
Descends-mono b c [] h a = tt
Descends-mono b c (x ∷ xs) h a = (omega (arith, a.0), a.1)

order-Descends : (l : List (String × ℕ)) → Descends (sum_values l) (order_descending l)
unfolding Descends order_descending sum_values
order-Descends [] = tt
order-Descends (x ∷ xs) =
    insert-Descends (x.1 + sum_values xs) x (order_descending xs) (omega arith) (
      Descends-mono (sum_values xs) (x.1 + sum_values xs) (order_descending xs) (omega arith)
        (order-Descends xs))

take-Descends : (n b : ℕ) (l : List (String × ℕ)) → Descends b l → Descends b (take n l)
unfolding Descends
take-Descends zero b l a = tt
take-Descends (suc n) b [] a = tt
take-Descends (suc n) b (x ∷ xs) a = (a.0, take-Descends n x.1 xs a.1)

-- Rows in descending order, each with the total and a cumulative share of at most the total.
pub IsChart : ℕ → ℕ → List Row → Type 0
IsChart total bound [] = Unit
IsChart total bound (r ∷ rs) =
    (r.seconds ≤ bound)
    × (r.share ≤ r.cumulative_share)
    × (r.cumulative_share ≤ r.total)
    × (r.total ≡ total)
    × IsChart total r.seconds rs

rows_from-IsChart :
    (total done b : ℕ) (l : List (String × ℕ))
    → Descends b l
    → done + sum_values l ≤ total
    → IsChart total b (rows_from total done l)
unfolding IsChart Descends rows_from sum_values
rows_from-IsChart total done b [] a h = tt
rows_from-IsChart total done b ((k, n) ∷ l) a h = (
  a.0,
  omega arith,
  omega (arith, h),
  refl,
  rows_from-IsChart total (done + n) n l a.1 (omega (arith, h)),
)

-- The chart of the downtime accounts for it: each cause's time is the unplanned time of its
-- durations, where a missing or empty cause counts as unclassified; and for any number of rows,
-- these descend, their shares are of the whole unplanned time, and no cumulative share exceeds it.
pub downtime_pareto_lem :
    (ds : List StateDuration) (top_n : ℕ)
    → ((c : String) → value c (by_cause ds []) ≡ time_of c ds)
      × IsChart (time_in is_unplanned ds) (time_in is_unplanned ds) (downtime_pareto ds top_n)
unfolding downtime_pareto
downtime_pareto_lem ds top_n =
    let l = by_cause ds [] in
    let e : sum_values l ≡ time_in is_unplanned ds = sum-causes ds in
    (
      (λ c. value-causes c ds),
      subst (λ t. IsChart t t (downtime_pareto ds top_n)) e
          (rows_from-IsChart (sum_values l) 0 (sum_values l) (take top_n (order_descending l))
            (take-Descends top_n (sum_values l) (order_descending l) (order-Descends l))
            (omega (arith, sum-take top_n (order_descending l), sum-order l))),
    )
