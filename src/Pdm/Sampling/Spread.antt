-- ===== src/Pdm/Sampling/Spread.antt =====
-- The rows of `query` are spread over the whole range.
use digital_twin.Prelude.{
  ℕ, zero, suc, ◌+◌, ◌-◌, ◌*◌, ◌/◌, ◌%◌, ◌<◌, ◌≤◌, ◌≡◌, ◌⊎◌, inl, inr, refl, ap, ◌∙◌, arith, false,
  none, List, [], ◌∷◌, leb, ltb, ltb→lt, ◌==◌, ==_iff, length, take, get_elem?, Bool-cases, if_ind,
}
use digital_twin.Pdm.Sampling.{
  Prediction, step_of, in_range, insert_by_time, order_by_time, every, query,
}
use native.Mathlib.Nat.{suc-mod, mod-lt, mod-eq_of_lt, mod_self, div-add-mod, suc-mul, zero-mul}

-- The number of a row has remainder r, and the next row to be kept is d rows on.
Phase : ℕ → ℕ → ℕ → Type 0
Phase step r d = ((r ≡ 0) × (d ≡ 0)) ⊎ ((r + d ≡ step) × (0 < r))

-- the remainder of the next number
next_mod :
    (i step : ℕ)
    → 0 < step
    → ((suc (i % step) ≡ step) × (suc i % step ≡ 0))
      ⊎ ((suc (i % step) < step) × (suc i % step ≡ suc (i % step)))
next_mod i step h = elim (Bool-cases (ltb (suc (i % step)) step)) [
  | inl l ↦ inr (
    ltb→lt (suc (i % step)) step l,
    suc-mod i step ∙ mod-eq_of_lt (ltb→lt (suc (i % step)) step l),
  )
  | inr l ↦
      (let e : suc (i % step) ≡ step = ground (arith, l, mod-lt i h) in
        inl (e, suc-mod i step ∙ ap (λ x. x % step) e ∙ mod_self step))
]

-- after a row that is kept, and after one that is not
phase_kept : (i step : ℕ) → 0 < step → i % step ≡ 0 → Phase step (suc i % step) (step - 1)
unfolding Phase
phase_kept i step h z = elim (next_mod i step h) [
  | inl (a, b) ↦ inl (b, omega (arith, a, z))
  | inr (a, b) ↦ inr (omega (arith, a, b, z), omega (arith, b))
]

phase_skipped : (i step d : ℕ) → 0 < step → (i % step) + suc d ≡ step → Phase step (suc i % step) d
unfolding Phase
phase_skipped i step d h z = elim (next_mod i step h) [
  | inl (a, b) ↦ inl (b, omega (arith, a, z))
  | inr (a, b) ↦ inr (omega (arith, a, b, z), omega (arith, b))
]

get_elem?-every :
    {V : Type 0} (step i d k : ℕ) (ps : List (Prediction V))
    → 0 < step
    → Phase step (i % step) d
    → get_elem? (every step i ps) k ≡ get_elem? ps (d + k * step)
unfolding every Phase
get_elem?-every step i d k [] h p = refl
get_elem?-every step i zero zero (x ∷ ps) h p =
    let z : i % step ≡ 0 = ground (arith, p, mod-lt i h) in
    let e : 0 + 0 * step ≡ 0 = omega (arith, zero-mul step) in
    rw ((==_iff (i % step) 0).1 z, e) refl
get_elem?-every step i zero (suc k) (x ∷ ps) h p =
    let z : i % step ≡ 0 = ground (arith, p, mod-lt i h) in
    let e : 0 + suc k * step ≡ suc (step - 1 + k * step) = omega (arith, suc-mul k step) in
    rw ((==_iff (i % step) 0).1 z, e)
      (get_elem?-every step (suc i) (step - 1) k ps h (phase_kept i step h z))
get_elem?-every step i (suc d) k (x ∷ ps) h p =
    let z : (i % step) + suc d ≡ step = ground (arith, p) in
    let n : (i % step == 0) ≡ false = ground (arith, p) in
    let e : suc d + k * step ≡ suc (d + k * step) = omega arith in
    rw (n, e) (get_elem?-every step (suc i) d k ps h (phase_skipped i step d h z))

get_elem?-beyond : {A : Type 0} (xs : List A) (k : ℕ) → length xs ≤ k → get_elem? xs k ≡ none
get_elem?-beyond [] k h = refl
get_elem?-beyond (x ∷ xs) zero h = absurd (omega arith)
get_elem?-beyond (x ∷ xs) (suc k) h = get_elem?-beyond xs k (omega arith)

length-le_of_none : {A : Type 0} (xs : List A) (k : ℕ) → get_elem? xs k ≡ none → length xs ≤ k
length-le_of_none [] k h = omega arith
length-le_of_none (x ∷ xs) zero h = absurd (ground (arith, h))
length-le_of_none (x ∷ xs) (suc k) h = omega (arith, length-le_of_none xs k h)

take_all : {A : Type 0} (n : ℕ) (xs : List A) → length xs ≤ n → take n xs ≡ xs
take_all zero [] h = refl
take_all zero (x ∷ xs) h = absurd (omega arith)
take_all (suc n) [] h = refl
take_all (suc n) (x ∷ xs) h = ap (λ ys. x ∷ ys) (take_all n xs (omega arith))

module _ {V : Type 0} where
  length-insert :
      (p : Prediction V) (ps : List (Prediction V)) → length (insert_by_time p ps) ≡ suc (length ps)
  unfolding insert_by_time
  length-insert p [] = refl
  length-insert p (q ∷ qs) =
      if_ind (λ ys. length ys ≡ suc (suc (length qs))) (leb p.time q.time) (p ∷ q ∷ qs)
        (q ∷ insert_by_time p qs) (λ _. refl) (λ _. ap suc (length-insert p qs))

  length-order : (ps : List (Prediction V)) → length (order_by_time ps) ≡ length ps
  unfolding order_by_time
  length-order [] = refl
  length-order (p ∷ ps) = length-insert p (order_by_time ps) ∙ ap suc (length-order ps)

positive : (limit q n r : ℕ) → limit ≤ n → limit * q + r ≡ n → r < limit → 0 < q
positive limit zero n r h e m = absurd (omega arith)
positive limit (suc q) n r h e m = omega arith

step_of-covers :
    (total limit : ℕ)
    → 0 < limit
    → (0 < step_of total limit) × (total ≤ limit * step_of total limit)
unfolding step_of
step_of-covers total limit h = elim (Bool-cases (ltb limit total)) [
  | inl l ↦ rw l (
      let t : limit < total = ltb→lt limit total l in
      let q : ℕ = (total + limit - 1) / limit in
      let m : (total + limit - 1) % limit < limit = mod-lt (total + limit - 1) h in
      let e : limit * q + (total + limit - 1) % limit ≡ total + limit - 1 =
        div-add-mod (total + limit - 1) limit in
      (positive limit q (total + limit - 1) _ (omega arith) e m, omega (arith, e, m)))
  | inr l ↦ rw l (omega arith, ground (arith, l))
]

length-every :
    {V : Type 0} (step limit : ℕ) (ps : List (Prediction V))
    → 0 < step
    → length ps ≤ limit * step
    → length (every step 0 ps) ≤ limit
unfolding Phase
length-every step limit ps h l = length-le_of_none (every step 0 ps) limit (
    get_elem?-every step 0 0 limit ps h (inl (mod-eq_of_lt h, refl))
    ∙ get_elem?-beyond ps (0 + limit * step) (omega arith))

-- For a limit above 0, a query gives at most limit rows, and for every k its row number k is the
-- row number k times the step of all rows of the asset in the range in the order of their times,
-- or none if there is no such row: the limit cuts off no part of the range.
pub query-spread :
    {V : Type 0} (table : List (Prediction V)) (asset start end limit k : ℕ)
    → 0 < limit
    → (length (query table asset start end limit) ≤ limit)
      × (get_elem? (query table asset start end limit) k
          ≡ get_elem?
              (order_by_time (in_range asset start end table))
              (k * step_of (length (in_range asset start end table)) limit))
unfolding query Phase
query-spread table asset start end limit k h =
    let rows : List (Prediction _) = in_range asset start end table in
    let step : ℕ = step_of (length rows) limit in
    let (pos, fits) = step_of-covers (length rows) limit h in
    let short : length (every step 0 (order_by_time rows)) ≤ limit =
      length-every step limit (order_by_time rows) pos (omega (arith, length-order rows, fits)) in
    let all : take limit (every step 0 (order_by_time rows)) ≡ every step 0 (order_by_time rows) =
      take_all limit _ short in
    (
      rw all short,
      rw all (
          get_elem?-every step 0 0 k (order_by_time rows) pos (inl (mod-eq_of_lt pos, refl))
          ∙ ap (get_elem? (order_by_time rows))
              (let e : 0 + k * step ≡ k * step = omega arith in e)),
    )
