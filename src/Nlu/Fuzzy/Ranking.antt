-- ===== src/Nlu/Fuzzy/Ranking.antt =====
-- The best score of each asset, and the candidates in the order of their scores.
use digital_twin.Prelude.{
  ℕ, ◌+◌, ◌≤◌, ◌≡◌, ◌⊎◌, inl, inr, arith, String, none, some, List, [], ◌∷◌, ltb, ◌==◌, All, if_ind,
  Bool-cases, Option-cases, if◌then◌else◌,
}
use digital_twin.Nlu.Fuzzy.{
  AssetRef, Candidate, Row, candidate_of, put_best, best_of, insert_by_score, order_by_score,
}

-- The candidate is of the asset, or its score is at least the margin below.
abbrev pub IsBelow : ℕ → Candidate → Candidate → Type 0
IsBelow margin c d = (d.ref.id ≡ c.ref.id) ⊎ (d.score + margin ≤ c.score)

module _ (m : ℕ) (c : Candidate) where
  pub put_best-IsBelow :
      (e : Candidate) (best : List Candidate)
      → All (IsBelow m c) (put_best e best)
      → IsBelow m c e × All (IsBelow m c) best
  unfolding put_best
  put_best-IsBelow e [] h = h
  put_best-IsBelow e (d ∷ ds) h = elim (Bool-cases (d.ref.id == e.ref.id)) [
    | inl q ↦
        (let k : All (IsBelow m c) (if ltb d.score e.score then e ∷ ds else d ∷ ds) = rw q at h in
          elim (Bool-cases (ltb d.score e.score)) [
            | inl r ↦
                (let j : All (IsBelow m c) (e ∷ ds) = rw r at k in
                  (j.0, (ground (arith, q, r, j.0), j.1)))
            | inr r ↦
                (let j : All (IsBelow m c) (d ∷ ds) = rw r at k in
                  (ground (arith, q, r, j.0), (j.0, j.1)))
          ])
    | inr q ↦
        (let k : IsBelow m c d × All (IsBelow m c) (put_best e ds) = rw q at h in
          let (a, b) = put_best-IsBelow e ds k.1 in (a, (k.0, b)))
  ]

  pub insert-IsBelow :
      (e : Candidate) (ds : List Candidate)
      → All (IsBelow m c) (insert_by_score e ds)
      → IsBelow m c e × All (IsBelow m c) ds
  unfolding insert_by_score
  insert-IsBelow e [] h = h
  insert-IsBelow e (d ∷ ds) h = elim (Bool-cases (ltb e.score d.score)) [
    | inl q ↦
        (let k : IsBelow m c d × All (IsBelow m c) (insert_by_score e ds) = rw q at h in
          let (a, b) = insert-IsBelow e ds k.1 in (a, (k.0, b)))
    | inr q ↦ (rw q at h)
  ]

  pub order-IsBelow :
      (ds : List Candidate) → All (IsBelow m c) (order_by_score ds) → All (IsBelow m c) ds
  unfolding order_by_score
  order-IsBelow [] h = tt
  order-IsBelow (d ∷ ds) h =
      let (a, b) = insert-IsBelow d (order_by_score ds) h in (a, order-IsBelow ds b)

  pub IsBelow-same :
      (e d : Candidate) → d.ref.id ≡ e.ref.id → d.score ≤ e.score → IsBelow m c e → IsBelow m c d
  IsBelow-same e d i l h = ground arith

-- Candidates in order: none has a lower score than a later one.
abbrev pub IsOrdered : List Candidate → Type 0
IsOrdered [] = Unit
IsOrdered (c ∷ cs) = All (λ d. d.score ≤ c.score) cs × IsOrdered cs

pub All-insert :
    (n : ℕ) (c : Candidate) (ds : List Candidate)
    → c.score ≤ n
    → All (λ d. d.score ≤ n) ds
    → All (λ d. d.score ≤ n) (insert_by_score c ds)
unfolding insert_by_score
All-insert n c [] l h = (l, tt)
All-insert n c (d ∷ ds) l (h, hs) =
    if_ind (All (λ d. d.score ≤ n)) (ltb c.score d.score) (d ∷ insert_by_score c ds) (c ∷ d ∷ ds)
      (λ _. (h, All-insert n c ds l hs)) (λ _. (l, (h, hs)))

pub All-below :
    (m n : ℕ) (ds : List Candidate) → m ≤ n → All (λ d. d.score ≤ m) ds → All (λ d. d.score ≤ n) ds
All-below m n [] l h = tt
All-below m n (d ∷ ds) l (h, hs) = (omega arith, All-below m n ds l hs)

pub insert-IsOrdered :
    (c : Candidate) (ds : List Candidate) → IsOrdered ds → IsOrdered (insert_by_score c ds)
unfolding insert_by_score
insert-IsOrdered c [] h = (tt, tt)
insert-IsOrdered c (d ∷ ds) (h, hs) =
    if_ind IsOrdered (ltb c.score d.score) (d ∷ insert_by_score c ds) (c ∷ d ∷ ds)
      (λ e. (All-insert d.score c ds (ground arith) h, insert-IsOrdered c ds hs))
      (λ e. ((ground arith, All-below d.score c.score ds (ground arith) h), (h, hs)))

pub order-IsOrdered : (ds : List Candidate) → IsOrdered (order_by_score ds)
unfolding order_by_score
order-IsOrdered [] = tt
order-IsOrdered (d ∷ ds) = insert-IsOrdered d (order_by_score ds) (order-IsOrdered ds)

-- what a row of the scores has to say about the match c
abbrev pub IsClear : ℕ → List (String × AssetRef) → Candidate → Row → Type 0
IsClear margin forms c row = elim (candidate_of forms row) [
  | none ↦ Unit {0}
  | some d ↦ IsBelow margin c d
]

pub best_of-IsBelow :
    (m : ℕ) (c : Candidate) (forms : List (String × AssetRef)) (rows : List Row)
    (best : List Candidate)
    → All (IsBelow m c) (best_of forms rows best)
    → All (IsClear m forms c) rows × All (IsBelow m c) best
unfolding best_of
best_of-IsBelow m c forms [] best h = (tt, h)
best_of-IsBelow m c forms (row ∷ rows) best h = elim (Option-cases (candidate_of forms row)) [
  | inl q ↦
      (let k : All (IsBelow m c) (best_of forms rows best) = rw (q, best_of) at h in
        let (a, b) = best_of-IsBelow m c forms rows best k in ((rw (q, IsClear) tt, a), b))
  | inr (e, q) ↦
      (let k : All (IsBelow m c) (best_of forms rows (put_best e best)) = rw (q, best_of) at h in
        let (a, b) = best_of-IsBelow m c forms rows (put_best e best) k in
        let (f, g) = put_best-IsBelow m c e best b in ((rw (q, IsClear) f, a), g))
]

-- the candidates of some rows
abbrev pub IsScored : List (String × AssetRef) → Candidate → List Row → Type 0
IsScored forms c [] = ⊥
IsScored forms c (row ∷ rows) = (candidate_of forms row ≡ some c) ⊎ IsScored forms c rows

-- What holds of a candidate and of a list holds of all candidates in the results.
module _ (P : Candidate → Type 0) where
  pub put_best-All :
      (e : Candidate) (best : List Candidate) → P e → All P best → All P (put_best e best)
  unfolding put_best
  put_best-All e [] p h = (p, tt)
  put_best-All e (d ∷ ds) p (h, hs) =
      if_ind (All P) (d.ref.id == e.ref.id) (if ltb d.score e.score then e ∷ ds else d ∷ ds)
        (d ∷ put_best e ds)
        (λ _. if_ind (All P) (ltb d.score e.score) (e ∷ ds) (d ∷ ds) (λ _. (p, hs)) (λ _. (h, hs)))
        (λ _. (h, put_best-All e ds p hs))

  pub insert-All :
      (e : Candidate) (ds : List Candidate) → P e → All P ds → All P (insert_by_score e ds)
  unfolding insert_by_score
  insert-All e [] p h = (p, tt)
  insert-All e (d ∷ ds) p (h, hs) =
      if_ind (All P) (ltb e.score d.score) (d ∷ insert_by_score e ds) (e ∷ d ∷ ds)
        (λ _. (h, insert-All e ds p hs)) (λ _. (p, (h, hs)))

  pub order-All : (ds : List Candidate) → All P ds → All P (order_by_score ds)
  unfolding order_by_score
  order-All [] h = tt
  order-All (d ∷ ds) (h, hs) = insert-All d (order_by_score ds) h (order-All ds hs)

  pub best_of-All :
      (forms : List (String × AssetRef)) (rows : List Row) (best : List Candidate)
      → ((c : Candidate) → IsScored forms c rows → P c)
      → All P best
      → All P (best_of forms rows best)
  unfolding best_of
  best_of-All forms [] best f h = h
  best_of-All forms (row ∷ rows) best f h = elim (Option-cases (candidate_of forms row)) [
    | inl q ↦ rw q (best_of-All forms rows best (λ c k. f c (inr k)) h)
    | inr (e, q) ↦ rw q (
        best_of-All forms rows (put_best e best) (λ c k. f c (inr k))
          (put_best-All e best (f e (inl q)) h))
  ]
