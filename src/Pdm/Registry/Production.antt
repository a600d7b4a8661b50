-- ===== src/Pdm/Registry/Production.antt =====
-- Which models of the registry are in production.
use digital_twin.Prelude.{
  ℕ, ◌+◌, ◌≤◌, ◌≡◌, ◌⊎◌, inl, inr, refl, ap, arith, Bool, true, false, some, List, [], ◌∷◌, ◌==◌,
  ==_iff, ◌&&◌, All, Bool-cases,
}
use digital_twin.Contracts.Topic.{same_text}
use digital_twin.Contracts.Topic.Shape.{same_text_eq}
use digital_twin.Contracts.Topic.RoundTrip.{same_text_refl}
use digital_twin.Pdm.Registry.{Model, is_production, get, is_replaced, promoted_row, promote_all}

abbrev pub one_if : Bool → ℕ
one_if true = 1
one_if false = 0

module _ {V : Type 0} where
  -- how many models of a name are in production
  unfoldable pub producing : List ℕ → List (Model V) → ℕ
  unfolding is_production
  producing n [] = 0
  producing n (m ∷ ms) = one_if (same_text m.name n && is_production m.stage) + producing n ms

  -- how many rows have a name and a version
  unfoldable pub versions : List ℕ → List ℕ → List (Model V) → ℕ
  versions n v [] = 0
  versions n v (m ∷ ms) = one_if (same_text m.name n && same_text m.version v) + versions n v ms

  unfoldable pub with_id : ℕ → List (Model V) → ℕ
  with_id id [] = 0
  with_id id (m ∷ ms) = one_if (m.id == id) + with_id id ms

  -- A row with the model's id is the model.
  abbrev pub Same : Model V → Model V → Type 0
  Same model m = ((m.id == model.id) ≡ false) ⊎ (m ≡ model)

  no_other : (id : ℕ) (ms : List (Model V)) → with_id id ms ≡ 0 → All (λ m. (m.id == id) ≡ false) ms
  unfolding with_id
  no_other id [] h = tt
  no_other id (m ∷ ms) h = (ground (arith, h), no_other id ms (omega arith))

  weaken-Same :
      (model : Model V) (ms : List (Model V))
      → All (λ m. (m.id == model.id) ≡ false) ms
      → All (Same model) ms
  weaken-Same model [] h = tt
  weaken-Same model (m ∷ ms) (h, hs) = (inl h, weaken-Same model ms hs)

  pub get-id :
      (id : ℕ) (ms : List (Model V)) (model : Model V) → get id ms ≡ some model → model.id ≡ id
  unfolding get
  get-id id [] model e = cc
  get-id id (m ∷ ms) model e = ground (arith, e, get-id id ms model)

  pub get-with_id :
      (id : ℕ) (ms : List (Model V)) {model : Model V}
      → get id ms ≡ some model
      → with_id id ms ≤ 1
      → (with_id id ms ≡ 1) × All (Same model) ms
  unfolding get with_id
  get-with_id id [] e u = cc
  get-with_id id (m ∷ ms) {model} e u = elim (Bool-cases (m.id == id)) [
    | inl q ↦
        (let z : with_id id ms ≡ 0 = ground (arith, q, u) in
          let i : model.id ≡ id = get-id id (m ∷ ms) model e in
          (
            rw q (omega (arith, z)),
            (inr (ground (arith, q, e)), weaken-Same model ms (rw i (no_other id ms z))),
          ))
    | inr q ↦
        (let i : model.id ≡ id = get-id id (m ∷ ms) model e in
          let (a, b) = get-with_id id ms (rw (q, get) at e) (ground (arith, q, u)) in
          (rw q (omega (arith, a)), (inl (rw i q), b)))
  ]

  -- after a promotion, in a row of the model's name
  pub promoted_row-own :
      (model m : Model V)
      → Same model m
      → (same_text (promoted_row model m).name model.name
          && is_production (promoted_row model m).stage)
        ≡ (m.id == model.id)
  unfolding promoted_row is_replaced is_production
  promoted_row-own model m (inl q) = elim (Bool-cases (is_replaced model m)) [
    | inl r ↦ ground (arith, q, r)
    | inr r ↦ ground (arith, q, r)
  ]
  promoted_row-own model m (inr e) =
      rw e (ground (arith, same_text_refl model.name, ==_iff model.id model.id))

  -- and in a row of another name
  promoted_row-other :
      (model m : Model V) (n : List ℕ)
      → same_text model.name n ≡ false
      → Same model m
      → (same_text (promoted_row model m).name n && is_production (promoted_row model m).stage)
        ≡ (same_text m.name n && is_production m.stage)
  unfolding promoted_row is_replaced is_production
  promoted_row-other model m n f (inl q) = elim (Bool-cases (same_text m.name model.name)) [
    | inl r ↦
        (let e : m.name ≡ model.name = same_text_eq m.name model.name r in
          let g : same_text m.name n ≡ false = rw e f in ground (arith, q, r, g))
    | inr r ↦ ground (arith, q, r)
  ]
  promoted_row-other model m n f (inr e) = rw e (ground (arith, f))

  pub producing-own :
      (model : Model V) (ms : List (Model V))
      → All (Same model) ms
      → producing model.name (promote_all model ms) ≡ with_id model.id ms
  unfolding producing promote_all with_id
  producing-own model [] h = refl
  producing-own model (m ∷ ms) (h, hs) =
      rw (promoted_row-own model m h)
        (ap (λ k. one_if (m.id == model.id) + k) (producing-own model ms hs))

  pub producing-other :
      (model : Model V) (n : List ℕ) (ms : List (Model V))
      → same_text model.name n ≡ false
      → All (Same model) ms
      → producing n (promote_all model ms) ≡ producing n ms
  unfolding producing promote_all
  producing-other model n [] f h = refl
  producing-other model n (m ∷ ms) f (h, hs) = rw (promoted_row-other model m n f h) (
      ap (λ k. one_if (same_text m.name n && is_production m.stage) + k)
        (producing-other model n ms f hs))

  promoted_row-kept :
      (model m : Model V)
      → ((promoted_row model m).id ≡ m.id)
        × ((promoted_row model m).name ≡ m.name)
        × ((promoted_row model m).version ≡ m.version)
  unfolding promoted_row
  promoted_row-kept model m = ground arith

  pub versions-promote :
      (model : Model V) (n v : List ℕ) (ms : List (Model V))
      → versions n v (promote_all model ms) ≡ versions n v ms
  unfolding versions promote_all
  versions-promote model n v [] = refl
  versions-promote model n v (m ∷ ms) =
      let k = promoted_row-kept model m in
      rw (k.1, k.2)
        (ap (λ k. one_if (same_text m.name n && same_text m.version v) + k)
          (versions-promote model n v ms))

  pub with_id-promote :
      (model : Model V) (id : ℕ) (ms : List (Model V))
      → with_id id (promote_all model ms) ≡ with_id id ms
  unfolding with_id promote_all
  with_id-promote model id [] = refl
  with_id-promote model id (m ∷ ms) =
      rw ((promoted_row-kept model m).0)
        (ap (λ k. one_if (m.id == id) + k) (with_id-promote model id ms))
