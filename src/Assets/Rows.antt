-- ===== src/Assets/Rows.antt =====
-- Rows of assets with codes and ids of their own, and what a save and a new row do to them.
use digital_twin.Prelude.{
  ℕ, ◌<◌, ◌≤◌, ◌≡◌, ◌⊎◌, inl, inr, refl, arith, true, false, not, some, List, [], ◌∷◌, ◌++◌, ◌==◌,
  ==_iff, ◌&&◌, All, Bool-cases,
}
use mathlib.Core.Path.{subst}
use digital_twin.Assets.Tables.{Asset}
use digital_twin.Assets.Service.{is_taken, is_retired, live_asset, save}

module _ {V : Type 0} where
  -- another code and another id
  abbrev pub Apart : ℕ → ℕ → Asset V → Type 0
  Apart code id b = ((b.code == code) ≡ false) × ((b.id == id) ≡ false)

  abbrev pub Unique : List (Asset V) → Type 0
  Unique [] = Unit {0}
  Unique (a ∷ bs) = All (Apart a.code a.id) bs × Unique bs

  -- a row is that of the asset, or has another id and another code
  abbrev pub Link : Asset V → Asset V → Type 0
  Link a r =
      (((r.id == a.id) ≡ true) × (r.code ≡ a.code))
      ⊎ (((r.id == a.id) ≡ false) × ((r.code == a.code) ≡ false))

  pub live_asset-All :
      (P : Asset V → Type 0) (id : ℕ) (bs : List (Asset V)) (a : Asset V)
      → All P bs
      → live_asset id bs ≡ some a
      → P a
  unfolding live_asset
  live_asset-All P id [] a h e = cc
  live_asset-All P id (b ∷ bs) a (h, hs) e = elim (Bool-cases (not b.deleted && (b.id == id))) [
    | inl q ↦ (let r : b ≡ a = ground (arith, q, e) in subst P r h)
    | inr q ↦ live_asset-All P id bs a hs (rw (q, live_asset) at e)
  ]

  pub Apart-Link :
      (a : Asset V) (bs : List (Asset V)) → All (Apart a.code a.id) bs → All (Link a) bs
  Apart-Link a [] h = tt
  Apart-Link a (b ∷ bs) (h, hs) = (inr (h.1, h.0), Apart-Link a bs hs)

  pub live_asset-Link :
      (id : ℕ) (bs : List (Asset V)) (a : Asset V)
      → Unique bs
      → live_asset id bs ≡ some a
      → All (Link a) bs
  unfolding live_asset
  live_asset-Link id [] a u e = tt
  live_asset-Link id (b ∷ bs) a (h, hs) e = elim (Bool-cases (not b.deleted && (b.id == id))) [
    | inl q ↦
        (let r : b ≡ a = ground (arith, q, e) in
          subst (λ x. All (Link x) (b ∷ bs)) r
            ((inl ((==_iff b.id b.id).1 refl, refl), Apart-Link b bs h)))
    | inr q ↦
        (let e' : live_asset id bs ≡ some a = rw (q, live_asset) at e in
          let k : Apart b.code b.id a = live_asset-All (Apart b.code b.id) id bs a h e' in
          (inr (ground (arith, k), ground (arith, k)), live_asset-Link id bs a hs e'))
  ]

  pub save-Apart :
      (a : Asset V) (code id : ℕ) (bs : List (Asset V))
      → All (Link a) bs
      → All (Apart code id) bs
      → All (Apart code id) (save a bs)
  unfolding save
  save-Apart a code id [] l h = tt
  save-Apart a code id (b ∷ bs) (l, ls) (h, hs) = elim (Bool-cases (b.id == a.id)) [
    | inl q ↦ rw q ((ground (arith, q, l, h), ground (arith, q, l, h)), hs)
    | inr q ↦ rw q (h, save-Apart a code id bs ls hs)
  ]

  pub save-Unique :
      (a : Asset V) (bs : List (Asset V)) → All (Link a) bs → Unique bs → Unique (save a bs)
  unfolding save
  save-Unique a [] l u = tt
  save-Unique a (b ∷ bs) (l, ls) (h, hs) = elim (Bool-cases (b.id == a.id)) [
    | inl q ↦
        (let c : b.code ≡ a.code = ground (arith, q, l) in
          let i : b.id ≡ a.id = (==_iff b.id a.id).0 q in
          rw q
            (subst (λ x. All (Apart x a.id) bs) c (subst (λ x. All (Apart b.code x) bs) i h), hs))
    | inr q ↦ rw q (save-Apart a b.code b.id bs ls h, save-Unique a bs ls hs)
  ]

  pub append-Apart :
      (a b : Asset V) (bs : List (Asset V))
      → Apart a.code a.id b
      → All (Apart b.code b.id) bs
      → All (Apart b.code b.id) (bs ++ a ∷ [])
  append-Apart a b [] h k = ((ground (arith, h), ground (arith, h)), tt)
  append-Apart a b (c ∷ bs) h (k, ks) = (k, append-Apart a b bs h ks)

  pub append-Unique :
      (a : Asset V) (bs : List (Asset V))
      → All (Apart a.code a.id) bs
      → Unique bs
      → Unique (bs ++ a ∷ [])
  append-Unique a [] h u = (tt, tt)
  append-Unique a (b ∷ bs) (h, hs) (k, ks) = (append-Apart a b bs h k, append-Unique a bs hs ks)

  pub free-Apart :
      (code n : ℕ) (bs : List (Asset V))
      → is_taken code bs ≡ false
      → is_retired code bs ≡ false
      → All (λ b. b.id < n) bs
      → All (Apart code n) bs
  unfolding is_taken is_retired
  free-Apart code n [] t r h = tt
  free-Apart code n (b ∷ bs) t r (h, hs) = (
    (ground (arith, t, r), ground (arith, h)),
    free-Apart code n bs (ground (arith, t)) (ground (arith, r)) hs,
  )

  pub fresh_all :
      (m n : ℕ) (bs : List (Asset V)) → m ≤ n → All (λ b. b.id < m) bs → All (λ b. b.id < n) bs
  fresh_all m n [] l h = tt
  fresh_all m n (b ∷ bs) l (h, hs) = (omega (arith, l, h), fresh_all m n bs l hs)

  pub fresh_append :
      (n : ℕ) (a : Asset V) (bs : List (Asset V))
      → a.id < n
      → All (λ b. b.id < n) bs
      → All (λ b. b.id < n) (bs ++ a ∷ [])
  fresh_append n a [] l h = (l, tt)
  fresh_append n a (b ∷ bs) l (h, hs) = (h, fresh_append n a bs l hs)

  pub fresh_save :
      (n : ℕ) (a : Asset V) (bs : List (Asset V))
      → All (λ b. b.id < n) bs
      → All (λ b. b.id < n) (save a bs)
  unfolding save
  fresh_save n a [] h = tt
  fresh_save n a (b ∷ bs) (h, hs) = elim (Bool-cases (b.id == a.id)) [
    | inl q ↦ rw q (ground (arith, q, h), hs)
    | inr q ↦ rw q (h, fresh_save n a bs hs)
  ]
