-- ===== src/Assets/InStep.antt =====
-- Things of Ditto that are in step with the assets.
pub mod Calls
pub mod Finish
pub mod Requests
use mathlib.Core.Path.{subst}
use digital_twin.Prelude.{
  ℕ, suc, ◌+◌, ◌<◌, ◌≤◌, ◌≡◌, ◌≢◌, ◌⊎◌, inl, inr, refl, sym, ap, ◌∙◌, arith, Bool, true, false, not,
  Option, none, some, List, [], ◌∷◌, ◌++◌, ◌==◌, ==_iff, ◌&&◌, ◌||◌, All, Bool-cases, Option-cases,
  if_ind, if◌then◌else◌,
}
use digital_twin.Prelude.Result.{Result, ok, err, Result-cases}
use digital_twin.Assets.Tables.{
  Asset, Component, Sensor, IdShort, Db, Policy, active, retired, Thing, Twins, Outcome, done,
  refused, lost, Call, put_active, put_retired, put_thing, merge_thing, set_policy_id, Env,
  Platform, AssetCreate,
}
use digital_twin.Assets.Sync.{
  called, and_then, with_policy, ensure_policies, put, change, create_thing, update_thing,
  retire_thing,
}
use digital_twin.Assets.Service.{
  checked_create, created, updated, retired_in, new_asset, finish, create_asset, update_asset,
  retire_asset, live_asset, save, Request, creating, updating, retiring, step, run, with_audit,
}
use digital_twin.Assets.Structure.{codes_of}
use digital_twin.Assets.Codes.{IsSound, checked-Apart, step-IsSound, no_assets}
use digital_twin.Assets.Rows.{Apart, Unique, Link, live_asset-All, live_asset-Link}

abbrev pub policy_of : Bool → Policy
policy_of true = retired
policy_of false = active

module _ {V : Type 0} where
  -- the thing with a code
  unfoldable pub thing_of : ℕ → List (Thing V) → Option (Thing V)
  thing_of code [] = none
  thing_of code (x ∷ xs) = if x.code == code then some x else thing_of code xs

  -- There is a thing, with the policy and the attributes of the asset.
  abbrev pub Shows : Asset V → Option (Thing V) → Type 0
  Shows a none = ⊥
  Shows a (some x) = (x.policy ≡ policy_of a.deleted) × (x.attributes ≡ a.values)

  abbrev pub InStep : List (Thing V) → List (Asset V) → Type 0
  InStep things bs = All (λ a. Shows a (thing_of a.code things)) bs

  pub thing_of-put :
      (code : ℕ) (x : Thing V) (xs : List (Thing V))
      → thing_of code (put x xs) ≡ (if x.code == code then some x else thing_of code xs)
  unfolding thing_of put
  thing_of-put code x [] = refl
  thing_of-put code x (y ∷ ys) = ground (arith, thing_of-put code x ys)

  pub thing_of-change :
      (code k : ℕ) (f : Thing V → Thing V) (xs : List (Thing V))
      → ((x : Thing V) → (f x).code ≡ x.code)
      → (k == code) ≡ false
      → thing_of code (change k f xs) ≡ thing_of code xs
  unfolding thing_of change
  thing_of-change code k f [] h n = refl
  thing_of-change code k f (y ∷ ys) h n = ground (arith, n, h y, thing_of-change code k f ys h n)

  pub thing_of-changed :
      (code : ℕ) (f : Thing V → Thing V) (xs : List (Thing V)) (x : Thing V)
      → ((x : Thing V) → (f x).code ≡ x.code)
      → thing_of code xs ≡ some x
      → thing_of code (change code f xs) ≡ some (f x)
  unfolding thing_of change
  thing_of-changed code f [] x h e = cc
  thing_of-changed code f (y ∷ ys) x h e = elim (Bool-cases (y.code == code)) [
    | inl q ↦ (let r : y ≡ x = ground (arith, q, e) in rw q (ground (arith, q, h y, ap f r)))
    | inr q ↦ rw q (rw q (thing_of-changed code f ys x h (rw (q, thing_of) at e)))
  ]

  -- Things that differ only for other codes show the same assets.
  pub InStep-other :
      (code id : ℕ) (xs ys : List (Thing V)) (bs : List (Asset V))
      → ((c : ℕ) → (c == code) ≡ false → thing_of c ys ≡ thing_of c xs)
      → All (Apart code id) bs
      → InStep xs bs
      → InStep ys bs
  InStep-other code id xs ys [] h a k = tt
  InStep-other code id xs ys (b ∷ bs) h (a, as') (k, ks) =
      (subst (Shows b) (sym (h b.code a.0)) k, InStep-other code id xs ys bs h as' ks)

  pub InStep-append :
      (a : Asset V) (xs : List (Thing V)) (bs : List (Asset V))
      → Shows a (thing_of a.code xs)
      → InStep xs bs
      → InStep xs (bs ++ a ∷ [])
  InStep-append a xs [] h k = (h, tt)
  InStep-append a xs (b ∷ bs) h (k, ks) = (k, InStep-append a xs bs h ks)

  Link-Apart :
      (b : Asset V) (id : ℕ) (bs : List (Asset V))
      → b.id ≡ id
      → All (Link b) bs
      → All (λ r. (r.id == id) ≡ false) bs
      → All (Apart b.code b.id) bs
  Link-Apart b id [] i l h = tt
  Link-Apart b id (r ∷ bs) i (l, ls) (h, hs) =
      ((ground (arith, i, l, h), ground (arith, i, l, h)), Link-Apart b id bs i ls hs)

  other_ids :
      (code id : ℕ) (bs : List (Asset V))
      → All (Apart code id) bs
      → All (λ r. (r.id == id) ≡ false) bs
  other_ids code id [] h = tt
  other_ids code id (b ∷ bs) (h, hs) = (h.1, other_ids code id bs hs)

  -- after a save of the asset whose thing has changed
  pub InStep-save :
      (a : Asset V) (xs ys : List (Thing V)) (bs : List (Asset V))
      → ((c : ℕ) → (c == a.code) ≡ false → thing_of c ys ≡ thing_of c xs)
      → Shows a (thing_of a.code ys)
      → All (Link a) bs
      → Unique bs
      → InStep xs bs
      → InStep ys (save a bs)
  unfolding save
  InStep-save a xs ys [] h s l u k = tt
  InStep-save a xs ys (b ∷ bs) h s (l, ls) (u, us) (k, ks) = elim (Bool-cases (b.id == a.id)) [
    | inl q ↦ rw q (
      s,
      InStep-other a.code a.id xs ys bs h
          (Link-Apart a b.id bs (sym ((==_iff b.id a.id).0 q)) ls (other_ids b.code b.id bs u)) ks,
    )
    | inr q ↦ rw q (
      subst (Shows b) (sym (h b.code (ground (arith, q, l)))) k,
      InStep-save a xs ys bs h s ls us ks,
    )
  ]
