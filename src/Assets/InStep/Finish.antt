-- ===== src/Assets/InStep/Finish.antt =====
-- What the end of an operation, its commit included, does to the assets and their things.
use mathlib.Core.Path.{subst}
use digital_twin.Prelude.{
  ℕ, ◌≡◌, ◌⊎◌, inl, inr, refl, sym, ap, ◌∙◌, arith, Bool, true, false, some, List, [], ◌∷◌, ◌++◌,
  ◌==◌, ==_iff, ◌&&◌, All, Bool-cases, Option-cases,
}
use digital_twin.Assets.Tables.{Asset, Db, Thing, Twins, Platform}
use digital_twin.Assets.Sync.{put, change}
use digital_twin.Assets.Service.{finish, save}
use digital_twin.Assets.Rows.{Apart, Unique, Link}
use digital_twin.Assets.InStep.{
  thing_of, Shows, InStep, thing_of-put, thing_of-change, thing_of-changed, InStep-other,
  InStep-append, InStep-save,
}
use digital_twin.Assets.InStep.Calls.{new_thing}

module _ {V : Type 0} where
  -- the end of an operation whose commit succeeds
  finished :
      (db : Db V) (p : Platform V) (r : Twins V × Bool)
      → r.1 ≡ true
      → (finish true db p r).0 ≡ record { db = db; twins = r.0 }
  unfolding finish
  finished db p r e = rw e refl

  pub failed :
      (commits : Bool) (db : Db V) (p : Platform V) (r : Twins V × Bool)
      → r.1 ≡ false
      → (finish commits db p r).0 ≡ record p { twins = r.0 }
  unfolding finish
  failed commits db p r e = rw e refl

  abbrev pub Holds : Platform V → Type 0
  Holds p = InStep p.twins.things p.db.assets

  put-other :
      (x : Thing V) (xs : List (Thing V)) (c : ℕ)
      → (c == x.code) ≡ false
      → thing_of c (put x xs) ≡ thing_of c xs
  put-other x xs c n = ground (arith, n, thing_of-put c x xs)

  pub finish-put :
      (a : Asset V) (cs : List ℕ) (commits : Bool) (db : Db V) (p : Platform V) (r : Twins V × Bool)
      → All (Apart a.code a.id) p.db.assets
      → a.deleted ≡ false
      → db.assets ≡ p.db.assets ++ a ∷ []
      → r.0.things ≡ put (new_thing a cs) p.twins.things
      → Holds p
      → Holds (finish commits db p r).0
  unfolding finish
  finish-put a cs commits db p r h n e f k =
      let old : InStep r.0.things p.db.assets = rw f (
        InStep-other a.code a.id p.twins.things _ p.db.assets
          (put-other (new_thing a cs) p.twins.things) h k) in
      let s : Shows a (thing_of a.code r.0.things) =
        rw (f, thing_of-put a.code (new_thing a cs) p.twins.things, (==_iff a.code a.code).1 refl)
          (ground (arith, n)) in
      elim (Bool-cases (r.1 && commits)) [
        | inl q ↦ rw q (rw e (InStep-append a r.0.things p.db.assets s old))
        | inr q ↦ rw q old
      ]

  Shows-change :
      (a b : Asset V) (f : Thing V → Thing V) (xs : List (Thing V))
      → ((x : Thing V) → (f x).code ≡ x.code)
      → ((x : Thing V) → Shows a (some x) → Shows b (some (f x)))
      → b.code ≡ a.code
      → Shows a (thing_of a.code xs)
      → Shows b (thing_of b.code (change b.code f xs))
  Shows-change a b f xs h k c s = elim (Option-cases (thing_of a.code xs)) [
    | inl e ↦ absurd (subst (Shows a) e s)
    | inr (x, e) ↦
        (let e' : thing_of b.code xs ≡ some x = ap (λ n. thing_of n xs) c ∙ e in
          subst (Shows b) (sym (thing_of-changed b.code f xs x h e')) (k x (subst (Shows a) e s)))
  ]

  pub finish-save :
      (a b : Asset V) (f : Thing V → Thing V) (db : Db V) (p : Platform V) (r : Twins V × Bool)
      → ((x : Thing V) → (f x).code ≡ x.code)
      → ((x : Thing V) → Shows a (some x) → Shows b (some (f x)))
      → b.code ≡ a.code
      → All (Link b) p.db.assets
      → Unique p.db.assets
      → Shows a (thing_of a.code p.twins.things)
      → db.assets ≡ save b p.db.assets
      → ((r.1 ≡ false) × (r.0.things ≡ p.twins.things))
        ⊎ ((r.1 ≡ true) × (r.0.things ≡ change b.code f p.twins.things))
      → Holds p
      → Holds (finish true db p r).0
  finish-save a b f db p r h k c l u s e (inl (n, t)) i = rw (failed true db p r n) (rw t i)
  finish-save a b f db p r h k c l u s e (inr (n, t)) i = rw (finished db p r n) (
      rw (e, t)
        (InStep-save b p.twins.things _ p.db.assets
          (λ m q. thing_of-change m b.code f p.twins.things h (ground (arith, q)))
          (Shows-change a b f p.twins.things h k c s) l u i))

  -- a change of a thing that keeps its policy and its attributes
  Shows-kept :
      (a : Asset V) (k : ℕ) (f : Thing V → Thing V) (xs : List (Thing V))
      → ((x : Thing V) → (f x).code ≡ x.code)
      → ((x : Thing V) → Shows a (some x) → Shows a (some (f x)))
      → Shows a (thing_of a.code xs)
      → Shows a (thing_of a.code (change k f xs))
  Shows-kept a k f xs h m s = elim (Bool-cases (k == a.code)) [
    | inl q ↦
        subst (λ n. Shows a (thing_of a.code (change n f xs))) (sym ((==_iff k a.code).0 q))
          (Shows-change a a f xs h m refl s)
    | inr q ↦ subst (Shows a) (sym (thing_of-change a.code k f xs h q)) s
  ]

  InStep-kept :
      (k : ℕ) (f : Thing V → Thing V) (xs : List (Thing V)) (bs : List (Asset V))
      → ((x : Thing V) → (f x).code ≡ x.code)
      → ((a : Asset V) (x : Thing V) → Shows a (some x) → Shows a (some (f x)))
      → InStep xs bs
      → InStep (change k f xs) bs
  InStep-kept k f xs [] h m s = tt
  InStep-kept k f xs (b ∷ bs) h m (s, ss) =
      (Shows-kept b k f xs h (m b) s, InStep-kept k f xs bs h m ss)

  pub finish-kept :
      (k : ℕ) (f : Thing V → Thing V) (db : Db V) (p : Platform V) (r : Twins V × Bool)
      → ((x : Thing V) → (f x).code ≡ x.code)
      → ((a : Asset V) (x : Thing V) → Shows a (some x) → Shows a (some (f x)))
      → db.assets ≡ p.db.assets
      → ((r.1 ≡ false) × (r.0.things ≡ p.twins.things))
        ⊎ ((r.1 ≡ true) × (r.0.things ≡ change k f p.twins.things))
      → Holds p
      → Holds (finish true db p r).0
  finish-kept k f db p r h m e (inl (n, t)) i = rw (failed true db p r n) (rw t i)
  finish-kept k f db p r h m e (inr (n, t)) i =
      rw (finished db p r n) (rw (e, t) (InStep-kept k f p.twins.things p.db.assets h m i))
