-- ===== src/Assets/Codes.antt =====
-- The codes and ids of the assets stay unique.
use digital_twin.Prelude.{
  ℕ, suc, ◌+◌, ◌<◌, ◌≡◌, inl, inr, refl, arith, Bool, true, false, List, [], ◌∷◌, ◌&&◌, All,
  Bool-cases, Option-cases, if_ind,
}
use digital_twin.Prelude.Result.{Result, ok, Result-cases}
use digital_twin.Assets.Tables.{
  Asset, Component, Sensor, IdShort, Db, Twins, Env, Platform, AssetCreate,
}
use digital_twin.Assets.Service.{
  assert_code_free, checked_create, created, updated, retired_in, new_asset, finish, create_asset,
  update_asset, retire_asset, live_asset, save, Request, creating, updating, retiring, adding, step,
  run, with_audit, component_added, create_component,
}
use digital_twin.Assets.Structure.{count, has_component}
use digital_twin.Assets.Rows.{
  Apart, Unique, Link, live_asset-Link, save-Unique, append-Unique, free-Apart, fresh_all,
  fresh_append, fresh_save,
}

module _ {V : Type 0} where
  -- No two assets, live or retired, share a code or an id, and the next id is new.
  pub record IsSound (db : Db V) : Type 0 where
    pub unique : Unique db.assets
    pub fresh : All (λ b. b.id < db.next_id) db.assets

  pub checked-Apart :
      (env : Env) (d : AssetCreate V) (db : Db V) (parts : List Component × List Sensor)
      → IsSound db
      → checked_create env d db ≡ ok parts
      → All (Apart d.code db.next_id) db.assets
  unfolding checked_create assert_code_free
  checked-Apart env d db parts s e =
      free-Apart d.code db.next_id db.assets (ground (arith, e)) (ground (arith, e)) s.fresh

  created-IsSound :
      (build : IdShort → Asset V → V) (d : AssetCreate V) (cs : List Component) (ss : List Sensor)
      (db : Db V)
      → IsSound db
      → All (Apart d.code db.next_id) db.assets
      → IsSound (created build d cs ss db)
  unfolding created new_asset with_audit
  created-IsSound build d cs ss db s h = record {
    unique = append-Unique (new_asset d db.next_id) db.assets h s.unique;
    fresh =
        fresh_append (suc db.next_id + count cs) (new_asset d db.next_id) db.assets (omega arith)
          (fresh_all db.next_id (suc db.next_id + count cs) db.assets (omega arith) s.fresh);
  }

  pub relink :
      (a b : Asset V) (bs : List (Asset V))
      → b.id ≡ a.id
      → b.code ≡ a.code
      → All (Link a) bs
      → All (Link b) bs
  relink a b [] i c l = tt
  relink a b (r ∷ bs) i c (l, ls) = (ground (arith, i, c, l), relink a b bs i c ls)

  -- a save of a row with its id and code
  saved-IsSound :
      (a b : Asset V) (db db' : Db V)
      → IsSound db
      → All (Link a) db.assets
      → b.id ≡ a.id
      → b.code ≡ a.code
      → db'.assets ≡ save b db.assets
      → db'.next_id ≡ db.next_id
      → IsSound db'
  saved-IsSound a b db db' s l i c e n = record {
    unique = rw e (save-Unique b db.assets (relink a b db.assets i c l) s.unique);
    fresh = rw (e, n) (fresh_save db.next_id b db.assets s.fresh);
  }

  -- The end of an operation keeps what holds of both tables.
  pub finish_ind :
      (P : Db V → Type 0) (commits : Bool) (db : Db V) (p : Platform V) (r : Twins V × Bool)
      → P db
      → P p.db
      → P (finish commits db p r).0.db
  unfolding finish
  finish_ind P commits db p (t, called) h k = elim (Bool-cases (called && commits)) [
    | inl q ↦ rw q h
    | inr q ↦ rw q k
  ]

module _ {V : Type 0} (build : IdShort → Asset V → V) where
  create-IsSound :
      (env : Env) (d : AssetCreate V) (p : Platform V)
      → IsSound p.db
      → IsSound (create_asset build env d p).0.db
  unfolding create_asset
  create-IsSound env d p s = elim (Result-cases (checked_create env d p.db)) [
    | inl (problem, e) ↦ rw (e, create_asset) s
    | inr (parts, e) ↦
        rw (e, create_asset)
          (finish_ind IsSound env.commits (created build d parts.0 parts.1 p.db) p _
            (created-IsSound build d parts.0 parts.1 p.db s (checked-Apart env d p.db parts s e)) s)
  ]

  update-IsSound :
      (env : Env) (id : ℕ) (change : V → V) (p : Platform V)
      → IsSound p.db
      → IsSound (update_asset build env id change p).0.db
  unfolding update_asset updated with_audit
  update-IsSound env id change p s = elim (Option-cases (live_asset id p.db.assets)) [
    | inl e ↦ rw (e, update_asset) s
    | inr (a, e) ↦
        (let b : Asset V = record a { values = change a.values } in
          rw (e, update_asset)
            (if_ind (λ (x : Platform V × Result (Unit {0})). IsSound x.0.db)
              (env.line_exists b.line_id) _ _
              (λ _.
                finish_ind IsSound env.commits (updated build b p.db) p _
                  (saved-IsSound a b p.db (updated build b p.db) s
                    (live_asset-Link id p.db.assets a s.unique e) refl refl refl refl)
                  s)
              (λ _. s)))
  ]

  retire-IsSound :
      (env : Env) (id : ℕ) (p : Platform V) → IsSound p.db → IsSound (retire_asset env id p).0.db
  unfolding retire_asset retired_in with_audit
  retire-IsSound env id p s = elim (Option-cases (live_asset id p.db.assets)) [
    | inl e ↦ rw (e, retire_asset) s
    | inr (a, e) ↦
        rw (e, retire_asset)
          (finish_ind IsSound env.commits (retired_in a p.db) p _
            (saved-IsSound a (record a { deleted = true }) p.db (retired_in a p.db) s
              (live_asset-Link id p.db.assets a s.unique e) refl refl refl refl)
            s)
  ]

  add-IsSound :
      (env : Env) (id code : ℕ) (p : Platform V)
      → IsSound p.db
      → IsSound (create_component env id code p).0.db
  unfolding create_component component_added with_audit
  add-IsSound env id code p s = elim (Option-cases (live_asset id p.db.assets)) [
    | inl e ↦ rw (e, create_component) s
    | inr (a, e) ↦
        rw (e, create_component)
          (if_ind (λ (x : Platform V × Result (Unit {0})). IsSound x.0.db)
            (has_component a.id code p.db.components) _ _ (λ _. s)
            (λ _.
              finish_ind IsSound env.commits (component_added a code p.db) p _
                (record {
                  unique = s.unique;
                  fresh =
                      fresh_all p.db.next_id (suc p.db.next_id) p.db.assets (omega arith) s.fresh;
                })
                s))
  ]

  pub step-IsSound :
      (p : Platform V) (r : Env × Request V) → IsSound p.db → IsSound (step build p r).db
  unfolding step
  step-IsSound p (env, creating d) s = create-IsSound env d p s
  step-IsSound p (env, updating id change) s = update-IsSound env id change p s
  step-IsSound p (env, retiring id) s = retire-IsSound env id p s
  step-IsSound p (env, adding id code) s = add-IsSound env id code p s

  run-IsSound :
      (rs : List (Env × Request V)) (p : Platform V) → IsSound p.db → IsSound (run build rs p).db
  unfolding run
  run-IsSound [] p s = s
  run-IsSound (r ∷ rs) p s = run-IsSound rs (step build p r) (step-IsSound p r s)

-- an empty registry
abbrev pub no_assets : {V : Type 0} → Platform V
no_assets = record {
  db = record {
    assets = [];
    components = [];
    sensors = [];
    submodels = [];
    audits = [];
    next_id = 0;
  };
  twins = record { policies_ready = false; policies = []; things = [] };
}

-- Whatever is asked of the registry, and whatever becomes of the calls of Ditto and of the commits,
-- no two assets, live or retired, have the same code or id.
pub run-Unique :
    {V : Type 0} (build : IdShort → Asset V → V) (requests : List (Env × Request V))
    → Unique (run build requests no_assets).db.assets
run-Unique build requests =
    (run-IsSound build requests no_assets (record { unique = tt; fresh = tt })).unique
