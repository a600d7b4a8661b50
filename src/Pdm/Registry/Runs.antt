-- ===== src/Pdm/Registry/Runs.antt =====
-- Sequences of requests to the registry, and what a promotion does to the lookup of the ingest.
use digital_twin.Prelude.{
  ℕ, ◌+◌, ◌≤◌, ◌≡◌, inl, inr, refl, ap, ◌∙◌, arith, none, some, List, [], ◌∷◌, ◌++◌, ◌==◌, ◌&&◌,
  Bool-cases, Option-cases,
}
use digital_twin.Prelude.Result.{Result, ok, err}
use digital_twin.Contracts.Topic.{same_text}
use digital_twin.Contracts.Topic.Shape.{same_text_eq}
use digital_twin.Pdm.Registry.{
  Model, Db, NewModel, is_production, get, get_or_404, get_by_name_version, checked_promote,
  promote, new_row, register_model,
}
use digital_twin.Pdm.Registry.Production.{
  one_if, producing, versions, with_id, get-id, get-with_id, producing-own, producing-other,
  versions-promote, with_id-promote,
}

-- a request to the registry
pub data Request (V : Type 0) : Type 0 where
  registering : NewModel V → Request V
  promoting : ℕ → Request V

module _ {V : Type 0} where
  -- An exception leaves the tables as they were.
  pub or_same : Db V → Result (Db V) → Db V
  or_same db (ok db') = db'
  or_same db (err p) = db

  pub step : Db V → Request V → Db V
  unfolding or_same register_model promote
  step db (registering new) = or_same db (register_model new db)
  step db (promoting id) = or_same db (promote id db)

  pub run : List (Request V) → Db V → Db V
  unfolding step
  run [] db = db
  run (r ∷ rs) db = run rs (step db r)

  -- what the unique indexes of the table ask, and that the next id is new
  record IsConsistent (db : Db V) : Type 0 where
    produced : (n : List ℕ) → producing n db.models ≤ 1
    versioned : (n v : List ℕ) → versions n v db.models ≤ 1
    identified : (id : ℕ) → with_id id db.models ≤ 1
    fresh : (id : ℕ) → db.next_id ≤ id → with_id id db.models ≡ 0

  producing-new :
      (n : List ℕ) (ms : List (Model V)) (new : NewModel V) (id : ℕ)
      → producing n (ms ++ new_row new id ∷ []) ≡ producing n ms
  unfolding producing new_row is_production
  producing-new n [] new id = ground arith
  producing-new n (m ∷ ms) new id =
      ap (λ k. one_if (same_text m.name n && is_production m.stage) + k) (producing-new n ms new id)

  versions-new :
      (n v : List ℕ) (ms : List (Model V)) (new : NewModel V) (id : ℕ)
      → versions n v (ms ++ new_row new id ∷ [])
        ≡ versions n v ms + one_if (same_text new.name n && same_text new.version v)
  unfolding versions new_row
  versions-new n v [] new id = omega arith
  versions-new n v (m ∷ ms) new id = omega (arith, versions-new n v ms new id)

  with_id-new :
      (k : ℕ) (ms : List (Model V)) (new : NewModel V) (id : ℕ)
      → with_id k (ms ++ new_row new id ∷ []) ≡ with_id k ms + one_if (id == k)
  unfolding with_id new_row
  with_id-new k [] new id = omega arith
  with_id-new k (m ∷ ms) new id = omega (arith, with_id-new k ms new id)

  none-versions :
      (n v : List ℕ) (ms : List (Model V)) → get_by_name_version n v ms ≡ none → versions n v ms ≡ 0
  unfolding get_by_name_version versions
  none-versions n v [] h = refl
  none-versions n v (m ∷ ms) h = ground (arith, h, none-versions n v ms)

  versions_ok :
      (new : NewModel V) (db : Db V)
      → IsConsistent db
      → get_by_name_version new.name new.version db.models ≡ none
      → (n v : List ℕ) → versions n v (db.models ++ new_row new db.next_id ∷ []) ≤ 1
  versions_ok new db h e n v = elim (Bool-cases (same_text new.name n && same_text new.version v)) [
    | inl t ↦
        (let a : new.name ≡ n = same_text_eq new.name n (ground (arith, t)) in
          let b : new.version ≡ v = same_text_eq new.version v (ground (arith, t)) in
          let z : versions n v db.models ≡ 0 =
            rw (← a, ← b) (none-versions new.name new.version db.models e) in
          ground (arith, t, z, versions-new n v db.models new db.next_id))
    | inr t ↦ ground (arith, t, h.versioned n v, versions-new n v db.models new db.next_id)
  ]

  register-IsConsistent :
      (new : NewModel V) (db : Db V)
      → IsConsistent db
      → get_by_name_version new.name new.version db.models ≡ none
      → IsConsistent (or_same db (register_model new db))
  unfolding register_model or_same
  register-IsConsistent new db h e =
      rw (e, or_same)
        (record {
          produced = λ n. omega (arith, producing-new n db.models new db.next_id, h.produced n);
          versioned = λ n v. versions_ok new db h e n v;
          identified = λ id. elim (Bool-cases (db.next_id == id)) [
            | inl q ↦
                (let z : with_id id db.models ≡ 0 = h.fresh id (ground (arith, q)) in
                  ground (arith, q, z, with_id-new id db.models new db.next_id))
            | inr q ↦ ground (arith, q, h.identified id, with_id-new id db.models new db.next_id)
          ];
          fresh = λ id l.
              ground
                (arith, h.fresh id (omega (arith, l)), with_id-new id db.models new db.next_id, l);
        })

  promote-IsConsistent :
      (model : Model V) (db : Db V)
      → IsConsistent db
      → get model.id db.models ≡ some model
      → IsConsistent (or_same db (checked_promote model db))
  unfolding checked_promote or_same
  promote-IsConsistent model db h e = elim (Bool-cases (is_production model.stage)) [
    | inl q ↦ rw q h
    | inr q ↦
        (let (u, same) = get-with_id model.id db.models e (h.identified model.id) in
          rw q (record {
            produced = λ n. elim (Bool-cases (same_text model.name n)) [
              | inl t ↦
                  (let eq : model.name ≡ n = same_text_eq model.name n t in
                    rw (← eq) (omega (arith, producing-own model db.models same, u)))
              | inr t ↦ omega (arith, producing-other model n db.models t same, h.produced n)
            ];
            versioned = λ n v. omega (arith, versions-promote model n v db.models, h.versioned n v);
            identified = λ id. omega (arith, with_id-promote model id db.models, h.identified id);
            fresh = λ id l. with_id-promote model id db.models ∙ h.fresh id l;
          }))
  ]

  step-IsConsistent : (db : Db V) (r : Request V) → IsConsistent db → IsConsistent (step db r)
  unfolding step
  step-IsConsistent db (registering new) h =
      elim (Option-cases (get_by_name_version new.name new.version db.models)) [
        | inl e ↦ register-IsConsistent new db h e
        | inr (m, e) ↦ rw (e, or_same, register_model) h
      ]
  step-IsConsistent db (promoting id) h = elim (Option-cases (get id db.models)) [
    | inl e ↦ rw (e, promote, get_or_404, or_same) h
    | inr (model, e) ↦
        (let i : model.id ≡ id = get-id id db.models model e in
          let e' : get model.id db.models ≡ some model = ap (λ k. get k db.models) i ∙ e in
          rw (e, promote, get_or_404) (promote-IsConsistent model db h e'))
  ]

  -- the registry before any request
  pub no_models : Db V
  no_models = record { models = []; metrics = []; audits = []; next_id = 0 }

  run-IsConsistent :
      (rs : List (Request V)) (db : Db V) → IsConsistent db → IsConsistent (run rs db)
  unfolding run
  run-IsConsistent [] db h = h
  run-IsConsistent (r ∷ rs) db h = run-IsConsistent rs (step db r) (step-IsConsistent db r h)

  none-IsConsistent : IsConsistent no_models
  unfolding no_models producing versions with_id
  none-IsConsistent = record {
    produced = λ n. omega arith;
    versioned = λ n v. omega arith;
    identified = λ id. omega arith;
    fresh = λ id l. refl;
  }

-- After any registrations and promotions, at most one model of a name is in production, for all
-- assets together, and at most one row has a name and a version.
pub one_in_production :
    {V : Type 0} (requests : List (Request V)) (n v : List ℕ)
    → (producing n (run requests no_models).models ≤ 1)
      × (versions n v (run requests no_models).models ≤ 1)
one_in_production requests n v =
    let h : IsConsistent (run requests no_models) =
      run-IsConsistent requests no_models none-IsConsistent in
    (h.produced n, h.versioned n v)
