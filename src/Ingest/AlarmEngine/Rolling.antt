-- ===== src/Ingest/AlarmEngine/Rolling.antt =====
-- The history of an adaptive rule is a rolling window over the values that it saw.
use digital_twin.Prelude.{
  ℕ, ◌+◌, ◌-◌, ◌<◌, List, [], ◌∷◌, ◌++◌, map, length, drop, ◌≡◌, refl, sym, ap, ◌∙◌, arith,
  length-append, length-drop, drop-drop, drop-append_of_le, append_assoc, append-nil, String,
  Bool-cases, inl, inr, leb,
}
use mathlib.Core.List.{map-append}
use digital_twin.Prelude.Floats.{Floats}
use digital_twin.Ingest.AlarmEngine.{
  Rule, History, stored, record_value, window_samples, evaluate_adaptive, judge,
}

-- the last n items
abbrev pub newest {ℓ} : {A : Type ℓ} → ℕ → List A → List A
newest n xs = drop (length xs - n) xs

newest-push {ℓ} :
    {A : Type ℓ} (n : ℕ) (x : A) (xs : List A)
    → newest n (newest n xs ++ x ∷ []) ≡ newest n (xs ++ x ∷ [])
newest-push n x xs =
    let a = length xs - n in
    let e : length (xs ++ x ∷ []) - n ≡ a + (length (drop a xs ++ x ∷ []) - n) =
      omega
        (arith, length-append xs (x ∷ []), length-append (drop a xs) (x ∷ []), length-drop a xs) in
    let k = length (drop a xs ++ x ∷ []) - n in
    rw e (
      ap (drop k) (sym (drop-append_of_le a xs (x ∷ []) (omega arith)))
      ∙ drop-drop a k (xs ++ x ∷ []))

module _ {F : Type 0} where
  record_value-expires :
      (n now : ℕ) (x : F) (h : History F) → (record_value n now x h).expires_at ≡ now + 7200
  unfolding record_value
  record_value-expires n now x h = refl

  stored_live : (now : ℕ) (h : History F) → now < h.expires_at → stored now h ≡ h.values
  unfolding stored
  stored_live now h p = ground arith

  record_value-newest :
      (n now last : ℕ) (x : F) (seen : List F) (h : History F)
      → now < last + 7200
      → h.expires_at ≡ last + 7200
      → h.values ≡ newest n seen
      → (record_value n now x h).values ≡ newest n (seen ++ x ∷ [])
  unfolding record_value
  record_value-newest n now last x seen h p e v =
      ap (λ l. newest n (l ++ x ∷ [])) (stored_live now h (omega arith) ∙ v) ∙ newest-push n x seen

  record_value-first :
      (n now : ℕ) (x : F) (h : History F)
      → h.values ≡ []
      → (record_value n now x h).values ≡ newest n (x ∷ [])
  unfolding record_value stored
  record_value-first n now x h e = elim (Bool-cases (leb h.expires_at now)) [
    | inl gone ↦ rw gone
    | inr live ↦ rw (live, e)
  ]

module _ (fl : Floats) (rule : Rule fl.F) (sensor_id asset_id : ℕ) (metric_name : String) where
  -- the history of a rule after its sensor's readings, with the times at which they came
  pub after : List (ℕ × fl.F) → History fl.F → History fl.F
  after [] h = h
  after ((now, v) ∷ l) h =
      after l (evaluate_adaptive fl rule sensor_id asset_id v metric_name now h).1

  -- No gap of two hours: each reading comes before the key expires.
  abbrev pub Steady : ℕ → List (ℕ × fl.F) → Type 0
  Steady last [] = Unit {0}
  Steady last (r ∷ l) = (r.0 < last + 7200) × Steady r.0 l

  after-newest :
      (l : List (ℕ × fl.F)) (last : ℕ) (seen : List fl.F) (h : History fl.F)
      → Steady last l
      → h.expires_at ≡ last + 7200
      → h.values ≡ newest (window_samples rule.params.window) seen
      → (after l h).values ≡ newest (window_samples rule.params.window) (seen ++ map (λ r. r.1) l)
  unfolding after evaluate_adaptive
  after-newest [] last seen h s e v =
      v ∙ ap (newest (window_samples rule.params.window)) (sym (append-nil seen))
  after-newest ((now, x) ∷ l) last seen h s e v =
      let n = window_samples rule.params.window in
      after-newest l now (seen ++ x ∷ []) (record_value n now x h) s.1
        (record_value-expires n now x h) (record_value-newest n now last x seen h s.0 e v)
      ∙ ap (newest n) (append_assoc seen (x ∷ []) (map (λ r. r.1) l))

  after-append :
      (l : List (ℕ × fl.F)) (now : ℕ) (v : fl.F) (h : History fl.F)
      → after (l ++ (now, v) ∷ []) h
        ≡ record_value (window_samples rule.params.window) now v (after l h)
  unfolding after evaluate_adaptive
  after-append [] now v h = refl
  after-append ((t, x) ∷ l) now v h =
      after-append l now v (record_value (window_samples rule.params.window) t x h)

  -- Adaptive alarms of one rule, from an empty history, when no gap between readings reaches two
  -- hours: a reading is judged against the last `window_samples` readings of the rule, itself
  -- included, or all of them while they are fewer; and these are what the rule's list holds then.
  pub verdict_on_window :
      (first : ℕ × fl.F) (l : List (ℕ × fl.F)) (now : ℕ) (value : fl.F) (h : History fl.F)
      → h.values ≡ []
      → Steady first.0 (l ++ (now, value) ∷ [])
      → ((evaluate_adaptive fl rule sensor_id asset_id value metric_name now
            (after (first ∷ l) h)).0
          ≡ judge fl rule sensor_id asset_id value metric_name (
              newest
                (window_samples rule.params.window)
                (map (λ r. r.1) (first ∷ l) ++ value ∷ [])))
        × ((evaluate_adaptive fl rule sensor_id asset_id value metric_name now
              (after (first ∷ l) h)).1.values
            ≡ newest (window_samples rule.params.window) (map (λ r. r.1) (first ∷ l) ++ value ∷ []))
  unfolding after evaluate_adaptive
  verdict_on_window (t, x) l now value h e s =
      let n = window_samples rule.params.window in
      let begun = record_value n t x h in
      let start : begun.values ≡ newest n (x ∷ []) = record_value-first n t x h e in
      let values : (record_value n now value (after l begun)).values
          ≡ newest n (x ∷ (map (λ r. r.1) l ++ value ∷ [])) =
        sym (ap (λ g. g.values) (after-append l now value begun))
        ∙ after-newest (l ++ (now, value) ∷ []) t (x ∷ []) begun s (record_value-expires n t x h)
            start
        ∙ ap (λ m. newest n (x ∷ m)) (map-append (λ (r : ℕ × fl.F). r.1) l ((now, value) ∷ [])) in
      (ap (judge fl rule sensor_id asset_id value metric_name) values, values)
