-- ===== src/Ingest/EdgePredictions/Replay.antt =====
-- A prediction is stored and sent once, however often it is delivered.
use digital_twin.Prelude.{
  ℕ, true, false, Option, none, some, List, [], ◌∷◌, ◌==◌, ◌&&◌, ◌≡◌, refl, arith, if_ind,
}
use digital_twin.Ingest.EdgePredictions.{
  Message, Prediction, State, Known, accepted, exists, stored, stored_if, process, run,
}

exists_self : (id time : ℕ) → ((id == id) && (time == time)) ≡ true
exists_self id time = ground arith

module _ {V : Type 0} where
  -- no two rows have the same id and time
  unfoldable pub IsUnique : List (Prediction V) → Type 0
  IsUnique [] = Unit
  IsUnique (p ∷ l) = (exists p.id p.time l ≡ false) × IsUnique l

  stored-IsUnique :
      (m : Message V) (a : ℕ × ℕ × ℕ) (s : State V)
      → IsUnique s.predictions
      → IsUnique (stored m a s).predictions
  unfolding stored IsUnique
  stored-IsUnique m (asset_id, model_id, id) s h =
      if_ind (λ t. IsUnique t.predictions) (exists id m.time s.predictions) s _ (λ e. h)
        (λ e. (e, h))

  stored_if-IsUnique :
      (o : Option (ℕ × ℕ × ℕ)) (m : Message V) (s : State V)
      → IsUnique s.predictions
      → IsUnique (stored_if o m s).predictions
  unfolding stored_if
  stored_if-IsUnique none m s h = h
  stored_if-IsUnique (some a) m s h = stored-IsUnique m a s h

  predictions_once :
      (known : Known) (l : List (List ℕ × Message V)) (s : State V)
      → IsUnique s.predictions
      → IsUnique (run known l s).predictions
  unfolding run process
  predictions_once known [] s h = h
  predictions_once known ((topic, m) ∷ l) s h =
      predictions_once known l (process known (topic, m) s)
        (stored_if-IsUnique (accepted known topic m) m s h)

  -- the message is dropped, or its row is there
  unfoldable pub IsSettled : Option (ℕ × ℕ × ℕ) → Message V → State V → Type 0
  IsSettled none m s = Unit
  IsSettled (some (asset_id, model_id, id)) m s = exists id m.time s.predictions ≡ true

  stored_if-IsSettled :
      (o : Option (ℕ × ℕ × ℕ)) (m : Message V) (s : State V) → IsSettled o m (stored_if o m s)
  unfolding stored_if stored IsSettled exists
  stored_if-IsSettled none m s = tt
  stored_if-IsSettled (some (asset_id, model_id, id)) m s =
      if_ind (λ t. exists id m.time t.predictions ≡ true) (exists id m.time s.predictions) s _
        (λ e. e) (λ e. rw (exists_self id m.time) refl)

  -- a row stays
  exists_kept :
      (id time : ℕ) (o : Option (ℕ × ℕ × ℕ)) (m : Message V) (s : State V)
      → exists id time s.predictions ≡ true
      → exists id time (stored_if o m s).predictions ≡ true
  unfolding stored_if stored exists
  exists_kept id time none m s h = h
  exists_kept id time (some (asset_id, model_id, j)) m s h =
      if_ind (λ t. exists id time t.predictions ≡ true) (exists j m.time s.predictions) s _ (λ e. h)
        (λ e. ground (arith, h))

  IsSettled-kept :
      (o : Option (ℕ × ℕ × ℕ)) (m : Message V) (o' : Option (ℕ × ℕ × ℕ)) (m' : Message V)
      (s : State V)
      → IsSettled o m s
      → IsSettled o m (stored_if o' m' s)
  unfolding IsSettled
  IsSettled-kept none m o' m' s h = tt
  IsSettled-kept (some (asset_id, model_id, id)) m o' m' s h = exists_kept id m.time o' m' s h

  run-IsSettled :
      (o : Option (ℕ × ℕ × ℕ)) (m : Message V) (known : Known) (l : List (List ℕ × Message V))
      (s : State V)
      → IsSettled o m s
      → IsSettled o m (run known l s)
  unfolding run process
  run-IsSettled o m known [] s h = h
  run-IsSettled o m known ((topic, m') ∷ l) s h =
      run-IsSettled o m known l (process known (topic, m') s)
        (IsSettled-kept o m (accepted known topic m') m' s h)

  settled_lem :
      (o : Option (ℕ × ℕ × ℕ)) (m : Message V) (s : State V) → IsSettled o m s → stored_if o m s ≡ s
  unfolding stored_if stored IsSettled
  settled_lem none m s h = refl
  settled_lem (some (asset_id, model_id, id)) m s h =
      if_ind (λ t. t ≡ s) (exists id m.time s.predictions) s _ (λ e. refl)
        (λ e. absurd (ground (arith, e, h)))

  replay_changes_nothing :
      (known : Known) (d : List ℕ × Message V) (l : List (List ℕ × Message V)) (s : State V)
      → process known d (run known l (process known d s)) ≡ run known l (process known d s)
  unfolding process
  replay_changes_nothing known (topic, m) l s =
      settled_lem (accepted known topic m) m (run known l (process known (topic, m) s)) (
        run-IsSettled (accepted known topic m) m known l (process known (topic, m) s)
          (stored_if-IsSettled (accepted known topic m) m s))

  -- If no two predictions have the same id and time, then none have after any deliveries, of any
  -- messages, in any order and with any repeats. A message that was processed changes nothing when it
  -- comes again, whatever was processed in between: no row, no explanation, and nothing sent.
  pub stored_once :
      (known : Known) (l : List (List ℕ × Message V)) (s : State V)
      → IsUnique s.predictions
      → IsUnique (run known l s).predictions
        × ((d : List ℕ × Message V)
            → process known d (run known l (process known d s)) ≡ run known l (process known d s))
  stored_once known l s h = (predictions_once known l s h, λ d. replay_changes_nothing known d l s)
