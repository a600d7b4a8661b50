-- ===== src/Ingest/Consumer/States.antt =====
-- The state events of an asset are the changes among the valid states that it reported.
use digital_twin.Prelude.{
  ℕ, String, not, Option, some, List, [], ◌∷◌, ◌++◌, ◌==◌, ◌&&◌, ◌≡◌, arith, append_assoc,
  append-nil, sym, ◌∙◌, if◌then◌else◌,
}
use digital_twin.Ingest.Consumer.{
  Consumer, StateEvent, is_valid_state, is_state, handle_state_change,
}

module _ {F : Type 0} where
  -- the reports of states, as (asset, state, time)
  pub reports : List (ℕ × String × ℕ) → Consumer F → Consumer F
  reports [] c = c
  reports ((asset_id, state, time) ∷ l) c = reports l (handle_state_change asset_id state time c)

-- the states of one asset, in order
unfoldable pub of_asset : ℕ → List StateEvent → List String
of_asset i [] = []
of_asset i (e ∷ l) = if e.asset_id == i then e.state ∷ of_asset i l else of_asset i l

-- The valid states that one asset reports, without those that repeat the one before.
pub changes : ℕ → Option String → List (ℕ × String × ℕ) → List String
changes i last [] = []
changes i last ((asset_id, state, time) ∷ l) =
    if (asset_id == i) && (is_valid_state state && not (is_state last state))
    then state ∷ changes i (some state) l
    else changes i last l

of_asset-append :
    (i : ℕ) (l : List StateEvent) (e : StateEvent)
    → of_asset i (l ++ e ∷ []) ≡ of_asset i l ++ (if e.asset_id == i then e.state ∷ [] else [])
unfolding of_asset
of_asset-append i [] e = ground arith
of_asset-append i (x ∷ l) e = ground (arith, of_asset-append i l e)

module _ {F : Type 0} where
  -- Whatever the assets report and in whatever interleaving: the events of one asset grow by exactly
  -- its changes of valid state, from the state it was last known in.
  pub events-changes :
      (i : ℕ) (l : List (ℕ × String × ℕ)) (c : Consumer F)
      → of_asset i (reports l c).events ≡ of_asset i c.events ++ changes i (c.last_state i) l
  unfolding reports changes handle_state_change
  events-changes i [] c = sym (append-nil (of_asset i c.events))
  events-changes i ((asset_id, state, time) ∷ l) c =
      let event : StateEvent = record { time = time; asset_id = asset_id; state = state } in
      events-changes i l (handle_state_change asset_id state time c)
      ∙ ground (
        arith,
        of_asset-append i c.events event,
        append_assoc (of_asset i c.events) (state ∷ []) (changes i (some state) l),
        append-nil (of_asset i c.events),
      )
