-- ===== src/Voice/Actions/Guards.antt =====
-- What must hold for `confirm` to call a tool.
use digital_twin.Prelude.{
  ℕ, ◌++◌, ◌∷◌, Option-cases, String, true, false, not, Option, some, [], is_empty, ◌≡◌, refl,
  arith, if◌then◌else◌, ◌⊎◌, inl, inr, Bool-cases, ◌&&◌, ◌||◌,
}
use digital_twin.Voice.Actions.{
  Setup, is_pending, is_expired, needs_second_factor, second_factor_ok, Ending, returned, problem,
  crashed, called, execute, decide, with_status, refused, Store, settle, confirm, confirm_row, find,
}
use digital_twin.Voice.Validation.{World, VoiceAction, validate}

-- Everything that lets a tool run.
pub record MayRun (setup : Setup) (world : World) (sub : String) (pin : Option String) (now : ℕ)
    (a : VoiceAction) : Type 0 where
  pub pending : is_pending a.status ≡ true
  pub in_time : is_expired now a.expires_at ≡ false
  pub second_factor :
      needs_second_factor a.tier ≡ true
      → (setup.allow_t3 ≡ true) × (second_factor_ok setup sub pin ≡ true)
  pub valid : is_empty (validate world now a) ≡ true

module _ (setup : Setup) (world : World) (sub : String) (pin : Option String) (now : ℕ)
    (ending : Ending) where
  called-ran : (e : Ending) (row a : VoiceAction) → (called e row a).ran ≡ true
  unfolding called with_status
  called-ran returned row a = refl
  called-ran problem row a = refl
  called-ran (crashed true) row a = refl
  called-ran (crashed false) row a = refl

  execute-ran :
      (row a : VoiceAction) → (execute world now ending row a).ran ≡ is_empty (validate world now a)
  unfolding execute with_status
  execute-ran row a = ground (arith, called-ran ending row a)

  -- the verdict's run as one test
  decide-ran :
      (a : VoiceAction)
      → (decide setup world sub pin now ending a).ran ≡ (
          if is_pending a.status
            && not (is_expired now a.expires_at)
            && (not (needs_second_factor a.tier)
                || (setup.allow_t3 && second_factor_ok setup sub pin))
          then is_empty (validate world now a)
          else false)
  unfolding decide refused validate
  decide-ran a =
      ground (arith, execute-ran a a, execute-ran a (record a { second_factor_ok = some true }))

  pub ran-MayRun :
      (a : VoiceAction)
      → (decide setup world sub pin now ending a).ran ≡ true
      → MayRun setup world sub pin now a
  ran-MayRun a h = record {
    pending = ground (arith, h, decide-ran a);
    in_time = ground (arith, h, decide-ran a);
    second_factor = λ t. (ground (arith, h, decide-ran a, t), ground (arith, h, decide-ran a, t));
    valid = ground (arith, h, decide-ran a);
  }

  settle-ran :
      (a : VoiceAction) (s : Store)
      → ((settle (decide setup world sub pin now ending a) a.id s).ran ≡ s.ran)
        ⊎ (((settle (decide setup world sub pin now ending a) a.id s).ran ≡ s.ran ++ a.id ∷ [])
            × MayRun setup world sub pin now a)
  unfolding settle
  settle-ran a s = elim (Bool-cases (decide setup world sub pin now ending a).ran) [
    | inl e ↦ inr (rw e refl, ran-MayRun a e)
    | inr e ↦ inl (rw e refl)
  ]

  -- `confirm` calls no tool, or it calls the tool of the action it was given, once, and then the action
  -- was pending and within its window, its parameters passed the validation against the present
  -- rows, and an action of tier T3 came with actuation allowed and a right, non-empty PIN.
  pub confirm-MayRun :
      (i : ℕ) (s : Store)
      → ((confirm setup world sub i pin now ending s).0.ran ≡ s.ran)
        ⊎ ((a : VoiceAction) × (find i s.actions ≡ some a)
            × ((confirm setup world sub i pin now ending s).0.ran ≡ s.ran ++ a.id ∷ [])
            × MayRun setup world sub pin now a)
  unfolding confirm confirm_row
  confirm-MayRun i s = elim (Option-cases (find i s.actions)) [
    | inl e ↦ rw e (inl refl)
    | inr (a, e) ↦ rw e (elim (settle-ran a s) [
      | inl same ↦ inl same
      | inr (grown, may) ↦ inr (a, refl, grown, may)
    ])
  ]
