-- ===== src/Simulator/Machine/Repair.antt =====
-- When a reset machine is in maintenance exactly as long as the maintenance takes.
use digital_twin.Prelude.{
  String, Bool, true, false, Option, none, some, List, [], ◌∷◌, ◌&&◌, ◌≡◌, refl, ap, ◌∙◌, arith,
  if_ind,
}
use digital_twin.Prelude.Floats.{Floats}
use digital_twin.Simulator.Machine.{
  State, running, idle, maintenance, Process, Machine, OperatingContext, is_running, is_down,
  first_failed, fail, fail_first, check_failures, update_from, update_state, after_maintenance,
  operate, step, is_manual, target_of, refresh_damage, degrade,
}
use digital_twin.Simulator.Machine.Service.{Event, stepped, on_event, run, reset, reset_components}

unfoldable pub is_maintenance : State → Bool
is_maintenance maintenance = true
is_maintenance _ = false

module _ (fl : Floats) (pr : Process fl.F) where
  -- what is left of a time after some steps
  unfoldable pub left_after : fl.F → List (Event fl pr) → fl.F
  left_after left [] = left
  left_after left (stepped dt ctx normal temp draw ∷ l) = left_after (fl.sub left dt) l
  left_after left (_ ∷ l) = left_after left l

  -- steps only, and after each of them some of the time is left
  unfoldable pub IsWithin : fl.F → List (Event fl pr) → Type 0
  IsWithin left [] = Unit
  IsWithin left (stepped dt ctx normal temp draw ∷ l) =
      (fl.lt (fl.of_ℕ 0) (fl.sub left dt) ≡ true) × IsWithin (fl.sub left dt) l
  IsWithin left (_ ∷ l) = ⊥

  pub record IsRepaired (left : fl.F) (m : Machine fl.F pr.P) : Type 0 where
    pub state : m.state ≡ maintenance
    pub remaining : m.maintenance_left_s ≡ left
    pub healthy : first_failed fl pr m.components ≡ none

  update-IsRepaired :
      (dt : fl.F) (b : Bool) (left : fl.F) (m : Machine fl.F pr.P)
      → fl.lt (fl.of_ℕ 0) (fl.sub left dt) ≡ true
      → IsRepaired left m
      → IsRepaired (fl.sub left dt) (update_state fl pr dt b m)
  unfolding update_state update_from
  update-IsRepaired dt b left m t h =
      let q : update_state fl pr dt b m ≡ update_from fl pr maintenance dt b m =
        ap (λ s. update_from fl pr s dt b m) h.state in
      let k : IsRepaired (fl.sub left dt) (update_from fl pr maintenance dt b m) =
        if_ind (IsRepaired (fl.sub left dt)) (fl.lt (fl.of_ℕ 0) (fl.sub m.maintenance_left_s dt)) _
          _
          (λ e. record {
            state = h.state;
            remaining = ap (λ x. fl.sub x dt) h.remaining;
            healthy = h.healthy;
          })
          (λ e.
            absurd (ground (arith, t, e, ap (λ x. fl.lt (fl.of_ℕ 0) (fl.sub x dt)) h.remaining))) in
      rw q k

  not_running : (s : State) → s ≡ maintenance → is_running s ≡ true → ⊥
  unfolding is_running
  not_running s h e = ground (arith, e, ap is_running h)

  operate-IsRepaired :
      (exp : fl.F → fl.F) (dt target : fl.F) (manual was : Bool) (normal : fl.F)
      (temp : String → Option fl.F) (draw : String → pr.Draw) (left : fl.F) (m : Machine fl.F pr.P)
      → IsRepaired left m
      → IsRepaired left (operate fl pr exp dt target manual was normal temp draw m)
  unfolding operate
  operate-IsRepaired exp dt target manual was normal temp draw left m h =
      if_ind (IsRepaired left) (is_running m.state) _ (record m { load_pct = fl.of_ℕ 0 })
        (λ e. absurd (not_running m.state h.state e))
        (λ e. record { state = h.state; remaining = h.remaining; healthy = h.healthy })

  check-IsRepaired :
      (left : fl.F) (m : Machine fl.F pr.P)
      → IsRepaired left m
      → IsRepaired left (check_failures fl pr m)
  unfolding check_failures fail_first
  check-IsRepaired left m h =
      let k : IsRepaired left (fail_first fl pr (first_failed fl pr m.components) m) =
        rw h.healthy h in
      if_ind (IsRepaired left) (is_down m.state) m
        (fail_first fl pr (first_failed fl pr m.components) m) (λ e. h) (λ e. k)

  step-IsRepaired :
      (exp : fl.F → fl.F) (dt : fl.F) (ctx : OperatingContext fl.F) (normal : fl.F)
      (temp : String → Option fl.F) (draw : String → pr.Draw) (left : fl.F) (m : Machine fl.F pr.P)
      → fl.lt (fl.of_ℕ 0) (fl.sub left dt) ≡ true
      → IsRepaired left m
      → IsRepaired (fl.sub left dt) (step fl pr exp dt ctx normal temp draw m)
  unfolding step
  step-IsRepaired exp dt ctx normal temp draw left m t h =
      let b : Bool = ctx.producing && fl.lt (fl.of_ℕ 0) (target_of fl pr ctx m) in
      let n : Machine fl.F pr.P = record m { now_s = ctx.now_s } in
      let w : Machine fl.F pr.P = update_state fl pr dt b n in
      check-IsRepaired (fl.sub left dt)
        (operate fl pr exp dt (target_of fl pr ctx m) (is_manual fl pr m) (is_running m.state)
          normal temp draw w)
        (operate-IsRepaired exp dt (target_of fl pr ctx m) (is_manual fl pr m) (is_running m.state)
          normal temp draw (fl.sub left dt) w
          (update-IsRepaired dt b left n t
            (record { state = h.state; remaining = h.remaining; healthy = h.healthy })))

  run-IsRepaired :
      (exp : fl.F → fl.F) (es : List (Event fl pr)) (left : fl.F) (m : Machine fl.F pr.P)
      → IsWithin left es
      → IsRepaired left m
      → IsRepaired (left_after left es) (run fl pr exp es m)
  unfolding run on_event IsWithin left_after
  run-IsRepaired exp [] left m w h = h
  run-IsRepaired exp (stepped dt ctx normal temp draw ∷ es) left m (t, w) h =
      run-IsRepaired exp es (fl.sub left dt) (step fl pr exp dt ctx normal temp draw m) w
        (step-IsRepaired exp dt ctx normal temp draw left m t h)
  run-IsRepaired exp (e ∷ es) left m w h = absurd w

  reset-IsRepaired :
      (choice : Option String) (m : Machine fl.F pr.P)
      → first_failed fl pr (reset_components fl pr choice m.components) ≡ none
      → IsRepaired m.maintenance_duration_s (reset fl pr choice m)
  unfolding reset refresh_damage
  reset-IsRepaired choice m h = record { state = refl; remaining = refl; healthy = h }

  update_last :
      (dt : fl.F) (b : Bool) (left : fl.F) (m : Machine fl.F pr.P)
      → fl.lt (fl.of_ℕ 0) (fl.sub left dt) ≡ false
      → IsRepaired left m
      → is_maintenance (update_state fl pr dt b m).state ≡ false
  unfolding update_state update_from after_maintenance is_maintenance
  update_last dt b left m t h =
      ap (λ s. is_maintenance (update_from fl pr s dt b m).state) h.state
      ∙ if_ind {A = Machine fl.F pr.P} (λ n. is_maintenance n.state ≡ false)
          (fl.lt (fl.of_ℕ 0) (fl.sub m.maintenance_left_s dt)) _ _
          (λ e.
            absurd (ground (arith, t, e, ap (λ x. fl.lt (fl.of_ℕ 0) (fl.sub x dt)) h.remaining)))
          (λ e. if_ind (λ s. is_maintenance s ≡ false) b running idle (λ k. refl) (λ k. refl))

  operate_last :
      (exp : fl.F → fl.F) (dt target : fl.F) (manual was : Bool) (normal : fl.F)
      (temp : String → Option fl.F) (draw : String → pr.Draw) (m : Machine fl.F pr.P)
      → is_maintenance m.state ≡ false
      → is_maintenance (operate fl pr exp dt target manual was normal temp draw m).state ≡ false
  unfolding operate refresh_damage degrade
  operate_last exp dt target manual was normal temp draw m h =
      if_ind (λ n. is_maintenance n.state ≡ false) (is_running m.state) _
        (record m { load_pct = fl.of_ℕ 0 }) (λ e. h) (λ e. h)

  fail_last :
      (o : Option String) (m : Machine fl.F pr.P)
      → is_maintenance m.state ≡ false
      → is_maintenance (fail_first fl pr o m).state ≡ false
  unfolding fail_first fail is_maintenance
  fail_last none m h = h
  fail_last (some c) m h = refl

  check_last :
      (m : Machine fl.F pr.P)
      → is_maintenance m.state ≡ false
      → is_maintenance (check_failures fl pr m).state ≡ false
  unfolding check_failures
  check_last m h =
      if_ind (λ n. is_maintenance n.state ≡ false) (is_down m.state) m
        (fail_first fl pr (first_failed fl pr m.components) m) (λ e. h)
        (λ e. fail_last (first_failed fl pr m.components) m h)

  -- the last step of the maintenance
  last_step :
      (exp : fl.F → fl.F) (dt : fl.F) (ctx : OperatingContext fl.F) (normal : fl.F)
      (temp : String → Option fl.F) (draw : String → pr.Draw) (left : fl.F) (m : Machine fl.F pr.P)
      → fl.lt (fl.of_ℕ 0) (fl.sub left dt) ≡ false
      → IsRepaired left m
      → is_maintenance (step fl pr exp dt ctx normal temp draw m).state ≡ false
  unfolding step
  last_step exp dt ctx normal temp draw left m t h =
      let b : Bool = ctx.producing && fl.lt (fl.of_ℕ 0) (target_of fl pr ctx m) in
      let n : Machine fl.F pr.P = record m { now_s = ctx.now_s } in
      let w : Machine fl.F pr.P = update_state fl pr dt b n in
      check_last
        (operate fl pr exp dt (target_of fl pr ctx m) (is_manual fl pr m) (is_running m.state)
          normal temp draw w)
        (operate_last exp dt (target_of fl pr ctx m) (is_manual fl pr m) (is_running m.state) normal
          temp draw w
          (update_last dt b left n t
            (record { state = h.state; remaining = h.remaining; healthy = h.healthy })))

  -- A machine that is reset, as a whole or in one component, so that no component of it counts as
  -- failed any more, is in maintenance after any steps that leave some of the maintenance time, and
  -- after the step that uses it up it is not.
  pub maintenance_ends :
      (exp : fl.F → fl.F) (es : List (Event fl pr)) (choice : Option String) (m : Machine fl.F pr.P)
      → first_failed fl pr (reset_components fl pr choice m.components) ≡ none
      → IsWithin m.maintenance_duration_s es
      → ((run fl pr exp es (reset fl pr choice m)).state ≡ maintenance)
        × ((dt : fl.F) (ctx : OperatingContext fl.F) (normal : fl.F) (temp : String → Option fl.F)
              (draw : String → pr.Draw)
            → fl.lt (fl.of_ℕ 0) (fl.sub (left_after m.maintenance_duration_s es) dt) ≡ false
            → is_maintenance
                (step fl pr exp dt ctx normal temp draw
                  (run fl pr exp es (reset fl pr choice m))).state
              ≡ false)
  maintenance_ends exp es choice m f w =
      let h : IsRepaired (left_after m.maintenance_duration_s es)
          (run fl pr exp es (reset fl pr choice m)) =
        run-IsRepaired exp es m.maintenance_duration_s (reset fl pr choice m) w
          (reset-IsRepaired choice m f) in
      (
        h.state,
        λ dt ctx normal temp draw t.
            last_step exp dt ctx normal temp draw (left_after m.maintenance_duration_s es)
              (run fl pr exp es (reset fl pr choice m)) t h,
      )
