-- ===== src/Simulator/Machine/Load.antt =====
-- The load of a machine stays between 0 and 110 percent.
use digital_twin.Prelude.{
  String, Bool, true, false, not, Option, none, some, List, [], ◌∷◌, ◌&&◌, if◌then◌else◌, ◌≡◌, refl,
  All, if_ind,
}
use digital_twin.Prelude.Floats.{Floats}
use digital_twin.Simulator.Clamp.{Within, clamp-Within}
use digital_twin.Simulator.Machine.{
  State, running, idle, down, maintenance, FaultMode, gradual, sudden, Process, Machine,
  OperatingContext, is_running, is_down, first_failed, fail, fail_first, check_failures,
  update_from, update_state, operate, step, is_manual, target_of, walked, follow_plan,
  refresh_damage, degrade,
}
use digital_twin.Simulator.Machine.Service.{
  Event, stepped, load_set, speed_set, injected, was_reset, on_event, run, set_load_setpoint, reset,
  inject, inject_at, inject_into, component_for_mode, or_same, with_process,
}

module _ (fl : Floats) where
  -- neither below 0 nor above 110
  unfoldable pub InRange : fl.F → Type 0
  InRange x = Within fl (fl.of_ℕ 0) (fl.of_ℕ 110) x

  -- how the bounds themselves compare
  pub record Bounds : Type 0 where
    pub low : fl.lt (fl.of_ℕ 0) (fl.of_ℕ 0) ≡ false
    pub high : fl.lt (fl.of_ℕ 110) (fl.of_ℕ 110) ≡ false
    pub order : fl.lt (fl.of_ℕ 110) (fl.of_ℕ 0) ≡ false

  module _ (bounds : Bounds) where
    pub zero-InRange : InRange (fl.of_ℕ 0)
    unfolding InRange
    zero-InRange = (bounds.low, bounds.order)

    follow_plan-InRange :
        (exp : fl.F → fl.F) (load target dt normal : fl.F) (walk : Bool)
        → (walk ≡ false → InRange target)
        → InRange (follow_plan fl exp load target dt normal walk)
    unfolding follow_plan walked InRange
    follow_plan-InRange exp load target dt normal true h =
        clamp-Within fl (fl.of_ℕ 0) (fl.of_ℕ 110) _ bounds.low bounds.high bounds.order
    follow_plan-InRange exp load target dt normal false h = h refl

    module _ (pr : Process fl.F) where
      unfoldable pub HasSetpoint : Option fl.F → Type 0
      HasSetpoint none = Unit
      HasSetpoint (some x) = InRange x

      -- the load and a setpoint that an operator gave are in range
      pub record IsInRange (m : Machine fl.F pr.P) : Type 0 where
        pub load : InRange m.load_pct
        pub setpoint : HasSetpoint m.load_setpoint_pct

      -- a load setpoint is in range
      unfoldable pub IsChecked : Event fl pr → Type 0
      IsChecked (load_set x) = InRange x
      IsChecked _ = Unit

      update-IsInRange :
          (s : State) (dt : fl.F) (b : Bool) (m : Machine fl.F pr.P)
          → IsInRange m
          → IsInRange (update_from fl pr s dt b m)
      unfolding update_from
      update-IsInRange down dt b m h = h
      update-IsInRange maintenance dt b m h =
          if_ind IsInRange (fl.lt (fl.of_ℕ 0) (fl.sub m.maintenance_left_s dt)) _ _
            (λ e. record { load = h.load; setpoint = h.setpoint })
            (λ e. record { load = h.load; setpoint = h.setpoint })
      update-IsInRange running dt b m h = record { load = h.load; setpoint = h.setpoint }
      update-IsInRange idle dt b m h = record { load = h.load; setpoint = h.setpoint }

      fail_first-IsInRange :
          (o : Option String) (m : Machine fl.F pr.P)
          → IsInRange m
          → IsInRange (fail_first fl pr o m)
      unfolding fail_first fail
      fail_first-IsInRange none m h = h
      fail_first-IsInRange (some c) m h = record { load = zero-InRange; setpoint = h.setpoint }

      check-IsInRange : (m : Machine fl.F pr.P) → IsInRange m → IsInRange (check_failures fl pr m)
      unfolding check_failures
      check-IsInRange m h =
          if_ind IsInRange (is_down m.state) m
            (fail_first fl pr (first_failed fl pr m.components) m) (λ e. h)
            (λ e. fail_first-IsInRange (first_failed fl pr m.components) m h)

      -- the target is the setpoint or the walk is bounded
      target_lem :
          (o : Option fl.F) (plan : fl.F)
          → HasSetpoint o
          → not (elim o [ none ↦ false | some l ↦ true ]) ≡ false
          → InRange (elim o [ none ↦ plan | some l ↦ l ])
      unfolding HasSetpoint
      target_lem none plan h e = cc
      target_lem (some x) plan h e = h

      operate-IsInRange :
          (exp : fl.F → fl.F) (dt target : fl.F) (manual was : Bool) (normal : fl.F)
          (temp : String → Option fl.F) (draw : String → pr.Draw) (m : Machine fl.F pr.P)
          → (not manual ≡ false → InRange target)
          → IsInRange m
          → IsInRange (operate fl pr exp dt target manual was normal temp draw m)
      unfolding operate refresh_damage degrade
      operate-IsInRange exp dt target manual was normal temp draw m t h =
          if_ind IsInRange (is_running m.state) _ (record m { load_pct = fl.of_ℕ 0 })
            (λ e. record {
              load =
                  follow_plan-InRange exp (if was then m.load_pct else target) target dt normal
                    (not manual) t;
              setpoint = h.setpoint;
            })
            (λ e. record { load = zero-InRange; setpoint = h.setpoint })

      step-IsInRange :
          (exp : fl.F → fl.F) (dt : fl.F) (ctx : OperatingContext fl.F) (normal : fl.F)
          (temp : String → Option fl.F) (draw : String → pr.Draw) (m : Machine fl.F pr.P)
          → IsInRange m
          → IsInRange (step fl pr exp dt ctx normal temp draw m)
      unfolding step update_state is_manual target_of
      step-IsInRange exp dt ctx normal temp draw m h =
          let b : Bool = ctx.producing && fl.lt (fl.of_ℕ 0) (target_of fl pr ctx m) in
          let n : Machine fl.F pr.P = record m { now_s = ctx.now_s } in
          let w : Machine fl.F pr.P = update_state fl pr dt b n in
          let k : IsInRange w =
            update-IsInRange m.state dt b n (record { load = h.load; setpoint = h.setpoint }) in
          check-IsInRange
            (operate fl pr exp dt (target_of fl pr ctx m) (is_manual fl pr m) (is_running m.state)
              normal temp draw w)
            (operate-IsInRange exp dt (target_of fl pr ctx m) (is_manual fl pr m)
              (is_running m.state) normal temp draw w
              (target_lem m.load_setpoint_pct ctx.plan_load_pct h.setpoint) k)

      into-IsInRange :
          (kind : FaultMode) (mode : String) (severity : fl.F) (temp : Option fl.F) (p : pr.P)
          (m : Machine fl.F pr.P)
          → IsInRange m
          → IsInRange (inject_into fl pr kind mode severity temp p m)
      unfolding inject_into refresh_damage
      into-IsInRange gradual mode severity temp p m h = record {
        load = h.load;
        setpoint = h.setpoint;
      }
      into-IsInRange sudden mode severity temp p m h =
          check-IsInRange
            (refresh_damage fl pr
              (record m { components = with_process fl pr mode (pr.jump severity p) m.components }))
            (record { load = h.load; setpoint = h.setpoint })

      inject-IsInRange :
          (o : Option pr.P) (mode : String) (kind : FaultMode) (severity : fl.F)
          (temp : Option fl.F) (m : Machine fl.F pr.P)
          → IsInRange m
          → IsInRange (or_same fl pr (inject_at fl pr o mode kind severity temp m) m)
      unfolding inject_at or_same
      inject-IsInRange none mode kind severity temp m h = h
      inject-IsInRange (some p) mode kind severity temp m h =
          let k : IsInRange (inject_into fl pr kind mode severity temp p m) =
            into-IsInRange kind mode severity temp p m h in
          record { load = k.load; setpoint = k.setpoint }

      event-IsInRange :
          (exp : fl.F → fl.F) (e : Event fl pr) (m : Machine fl.F pr.P)
          → IsChecked e
          → IsInRange m
          → IsInRange (on_event fl pr exp e m)
      unfolding on_event set_load_setpoint reset refresh_damage IsChecked HasSetpoint inject
      event-IsInRange exp (stepped dt ctx normal temp draw) m c h =
          step-IsInRange exp dt ctx normal temp draw m h
      event-IsInRange exp (load_set x) m c h = record { load = h.load; setpoint = c }
      event-IsInRange exp (speed_set x) m c h = record { load = h.load; setpoint = h.setpoint }
      event-IsInRange exp (injected a b d f) m c h =
          inject-IsInRange
            (elim (component_for_mode fl pr a m.components) [ none ↦ none | some o ↦ o.process ]) a
            b d f m h
      event-IsInRange exp (was_reset r) m c h = record {
        load = zero-InRange;
        setpoint = h.setpoint;
      }

      run-IsInRange :
          (exp : fl.F → fl.F) (es : List (Event fl pr)) (m : Machine fl.F pr.P)
          → All IsChecked es
          → IsInRange m
          → IsInRange (run fl pr exp es m)
      unfolding run
      run-IsInRange exp [] m c h = h
      run-IsInRange exp (e ∷ es) m (c, cs) h =
          run-IsInRange exp es (on_event fl pr exp e m) cs (event-IsInRange exp e m c h)

      -- The load of a machine that starts between 0 and 110 percent stays there through any steps, with
      -- any plan and any random draws, faults, resets and setpoints, if the load setpoints are between 0
      -- and 110: neither below 0 nor above 110.
      pub load-InRange :
          (exp : fl.F → fl.F) (es : List (Event fl pr)) (m : Machine fl.F pr.P)
          → All IsChecked es
          → IsInRange m
          → InRange (run fl pr exp es m).load_pct
      load-InRange exp es m c h = (run-IsInRange exp es m c h).load
