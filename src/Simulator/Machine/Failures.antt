-- ===== src/Simulator/Machine/Failures.antt =====
-- A machine with a failed component is down, and stays down until a reset.
use digital_twin.Prelude.{
  String, Bool, true, false, Option, none, some, List, [], ◌∷◌, ◌&&◌, ◌≡◌, refl, ap, arith,
  Bool-cases, inl, inr, All, if_ind,
}
use digital_twin.Prelude.Floats.{Floats}
use digital_twin.Simulator.Machine.{
  State, down, Process, Component, Machine, OperatingContext, is_running, is_down, has_failed,
  first_failed, fail, fail_first, check_failures, update_from, update_state, operate, step,
  is_manual, target_of,
}
use digital_twin.Simulator.Machine.Service.{
  Event, stepped, load_set, speed_set, injected, was_reset, on_event, run, set_load_setpoint,
}

running_down : (s : State) → is_running s ≡ true → s ≡ down → ⊥
unfolding is_running
running_down s e h = ground (arith, e, ap is_running h)

module _ (fl : Floats) (pr : Process fl.F) where
  unfoldable pub NoneFailed : List (Component fl.F pr.P) → Type 0
  NoneFailed l = All (λ c. has_failed fl pr c ≡ false) l

  first_failed-NoneFailed :
      (l : List (Component fl.F pr.P)) → first_failed fl pr l ≡ none → NoneFailed l
  unfolding first_failed NoneFailed
  first_failed-NoneFailed [] h = tt
  first_failed-NoneFailed (c ∷ l) h = elim (Bool-cases (has_failed fl pr c)) [
    | inl e ↦ absurd (ground (arith, h, e))
    | inr e ↦ (e, first_failed-NoneFailed l (ground (arith, h, e)))
  ]

  fail_first-NoneFailed :
      (o : Option String) (m : Machine fl.F pr.P)
      → first_failed fl pr m.components ≡ o
      → is_down (fail_first fl pr o m).state ≡ false
      → NoneFailed (fail_first fl pr o m).components
  unfolding fail_first fail is_down
  fail_first-NoneFailed none m e h = first_failed-NoneFailed m.components e
  fail_first-NoneFailed (some c) m e h = cc

  pub check_failures-NoneFailed :
      (m : Machine fl.F pr.P)
      → is_down (check_failures fl pr m).state ≡ false
      → NoneFailed (check_failures fl pr m).components
  unfolding check_failures
  check_failures-NoneFailed m =
      let next : Machine fl.F pr.P = fail_first fl pr (first_failed fl pr m.components) m in
      if_ind (λ n. is_down n.state ≡ false → NoneFailed n.components) (is_down m.state) m next
        (λ e h. absurd (ground (arith, h, e)))
        (λ e h. fail_first-NoneFailed (first_failed fl pr m.components) m refl h)

  -- After every step of a machine, if it is not down, then none of its components has failed.
  pub step-NoneFailed :
      (exp : fl.F → fl.F) (dt : fl.F) (ctx : OperatingContext fl.F) (normal : fl.F)
      (temp : String → Option fl.F) (draw : String → pr.Draw) (m : Machine fl.F pr.P)
      → is_down (step fl pr exp dt ctx normal temp draw m).state ≡ false
      → NoneFailed (step fl pr exp dt ctx normal temp draw m).components
  unfolding step
  step-NoneFailed exp dt ctx normal temp draw m h =
      let b : Bool = ctx.producing && fl.lt (fl.of_ℕ 0) (target_of fl pr ctx m) in
      let n : Machine fl.F pr.P = update_state fl pr dt b (record m { now_s = ctx.now_s }) in
      check_failures-NoneFailed
        (operate fl pr exp dt (target_of fl pr ctx m) (is_manual fl pr m) (is_running m.state)
          normal temp draw n)
        h

  -- down, without a load, and with the given components
  pub record IsStopped (l : List (Component fl.F pr.P)) (m : Machine fl.F pr.P) : Type 0 where
    pub state : m.state ≡ down
    pub load : m.load_pct ≡ fl.of_ℕ 0
    pub components : m.components ≡ l

  update-IsStopped :
      (l : List (Component fl.F pr.P)) (dt : fl.F) (b : Bool) (m : Machine fl.F pr.P)
      → IsStopped l m
      → IsStopped l (update_state fl pr dt b m)
  unfolding update_state update_from
  update-IsStopped l dt b m h =
      let q : update_state fl pr dt b m ≡ m = ap (λ s. update_from fl pr s dt b m) h.state in rw q h

  operate-IsStopped :
      (l : List (Component fl.F pr.P)) (exp : fl.F → fl.F) (dt target : fl.F) (manual was : Bool)
      (normal : fl.F) (temp : String → Option fl.F) (draw : String → pr.Draw)
      (m : Machine fl.F pr.P)
      → IsStopped l m
      → IsStopped l (operate fl pr exp dt target manual was normal temp draw m)
  unfolding operate
  operate-IsStopped l exp dt target manual was normal temp draw m h =
      if_ind (IsStopped l) (is_running m.state) _ (record m { load_pct = fl.of_ℕ 0 })
        (λ e. absurd (running_down m.state e h.state))
        (λ e. record { state = h.state; load = refl; components = h.components })

  check-IsStopped :
      (l : List (Component fl.F pr.P)) (m : Machine fl.F pr.P)
      → IsStopped l m
      → IsStopped l (check_failures fl pr m)
  unfolding check_failures is_down
  check-IsStopped l m h =
      if_ind (IsStopped l) (is_down m.state) m
        (fail_first fl pr (first_failed fl pr m.components) m) (λ e. h)
        (λ e. absurd (ground (arith, e, ap is_down h.state)))

  -- a step, or a change of a setpoint
  unfoldable pub IsOrdinary : Event fl pr → Type 0
  IsOrdinary (stepped dt ctx normal temp draw) = Unit
  IsOrdinary (load_set x) = Unit
  IsOrdinary (speed_set x) = Unit
  IsOrdinary _ = ⊥

  event-IsStopped :
      (exp : fl.F → fl.F) (l : List (Component fl.F pr.P)) (e : Event fl pr) (m : Machine fl.F pr.P)
      → IsOrdinary e
      → IsStopped l m
      → IsStopped l (on_event fl pr exp e m)
  unfolding on_event IsOrdinary step set_load_setpoint
  event-IsStopped exp l (stepped dt ctx normal temp draw) m o h =
      let b : Bool = ctx.producing && fl.lt (fl.of_ℕ 0) (target_of fl pr ctx m) in
      let n : Machine fl.F pr.P = record m { now_s = ctx.now_s } in
      let k : IsStopped l n = record {
        state = h.state;
        load = h.load;
        components = h.components;
      } in
      let w : Machine fl.F pr.P = update_state fl pr dt b n in
      check-IsStopped l
        (operate fl pr exp dt (target_of fl pr ctx m) (is_manual fl pr m) (is_running m.state)
          normal temp draw w)
        (operate-IsStopped l exp dt (target_of fl pr ctx m) (is_manual fl pr m) (is_running m.state)
          normal temp draw w (update-IsStopped l dt b n k))
  event-IsStopped exp l (load_set x) m o h = record {
    state = h.state;
    load = h.load;
    components = h.components;
  }
  event-IsStopped exp l (speed_set x) m o h = record {
    state = h.state;
    load = h.load;
    components = h.components;
  }
  event-IsStopped exp l (injected a b c d) m o h = absurd o
  event-IsStopped exp l (was_reset c) m o h = absurd o

  run-IsStopped :
      (exp : fl.F → fl.F) (l : List (Component fl.F pr.P)) (es : List (Event fl pr))
      (m : Machine fl.F pr.P)
      → All IsOrdinary es
      → IsStopped l m
      → IsStopped l (run fl pr exp es m)
  unfolding run
  run-IsStopped exp l [] m o h = h
  run-IsStopped exp l (e ∷ es) m (o, os) h =
      run-IsStopped exp l es (on_event fl pr exp e m) os (event-IsStopped exp l e m o h)

  -- A machine that is down and has no load stays so, and its components do not wear, through any
  -- steps and changes of its setpoints: only a reset or an injected fault can change that.
  pub down_until_reset :
      (exp : fl.F → fl.F) (es : List (Event fl pr)) (m : Machine fl.F pr.P)
      → All IsOrdinary es
      → m.state ≡ down
      → m.load_pct ≡ fl.of_ℕ 0
      → IsStopped m.components (run fl pr exp es m)
  down_until_reset exp es m o s l =
      run-IsStopped exp m.components es m o (record { state = s; load = l; components = refl })
