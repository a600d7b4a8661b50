-- ===== src/Simulator/Wear/Damage.antt =====
-- Damage is between 0 and 1, wear does not heal a process, and a reset does.
use digital_twin.Prelude.{
  true, false, List, [], ◌∷◌, ◌||◌, ◌≡◌, refl, sym, arith, inl, inr, Bool-cases, if_ind,
}
use digital_twin.Prelude.Floats.{Floats}
use digital_twin.Simulator.Clamp.{fmax, fmin, Within, clamp-Within}
use digital_twin.Simulator.Machine.{Conditions, Process}
use digital_twin.Simulator.Wear.{
  Degradation, Gamma, Wiener, clamped, is_worn, gamma, wiener, set_level, process, step, advanced,
  rate,
}

-- what may happen to a process
pub data Op (F : Type 0) : Type 0 where
  stepped : F → Conditions F → F → Op F
  scaled jumped : F → Op F
  was_reset : Op F

module _ (fl : Floats) where
  -- how 0 and 1 compare, and that a number above 1 is at least 1
  pub record UnitBounds : Type 0 where
    pub low : fl.lt (fl.of_ℕ 0) (fl.of_ℕ 0) ≡ false
    pub high : fl.lt (fl.of_ℕ 1) (fl.of_ℕ 1) ≡ false
    pub order : fl.lt (fl.of_ℕ 1) (fl.of_ℕ 0) ≡ false
    pub strict : fl.le (fl.of_ℕ 1) (fl.of_ℕ 0) ≡ false
    pub reflexive : fl.le (fl.of_ℕ 1) (fl.of_ℕ 1) ≡ true
    pub weaken : (x : fl.F) → fl.lt (fl.of_ℕ 1) x ≡ true → fl.le (fl.of_ℕ 1) x ≡ true

  -- neither below 0 nor above 1
  unfoldable pub InUnit : fl.F → Type 0
  InUnit x = Within fl (fl.of_ℕ 0) (fl.of_ℕ 1) x

  -- one of the operations, through the interface
  unfoldable pub on_op : (pr : Process fl.F) → (fl.F → pr.Draw) → Op fl.F → pr.P → pr.P
  on_op pr draw (stepped dt cond d) p = pr.step dt cond (draw d) p
  on_op pr draw (scaled f) p = pr.scale_rate f p
  on_op pr draw (jumped a) p = pr.jump a p
  on_op pr draw was_reset p = pr.reset p

  unfoldable pub run : (pr : Process fl.F) → (fl.F → pr.Draw) → List (Op fl.F) → pr.P → pr.P
  unfolding on_op
  run pr draw [] p = p
  run pr draw (o ∷ l) p = run pr draw l (on_op pr draw o p)

  module _ (b : UnitBounds) (pow : fl.F → fl.F → fl.F) (exp : fl.F → fl.F) where
    clamped-InUnit : (x : fl.F) → InUnit (clamped fl pow exp x)
    unfolding clamped InUnit
    clamped-InUnit x = clamp-Within fl (fl.of_ℕ 0) (fl.of_ℕ 1) x b.low b.high b.order

    -- The damage that a Gamma or a Wiener process shows is neither below 0 nor above 1, in every state.
    pub damage-InUnit :
        (draw : fl.F → fl.F → fl.F → fl.F) (g : Gamma fl.F) (w : Wiener fl.F)
        → InUnit ((gamma fl pow exp draw).damage g) × InUnit ((wiener fl pow exp).damage w)
    unfolding InUnit
    damage-InUnit draw g w = (
      clamped-InUnit g.x,
      if_ind InUnit w.failed (fl.of_ℕ 1) (clamped fl pow exp w.level) (λ e. (b.order, b.high))
          (λ e. clamped-InUnit w.level),
    )

    -- the flag of a Wiener process is set once its level is at least 1
    unfoldable pub IsFlagged : Wiener fl.F → Type 0
    IsFlagged w = w.failed ≡ false → fl.le (fl.of_ℕ 1) w.level ≡ false

    set_level-IsFlagged : (x : fl.F) (w : Wiener fl.F) → IsFlagged (set_level fl pow exp x w)
    unfolding set_level IsFlagged fmin
    set_level-IsFlagged x w e =
        if_ind (λ y. fl.le (fl.of_ℕ 1) y ≡ false) (fl.lt (fl.of_ℕ 1) x) (fl.of_ℕ 1) x
          (λ t. absurd (ground (arith, e, b.weaken x t))) (λ t. e)

    below :
        (x : fl.F) → fl.le (fl.of_ℕ 1) x ≡ false → fl.le (fl.of_ℕ 1) (fmin fl x (fl.of_ℕ 1)) ≡ false
    unfolding fmin
    below x h =
        if_ind (λ y. fl.le (fl.of_ℕ 1) y ≡ false) (fl.lt (fl.of_ℕ 1) x) (fl.of_ℕ 1) x
          (λ t. absurd (ground (arith, h, b.weaken x t))) (λ t. h)

    -- below 1, a level is shown as a damage below 1
    clamped_below :
        (x : fl.F) → fl.le (fl.of_ℕ 1) x ≡ false → is_worn fl pow exp (clamped fl pow exp x) ≡ false
    unfolding is_worn clamped fmin fmax
    clamped_below x h =
        if_ind (λ y. fl.le (fl.of_ℕ 1) (fmin fl y (fl.of_ℕ 1)) ≡ false) (fl.lt x (fl.of_ℕ 0))
          (fl.of_ℕ 0) x (λ e. below (fl.of_ℕ 0) b.strict) (λ e. below x h)

    flag_lem :
        (w : Wiener fl.F)
        → IsFlagged w
        → w.failed ≡ is_worn fl pow exp ((wiener fl pow exp).damage w)
    unfolding IsFlagged is_worn
    flag_lem w h = elim (Bool-cases w.failed) [
      | inl t ↦ rw t (sym b.reflexive)
      | inr t ↦ rw t (sym (clamped_below w.level (h t)))
    ]

    step-IsFlagged :
        (dt : fl.F) (cond : Conditions fl.F) (d : fl.F) (p : Degradation fl.F (Wiener fl.F))
        → IsFlagged p.state
        → IsFlagged (step fl pow exp (wiener fl pow exp) dt cond d p).state
    unfolding step advanced
    step-IsFlagged dt cond d p h =
        let next : Degradation fl.F (Wiener fl.F) =
          advanced fl pow exp (wiener fl pow exp)
            (fl.mul dt (rate fl pow exp (wiener fl pow exp) cond p)) d p in
        if_ind (λ q. IsFlagged q.state) (fl.le dt (fl.of_ℕ 0) || p.state.failed) p next (λ e. h)
          (λ e.
            if_ind (λ q. IsFlagged q.state)
              (fl.lt (fl.of_ℕ 0) (fl.mul dt (rate fl pow exp (wiener fl pow exp) cond p)))
              (record p { state = set_level fl pow exp _ p.state }) p
              (λ k. set_level-IsFlagged _ p.state) (λ k. h))

    op-IsFlagged :
        (o : Op fl.F) (p : Degradation fl.F (Wiener fl.F))
        → IsFlagged p.state
        → IsFlagged (on_op (process fl pow exp (wiener fl pow exp)) (λ d. d) o p).state
    unfolding on_op IsFlagged
    op-IsFlagged (stepped dt cond d) p h = step-IsFlagged dt cond d p h
    op-IsFlagged (scaled f) p h = h
    op-IsFlagged (jumped a) p h = set_level-IsFlagged (fl.add p.state.level a) p.state
    op-IsFlagged was_reset p h = λ e. b.strict

    run-IsFlagged :
        (l : List (Op fl.F)) (p : Degradation fl.F (Wiener fl.F))
        → IsFlagged p.state
        → IsFlagged (run (process fl pow exp (wiener fl pow exp)) (λ d. d) l p).state
    unfolding run
    run-IsFlagged [] p h = h
    run-IsFlagged (o ∷ l) p h =
        run-IsFlagged l (on_op (process fl pow exp (wiener fl pow exp)) (λ d. d) o p)
          (op-IsFlagged o p h)

    -- From a reset on, through any steps, jumps, changes of the rate and further resets, a Wiener
    -- process has failed exactly if the damage that it shows is at least 1: its own flag agrees with the
    -- test of the base class.
    pub failed-damage :
        (l : List (Op fl.F)) (p : Degradation fl.F (Wiener fl.F))
        → (process fl pow exp (wiener fl pow exp)).failed
            (run (process fl pow exp (wiener fl pow exp)) (λ d. d) (was_reset ∷ l) p)
          ≡ is_worn fl pow exp (
              (process fl pow exp (wiener fl pow exp)).damage
                (run (process fl pow exp (wiener fl pow exp)) (λ d. d) (was_reset ∷ l) p))
    unfolding run on_op IsFlagged
    failed-damage l p =
        let q : Degradation fl.F (Wiener fl.F) =
          on_op (process fl pow exp (wiener fl pow exp)) (λ d. d) was_reset p in
        flag_lem (run (process fl pow exp (wiener fl pow exp)) (λ d. d) l q).state
          (run-IsFlagged l q (λ e. b.strict))

    -- A reset heals a Gamma and a Wiener process: it has not failed afterwards.
    pub reset-healthy :
        (draw : fl.F → fl.F → fl.F → fl.F) (g : Degradation fl.F (Gamma fl.F))
        (w : Degradation fl.F (Wiener fl.F))
        → ((process fl pow exp (gamma fl pow exp draw)).failed
              ((process fl pow exp (gamma fl pow exp draw)).reset g)
            ≡ false)
          × ((process fl pow exp (wiener fl pow exp)).failed
                ((process fl pow exp (wiener fl pow exp)).reset w)
              ≡ false)
    reset-healthy draw g w = (clamped_below (fl.of_ℕ 0) b.strict, refl)
