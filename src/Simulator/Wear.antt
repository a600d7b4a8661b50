-- ===== src/Simulator/Wear.antt =====
-- apps/simulator/sim/physics: `DegradationProcess` of process.py, `Arrhenius`, and `GammaProcess` and
-- `WienerProcess`, which fill the interface of Simulator/Machine.antt. Floating-point numbers, exp and
-- powers are parameters; the draw of the generator that a step needs is an argument.
pub mod Damage
use digital_twin.Prelude.{ℕ, Bool, true, false, not, Option, none, some, ◌||◌, if◌then◌else◌}
use digital_twin.Prelude.Floats.{Floats}
use digital_twin.Simulator.Clamp.{fmax, fmin}
use digital_twin.Simulator.Machine.{Conditions, Process}

pub record Arrhenius (F : Type 0) : Type 0 where
  pub ea_ev : F
  pub t_ref_c : F

-- what a subclass of `DegradationProcess` defines
pub record Subclass (F : Type 0) : Type 1 where
  pub S : Type 0
  pub damage : S → F
  pub failed : S → Bool
  pub acceleration : S → Conditions F → F
  pub advance : F → F → S → S
  pub remaining_reference_s : S → F
  pub jump : F → S → S
  pub reset_state : S → S

pub record Degradation (F S : Type 0) : Type 0 where
  pub arrhenius : Option (Arrhenius F)
  pub rate_multiplier : F
  pub state : S

pub record Gamma (F : Type 0) : Type 0 where
  pub shape_rate : F
  pub scale : F
  pub load_exp : F
  pub speed_exp : F
  pub x : F

pub record Wiener (F : Type 0) : Type 0 where
  pub drift : F
  pub diffusion : F
  pub load_exp : F
  pub speed_exp : F
  pub level : F
  pub failed : Bool

module _ (fl : Floats) (pow : fl.F → fl.F → fl.F) (exp : fl.F → fl.F) where
  -- min(max(x, 0.0), 1.0)
  unfoldable pub clamped : fl.F → fl.F
  unfolding fmin fmax
  clamped x = fmin fl (fmax fl x (fl.of_ℕ 0)) (fl.of_ℕ 1)

  -- KELVIN
  unfoldable pub kelvin : fl.F
  kelvin = fl.div (fl.of_ℕ 27315) (fl.of_ℕ 100)

  -- `Arrhenius.factor`; the quotient is BOLTZMANN_EV_PER_K
  unfoldable pub arrhenius_factor : Arrhenius fl.F → fl.F → fl.F
  unfolding kelvin fmin fmax
  arrhenius_factor a temp_c =
      let t_k = fmax fl (fl.add temp_c kelvin) (fl.of_ℕ 1) in
      let inv_diff =
        fl.sub (fl.div (fl.of_ℕ 1) (fl.add a.t_ref_c kelvin)) (fl.div (fl.of_ℕ 1) t_k) in
      exp (
        fmin fl
          (fl.mul (fl.div a.ea_ev (fl.div (fl.of_ℕ 8617333262) (fl.of_ℕ 100000000000000))) inv_diff)
          (fl.of_ℕ 50))

  -- `acceleration`, which the two classes share
  unfoldable pub stress : fl.F → fl.F → Conditions fl.F → fl.F
  stress load_exp speed_exp cond =
      fl.mul (pow (fmax fl cond.load (fl.of_ℕ 0)) load_exp)
        (pow (fmax fl cond.speed (fl.of_ℕ 0)) speed_exp)

  -- `failed` of the base class
  unfoldable pub is_worn : fl.F → Bool
  is_worn damage = fl.le (fl.of_ℕ 1) damage

  -- `GammaProcess`; the draw is that of `rng.gamma(shape_rate * reference_s, scale)`, of the two
  -- arguments and a seed
  abbrev pub gamma : (fl.F → fl.F → fl.F → fl.F) → Subclass fl.F
  gamma draw = record {
    S = Gamma fl.F;
    damage = λ g. clamped g.x;
    failed = λ g. is_worn (clamped g.x);
    acceleration = λ g cond. stress g.load_exp g.speed_exp cond;
    advance = λ reference_s seed g. record g {
      x = fmin fl (fl.add g.x (draw (fl.mul g.shape_rate reference_s) g.scale seed)) (fl.of_ℕ 1);
    };
    remaining_reference_s = λ g. fl.div (fl.sub (fl.of_ℕ 1) g.x) (fl.mul g.shape_rate g.scale);
    jump = λ amount g. record g { x = fmin fl (fl.add g.x amount) (fl.of_ℕ 1) };
    reset_state = λ g. record g { x = fl.of_ℕ 0 };
  }

  -- `_set_level`
  unfoldable pub set_level : fl.F → Wiener fl.F → Wiener fl.F
  set_level level w = record w {
    level = fmin fl level (fl.of_ℕ 1);
    failed = fl.le (fl.of_ℕ 1) level;
  }

  -- `WienerProcess`; the draw is that of `rng.normal()`
  abbrev pub wiener : Subclass fl.F
  wiener = record {
    S = Wiener fl.F;
    damage = λ w. if w.failed then fl.of_ℕ 1 else clamped w.level;
    failed = λ w. w.failed;
    acceleration = λ w cond. stress w.load_exp w.speed_exp cond;
    advance = λ reference_s normal w.
        set_level
          (fl.add (fl.add w.level (fl.mul w.drift reference_s))
            (fl.mul (fl.mul w.diffusion (fl.sqrt reference_s)) normal))
          w;
    remaining_reference_s = λ w. fl.div (fl.sub (fl.of_ℕ 1) w.level) w.drift;
    jump = λ amount w. set_level (fl.add w.level amount) w;
    reset_state = λ w. record w { level = fl.of_ℕ 0; failed = false };
  }

  module _ (sub : Subclass fl.F) where
    -- the factor of the temperature
    unfoldable pub heated : Option (Arrhenius fl.F) → Option fl.F → fl.F → fl.F
    heated (some a) (some temp) factor = fl.mul factor (arrhenius_factor a temp)
    heated _ _ factor = factor

    -- `rate`
    unfoldable pub rate : Conditions fl.F → Degradation fl.F sub.S → fl.F
    unfolding heated
    rate cond p =
        heated p.arrhenius cond.temp_c (fl.mul (sub.acceleration p.state cond) p.rate_multiplier)

    -- `_advance` if there was any wear
    unfoldable pub advanced : fl.F → fl.F → Degradation fl.F sub.S → Degradation fl.F sub.S
    advanced reference_s draw p =
        if fl.lt (fl.of_ℕ 0) reference_s
        then record p { state = sub.advance reference_s draw p.state }
        else p

    -- `step`
    unfoldable pub step :
        fl.F → Conditions fl.F → fl.F → Degradation fl.F sub.S → Degradation fl.F sub.S
    unfolding advanced rate
    step dt cond draw p =
        if fl.le dt (fl.of_ℕ 0) || sub.failed p.state
        then p
        else advanced (fl.mul dt (rate cond p)) draw p

    -- `true_rul`, where none is inf
    unfoldable pub true_rul : Conditions fl.F → Degradation fl.F sub.S → Option fl.F
    unfolding rate
    true_rul cond p =
        if sub.failed p.state
        then some (fl.of_ℕ 0)
        else if fl.le (rate cond p) (fl.of_ℕ 0)
        then none
        else some (fl.div (fmax fl (sub.remaining_reference_s p.state) (fl.of_ℕ 0)) (rate cond p))

    -- the process of a component
    abbrev pub process : Process fl.F
    process = record {
      P = Degradation fl.F sub.S;
      Draw = fl.F;
      damage = λ p. sub.damage p.state;
      failed = λ p. sub.failed p.state;
      step = step;
      true_rul = true_rul;
      scale_rate = λ f p. record p { rate_multiplier = fl.mul p.rate_multiplier f };
      jump = λ amount p. record p { state = sub.jump amount p.state };
      reset = λ p. record p { rate_multiplier = fl.of_ℕ 1; state = sub.reset_state p.state };
    }
