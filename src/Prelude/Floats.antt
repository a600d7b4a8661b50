-- ===== src/Prelude/Floats.antt =====
-- Floating-point numbers are not part of the repository: a type with the operations that the code
-- uses, and no laws. A theorem that needs a law takes it as a hypothesis or is about whole numbers.
use Prim.Native.Nat.{ℕ, ◌+◌, ◌-◌, ◌*◌, ◌/◌, compare, Ordering}
use mathlib.Core.Bool.{Bool, true, false}

pub record Floats : Type 1 where
  pub F : Type 0
  pub of_ℕ : ℕ → F
  pub add : F → F → F
  pub sub : F → F → F
  pub mul : F → F → F
  pub div : F → F → F
  pub sqrt : F → F
  pub abs : F → F
  pub lt : F → F → Bool
  pub le : F → F → Bool

-- Whole numbers, for counters, whose readings are whole and below 2^53, and for tests.
abbrev pub whole : Floats
whole = record {
  F = ℕ;
  of_ℕ = λ n. n;
  add = λ a b. a + b;
  sub = λ a b. a - b;
  mul = λ a b. a * b;
  div = λ a b. a / b;
  sqrt = λ a. a;
  abs = λ a. a;
  lt = λ a b. elim (compare a b) [ Ordering.lt ↦ true | _ ↦ false ];
  le = λ a b. elim (compare a b) [ Ordering.gt ↦ false | _ ↦ true ];
}
