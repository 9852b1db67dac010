-- ===== src/Prelude/Float.antt =====
-- The language's `float`, which is a parameter of the model: a type with the operations that the
-- code applies to it. No law of it is assumed here; a theorem that needs one names it.
use Prim.Native.Nat.{ℕ}
use mathlib.Core.Bool.{Bool}

pub record Float : Type 1 where
  pub F : Type 0
  pub lit : ℕ → ℕ → F
  pub add : F → F → F
  pub sub : F → F → F
  pub mul : F → F → F
  pub div : F → F → F
  pub neg : F → F
  pub lt : F → F → Bool
  pub eq : F → F → Bool
  pub abs : F → F
  pub fmin : F → F → F
  pub fmax : F → F → F
  pub sqrt : F → F
  pub cos : F → F
  pub sin : F → F
  pub of_ℕ : ℕ → F
  pub trunc : F → ℕ
  pub bits : F → ℕ
