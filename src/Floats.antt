-- ===== src/Floats.antt =====
-- What the back-tests do with floating-point numbers, as an interface: Python's `float` is no code of
-- the program. Nothing is assumed of the operations unless a theorem says so.
use automated_stock_trading.Common.{ℕ, Bool, Option}

pub record Floats (F : Type 0) : Type 0 where
  pub of_int : ℕ → F
  pub add : F → F → F
  pub sub : F → F → F
  pub mul : F → F → F
  pub div : F → F → F
  pub neg : F → F
  pub lt : F → F → Bool
  pub le : F → F → Bool
  pub is_finite : F → Bool
  -- `int(a // b)`; `none` is the exception of `int` at an infinity or NaN, or of a zero divisor.
  pub int_floor_div : F → F → Option ℕ

module _ {F : Type 0} ⦃f : Floats F⦄ where
  infixl 65 ◌⊕◌ ◌⊖◌
  infixl 70 ◌⊗◌ ◌⊘◌
  abbrev pub ◌⊕◌ : F → F → F
  ◌⊕◌ = f.add

  abbrev pub ◌⊖◌ : F → F → F
  ◌⊖◌ = f.sub

  abbrev pub ◌⊗◌ : F → F → F
  ◌⊗◌ = f.mul

  abbrev pub ◌⊘◌ : F → F → F
  ◌⊘◌ = f.div

  -- `a < b` and `a <= b` as tests.
  abbrev pub lt_float : F → F → Bool
  lt_float = f.lt

  abbrev pub le_float : F → F → Bool
  le_float = f.le

  abbrev pub float : ℕ → F
  float = f.of_int
