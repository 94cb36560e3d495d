-- ===== src/Schema/Doubles.antt =====
-- Python floats. A value is its bit pattern, and what the code does with it is a record of
-- operations that the definitions take: the arithmetic of IEEE doubles and Python's math module
-- are not part of the repository.
use clutch_d_backend.Base.{ℕ, Bool}

pub data Float : Type 0 where
  bits : ℕ → Float

pub record FloatOps : Type 0 where
  -- `lit n d` is the literal for n / d: `lit 18 100` is 0.18
  pub lit : ℕ → ℕ → Float
  pub add : Float → Float → Float
  pub neg : Float → Float
  pub sub : Float → Float → Float
  pub mul : Float → Float → Float
  pub div : Float → Float → Float
  pub lt : Float → Float → Bool
  pub is_zero : Float → Bool
  -- round(x, 2)
  pub round2 : Float → Float
  -- int(round(x)), at amounts that are not negative
  pub to_int : Float → ℕ
  -- x ** 2
  pub square : Float → Float
  pub radians : Float → Float
  pub sin : Float → Float
  pub cos : Float → Float
  pub asin : Float → Float
  pub sqrt : Float → Float
