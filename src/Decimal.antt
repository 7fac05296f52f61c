-- ===== src/Decimal.antt =====
-- Python's `decimal.Decimal`, as the operations that the program uses. Every operation may round
-- to the context's precision: nothing is assumed of it here. Values are compared as numbers, and
-- NaN and the infinities do not occur. `Decimal.Laws` states what the proofs rely on, and
-- `Decimal.Won` is an instance.
pub mod Laws
pub mod Won
pub mod Algebra
pub mod Order
use stock_trading_agent.Base.{ℕ, ◌≡◌, Bool, false, true, not, ◌&&◌, if◌then◌else◌, List, [], ◌∷◌}
use stock_trading_agent.Base.Int.{ℤ, pos}

pub record Decimal (D : Type 0) : Type 0 where
  pub plus : D → D → D
  pub minus : D → D → D
  pub times : D → D → D
  -- The code never divides by zero: each use stands behind a test of the divisor.
  pub over : D → D → D
  pub lt : D → D → Bool
  -- `Decimal(n)`
  pub of_int : ℤ → D
  -- `int(x)`, which truncates.
  pub to_int : D → ℤ
  -- `x.quantize(Decimal("1e-n"), rounding=ROUND_HALF_UP)`
  pub quantize : ℕ → D → D

module _ {D : Type 0} ⦃d : Decimal D⦄ where
  infixl 65 ◌+◌ ◌-◌
  infixl 70 ◌*◌ ◌/◌
  infix 50 ◌≤◌ ◌<◌
  abbrev pub ◌+◌ : D → D → D
  x + y = d.plus x y

  abbrev pub ◌-◌ : D → D → D
  x - y = d.minus x y

  abbrev pub ◌*◌ : D → D → D
  x * y = d.times x y

  abbrev pub ◌/◌ : D → D → D
  x / y = d.over x y

  -- `Decimal(n)` for a literal or an integer of the program.
  abbrev pub of_int : ℤ → D
  of_int n = d.of_int n

  abbrev pub to_int : D → ℤ
  to_int x = d.to_int x

  abbrev pub quantize : ℕ → D → D
  quantize n x = d.quantize n x

  abbrev pub dec : ℕ → D
  dec n = d.of_int (pos n)

  -- The comparisons `<`, `<=` and `==` of the program.
  abbrev pub lt : D → D → Bool
  lt x y = d.lt x y

  abbrev pub le : D → D → Bool
  le x y = not (d.lt y x)

  abbrev pub eq : D → D → Bool
  eq x y = not (d.lt x y) && not (d.lt y x)

  abbrev pub min : D → D → D
  min x y = if d.lt y x then y else x

  abbrev pub max : D → D → D
  max x y = if d.lt x y then y else x

  unfoldable pub abs : D → D
  abs x = if d.lt x (d.of_int (pos 0)) then d.minus (d.of_int (pos 0)) x else x

  -- `sum(xs, Decimal(0))`, from the left.
  unfoldable pub sum_from : D → List D → D
  sum_from acc [] = acc
  sum_from acc (x ∷ xs) = sum_from (d.plus acc x) xs

  -- The statements behind the tests.
  abbrev pub ◌≤◌ : D → D → Type 0
  x ≤ y = d.lt y x ≡ false

  abbrev pub ◌<◌ : D → D → Type 0
  x < y = d.lt x y ≡ true
