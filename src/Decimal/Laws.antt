-- ===== src/Decimal/Laws.antt =====
-- What the proofs rely on. `IsOrdered` holds of arithmetic that rounds each result correctly;
-- `IsExact` holds as long as no result needs more digits than the context keeps.
use stock_trading_agent.Base.{ℕ, ◌≡◌}
use stock_trading_agent.Base.Int.{ℤ, pos, ◌-ℤ◌, ◌≤ℤ◌, ◌<ℤ◌}
use stock_trading_agent.Decimal.{Decimal, ◌+◌, ◌-◌, ◌*◌, ◌/◌, to_int, quantize, dec, ◌≤◌, ◌<◌}

pub record IsOrdered (D : Type 0) ⦃d : Decimal D⦄ : Type 0 where
  pub le_refl : (x : D) → x ≤ x
  pub le_of_lt : (x y : D) → x < y → x ≤ y
  pub le_trans : (x y z : D) → x ≤ y → y ≤ z → x ≤ z
  pub minus_nonneg : (x y : D) → x ≤ y → dec 0 ≤ y - x
  pub minus_pos : (x y : D) → x < y → dec 0 < y - x
  pub minus_neg : (x y : D) → x < y → x - y < dec 0
  pub plus_nonneg : (x y : D) → dec 0 ≤ x → dec 0 ≤ y → dec 0 ≤ x + y
  pub times_nonneg : (x y : D) → dec 0 ≤ x → dec 0 ≤ y → dec 0 ≤ x * y
  pub over_nonneg : (x y : D) → dec 0 ≤ x → dec 0 < y → dec 0 ≤ x / y
  pub quantize_nonneg : (n : ℕ) (x : D) → dec 0 ≤ x → dec 0 ≤ quantize n x
  pub of_int_mono : (m n : ℤ) → m ≤ℤ n → d.of_int m ≤ d.of_int n
  pub of_int_lt : (m n : ℤ) → m <ℤ n → d.of_int m < d.of_int n
  pub to_int_nonneg : (x : D) → dec 0 ≤ x → pos 0 ≤ℤ to_int x

pub record IsExact (D : Type 0) ⦃d : Decimal D⦄ : Type 0 where
  pub plus_comm : (x y : D) → x + y ≡ y + x
  pub plus_assoc : (x y z : D) → (x + y) + z ≡ x + (y + z)
  pub plus_zero : (x : D) → x + dec 0 ≡ x
  pub minus-plus : (x y : D) → (x - y) + y ≡ x
  pub plus-minus : (x y : D) → (x + y) - y ≡ x
  pub minus-times : (x y z : D) → (x - y) * z ≡ x * z - y * z
  pub times-minus : (x y z : D) → x * (y - z) ≡ x * y - x * z
  pub of_int-minus : (m n : ℤ) → d.of_int (m -ℤ n) ≡ d.of_int m - d.of_int n
  -- A quotient does not round up to a whole number that it has not reached.
  pub times-le_of_over :
      (n : ℤ) (x y : D) → dec 0 ≤ x → dec 0 < y → n ≤ℤ to_int (x / y) → d.of_int n * y ≤ x
