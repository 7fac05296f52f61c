-- ===== src/Decimal/Order.antt =====
-- Comparisons of decimals, from the order laws.
use stock_trading_agent.Base.{◌≡◌, sym, ap, ◌∙◌, false, arith}
use stock_trading_agent.Decimal.{Decimal, ◌+◌, ◌-◌, dec, eq, abs, ◌≤◌, ◌<◌}
use stock_trading_agent.Decimal.Laws.{IsOrdered, IsExact}

module _ {D : Type 0} ⦃d : Decimal D⦄ (laws : IsOrdered D) where
  pub abs_nonneg : (x : D) → dec 0 ≤ abs x
  unfolding abs
  abs_nonneg x = ground (arith, laws.le_of_lt x (dec 0), laws.minus_nonneg x (dec 0))

  -- Two prices that differ are a positive distance apart.
  pub abs_minus_pos : (x y : D) → eq x y ≡ false → dec 0 < abs (x - y)
  unfolding abs
  abs_minus_pos x y h = ground (
    arith,
    laws.minus_pos y x,
    laws.minus_neg x y,
    laws.le_of_lt (dec 0) (x - y),
    laws.minus_pos (x - y) (dec 0),
  )

  module _ (exact : IsExact D) where
    pub minus_le : (x y : D) → dec 0 ≤ y → x - y ≤ x
    minus_le x y h =
        let there_and_back : (y + (x - y)) - (x - y) ≡ y = exact.plus-minus y (x - y) in
        let e : x - (x - y) ≡ y =
          ap (λ t. t - (x - y)) (sym (exact.plus_comm y (x - y) ∙ exact.minus-plus x y))
          ∙ there_and_back in
        ground (arith, laws.minus_neg x (x - y), e)

    pub le_plus : (x y : D) → dec 0 ≤ y → x ≤ x + y
    le_plus x y h =
        let e : (x + y) - x ≡ y = ap (λ t. t - x) (exact.plus_comm x y) ∙ exact.plus-minus y x in
        ground (arith, laws.minus_neg (x + y) x, e)
