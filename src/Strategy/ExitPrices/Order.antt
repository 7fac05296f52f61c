-- ===== src/Strategy/ExitPrices/Order.antt =====
-- Where the calculated exit prices lie.
use stock_trading_agent.Base.{◌≡◌, refl, arith, ◌⊎◌, inl, inr, Bool-cases}
use stock_trading_agent.Base.Effects.{ok}
use stock_trading_agent.Decimal.{Decimal, ◌+◌, ◌-◌, ◌*◌, dec, lt, ◌≤◌, ◌<◌}
use stock_trading_agent.Decimal.Laws.{IsOrdered, IsExact}
use stock_trading_agent.Decimal.Order.{minus_le, le_plus}
use stock_trading_agent.Strategy.ExitPrices.{atr_based}

module _ {D : Type 0} ⦃d : Decimal D⦄ where
  pub record AroundEntry (entry stop target : D) : Type 0 where
    pub positive : dec 0 < stop
    pub below : (stop ≤ entry) ⊎ (stop ≡ dec 1)
    pub above : entry ≤ target

  -- With exact arithmetic, a positive price and range, and multipliers that are not negative, the
  -- calculation by ATR returns prices around the entry: the stop is positive, and at most the
  -- entry price or else the floor of 1; the target is at least the entry price.
  pub atr_based-AroundEntry :
      (order : IsOrdered D) (exact : IsExact D) (entry atr stop_mult tp_mult : D)
      → dec 0 < entry
      → dec 0 < atr
      → dec 0 ≤ stop_mult
      → dec 0 ≤ tp_mult
      → (stop : D) × (target : D) × (atr_based entry atr stop_mult tp_mult ≡ ok (stop, target))
        × AroundEntry entry stop target
  unfolding atr_based
  atr_based-AroundEntry order exact entry atr stop_mult tp_mult h k l m =
      let width = atr * stop_mult in
      let up =
        le_plus order exact entry (atr * tp_mult)
          (order.times_nonneg atr tp_mult (order.le_of_lt (dec 0) atr k) m) in
      let down =
        minus_le order exact entry width
          (order.times_nonneg atr stop_mult (order.le_of_lt (dec 0) atr k) l) in
      elim (Bool-cases (lt (dec 0) (entry - width))) [
        | inl above ↦ (
          entry - width,
          entry + atr * tp_mult,
          ground arith,
          record { positive = above; below = inl down; above = up },
        )
        | inr floor ↦ (
          dec 1,
          entry + atr * tp_mult,
          ground arith,
          record { positive = order.of_int_lt _ _ (omega arith); below = inr refl; above = up },
        )
      ]
