-- ===== src/Strategy/Sizing/Caps.antt =====
-- The sizer never buys beyond its caps.
use stock_trading_agent.Base.{◌≡◌, Option, String, arith, ◌⊎◌, inl, inr, false}
use stock_trading_agent.Base.Int.{ℤ, pos, ◌+ℤ◌, ◌-ℤ◌, ◌≤ℤ◌, ◌<ℤ◌, min_ℤ, max_ℤ, -ℤ_parts, +ℤ_parts}
use stock_trading_agent.Base.Effects.{ok}
use stock_trading_agent.Decimal.{Decimal, ◌-◌, ◌*◌, ◌/◌, of_int, to_int, dec, le, eq, abs, ◌≤◌, ◌<◌}
use stock_trading_agent.Decimal.Laws.{IsOrdered, IsExact}
use stock_trading_agent.Decimal.Order.{abs_minus_pos}
use stock_trading_agent.Core.Models.{PositionSizing}
use stock_trading_agent.Strategy.Sizing.{
  PositionSizer, risk_quantity, cap_from_pct, cap_from_krw, sized_quantity, calculate,
}

-- The least of three numbers and not below zero.
clamp_bounds :
    (a b c : ℤ)
    → let r = max_ℤ (pos 0) (min_ℤ (min_ℤ a b) c) in
      (pos 0 ≤ℤ r) × (pos 0 <ℤ r → (r ≤ℤ a) × (r ≤ℤ b) × (r ≤ℤ c))
clamp_bounds a b c = ground arith

-- A positive number under a difference that was cut off at zero.
under_cut : (q a b : ℤ) → pos 0 <ℤ q → q ≤ℤ max_ℤ (pos 0) (a -ℤ b) → q +ℤ b ≤ℤ a
under_cut q a b h le = ground (arith, -ℤ_parts a b, +ℤ_parts q b)

-- Above a floor of one, a number is that of the other argument.
above_floor : (q a : ℤ) → q ≤ℤ max_ℤ (pos 1) a → (q ≤ℤ a) ⊎ (q ≤ℤ pos 1)
above_floor q a h = ground arith

dec_lt_ℤ : (a b : ℤ) → (a <ℤ b) ⊎ (b ≤ℤ a)
dec_lt_ℤ a b = omega arith

module _ {D : Type 0} ⦃d : Decimal D⦄ where
  -- What a size keeps to: it is not negative; a trade of at least one share, together with the whole
  -- shares that the existing holding is worth, is within both caps; and the loss at the stop is
  -- within the risk budget, but for a single share.
  pub record Within (z : PositionSizer D) (total existing : D) (r : PositionSizing D) : Type 0 where
    pub nonneg : pos 0 ≤ℤ r.quantity
    pub krw :
        pos 0 <ℤ r.quantity
        → of_int (r.quantity +ℤ to_int (existing / r.entry_price)) * r.entry_price
          ≤ z.max_position_krw
    pub pct :
        pos 0 <ℤ r.quantity
        → of_int (r.quantity +ℤ to_int (existing / r.entry_price)) * r.entry_price
          ≤ total * z.max_position_pct / dec 100
    pub risk :
        (of_int r.quantity * r.risk_per_share ≤ total * z.risk_pct / dec 100)
        ⊎ (r.quantity ≤ℤ pos 1)

  calculate-fields :
      (z : PositionSizer D) (symbol : String) (entry stop : D) (target : Option D)
      (total existing : D) {r : PositionSizing D}
      → calculate z symbol entry stop target total existing ≡ ok r
      → (dec 0 < entry)
        × (eq entry stop ≡ false)
        × (dec 0 < total)
        × (r.entry_price ≡ entry)
        × (r.quantity ≡ sized_quantity z entry stop total existing)
        × (r.risk_per_share ≡ abs (entry - stop))
  unfolding calculate
  calculate-fields z symbol entry stop target total existing h = ground arith

  -- The settings are not negative.
  pub record IsSettled (z : PositionSizer D) : Type 0 where
    pub risk : dec 0 ≤ z.risk_pct
    pub pct : dec 0 ≤ z.max_position_pct
    pub krw : dec 0 ≤ z.max_position_krw

  module _ (order : IsOrdered D) (exact : IsExact D) (z : PositionSizer D)
      (ok_z : IsSettled z) where
    -- A percentage of a positive amount.
    share_nonneg : (total pct : D) → dec 0 < total → dec 0 ≤ pct → dec 0 ≤ total * pct / dec 100
    share_nonneg total pct h k =
        order.over_nonneg (total * pct) (dec 100)
          (order.times_nonneg total pct (order.le_of_lt (dec 0) total h) k)
          (order.of_int_lt (pos 0) (pos 100) (omega arith))

    module _ (entry stop total existing : D) (positive : dec 0 < entry)
        (differ : eq entry stop ≡ false) (wealth : dec 0 < total) where
      abbrev quantity : ℤ
      quantity = sized_quantity z entry stop total existing

      bounds :
          (pos 0 ≤ℤ quantity)
          × (pos 0 <ℤ quantity
              → (quantity ≤ℤ risk_quantity z entry stop total)
                × (quantity ≤ℤ cap_from_pct z entry total existing)
                × (quantity ≤ℤ cap_from_krw z entry existing))
      unfolding sized_quantity
      bounds =
          clamp_bounds (risk_quantity z entry stop total) (cap_from_pct z entry total existing)
            (cap_from_krw z entry existing)

      within_krw :
          pos 0 <ℤ quantity
          → of_int (quantity +ℤ to_int (existing / entry)) * entry ≤ z.max_position_krw
      unfolding cap_from_krw
      within_krw h =
          exact.times-le_of_over (quantity +ℤ to_int (existing / entry)) z.max_position_krw entry
            ok_z.krw positive (under_cut quantity _ _ h (bounds.1 h).2)

      within_pct :
          pos 0 <ℤ quantity
          → of_int (quantity +ℤ to_int (existing / entry)) * entry
            ≤ total * z.max_position_pct / dec 100
      unfolding cap_from_pct
      within_pct h =
          exact.times-le_of_over (quantity +ℤ to_int (existing / entry))
            (total * z.max_position_pct / dec 100) entry
            (share_nonneg total z.max_position_pct wealth ok_z.pct) positive
            (under_cut quantity _ _ h (bounds.1 h).1)

      within_risk :
          (of_int quantity * abs (entry - stop) ≤ total * z.risk_pct / dec 100)
          ⊎ (quantity ≤ℤ pos 1)
      unfolding risk_quantity
      within_risk = elim (dec_lt_ℤ (pos 0) quantity) [
        | inl some_shares ↦ elim (above_floor quantity _ (bounds.1 some_shares).0) [
          | inl by_risk ↦ inl (
              exact.times-le_of_over quantity (total * z.risk_pct / dec 100) (abs (entry - stop))
                (share_nonneg total z.risk_pct wealth ok_z.risk)
                (abs_minus_pos order entry stop differ) by_risk)
          | inr floor ↦ inr floor
        ]
        | inr no_share ↦ inr (omega arith)
      ]

    -- With exact arithmetic and settings that are not negative, a size that the sizer returns is
    -- not negative; if it has any shares, they and the whole shares that the existing holding is
    -- worth are together within both caps; and the loss at the stop is within the risk budget,
    -- unless the size is at most one share.
    pub calculate-Within :
        (symbol : String) (entry stop : D) (target : Option D) (total existing : D)
        {r : PositionSizing D}
        → calculate z symbol entry stop target total existing ≡ ok r
        → Within z total existing r
    calculate-Within symbol entry stop target total existing {r} h =
        let got = calculate-fields z symbol entry stop target total existing h in
        let at = got.0 in
        let differ = got.1 in
        let wealth = got.2 in
        let q = bounds entry stop total existing at differ wealth in
        record {
          nonneg = rw (got.4) q.0;
          krw = rw (got.3, got.4) (within_krw entry stop total existing at differ wealth);
          pct = rw (got.3, got.4) (within_pct entry stop total existing at differ wealth);
          risk = rw (got.4, got.5) (within_risk entry stop total existing at differ wealth);
        }
