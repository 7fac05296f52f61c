-- ===== src/Strategy/Sizing.antt =====
-- `PositionSizer` (src/strategy/sizing.py): how many shares a trade may buy. That `quantize` raises on
-- a percentage of more digits than the context keeps is left out.
pub mod Caps
pub mod Total
use stock_trading_agent.Base.{Bool, Option, none, some, String, if◌then◌else◌}
use stock_trading_agent.Base.Int.{ℤ, pos, ◌-ℤ◌, min_ℤ, max_ℤ, ltb_ℤ}
use stock_trading_agent.Base.Effects.{Outcome, ok, err}
use stock_trading_agent.Decimal.{
  Decimal, ◌+◌, ◌-◌, ◌*◌, ◌/◌, of_int, to_int, dec, lt, le, eq, abs, quantize,
}
use stock_trading_agent.Core.Models.{PositionSizing}
use stock_trading_agent.Strategy.ExitPrices.{
  ValueError, entry_price_not_positive, stop_loss_not_positive, stop_loss_equals_entry,
  portfolio_not_positive, risk_reward_ratio,
}

-- The settings that the sizer reads.
pub record PositionSizer (D : Type 0) : Type 0 where
  pub risk_pct : D
  pub max_position_pct : D
  pub max_position_krw : D

module _ {D : Type 0} ⦃d : Decimal D⦄ where
  -- Steps 2 to 6: the quantity by risk, under the two caps less what is held already.
  unfoldable pub risk_quantity : PositionSizer D → D → D → D → ℤ
  risk_quantity z entry_price stop_loss_price total =
      let risk_amount = total * z.risk_pct / dec 100 in
      max_ℤ (pos 1) (to_int (risk_amount / abs (entry_price - stop_loss_price)))

  unfoldable pub cap_from_pct : PositionSizer D → D → D → D → ℤ
  cap_from_pct z entry_price total existing =
      let max_by_pct = total * z.max_position_pct / dec 100 in
      max_ℤ (pos 0) (to_int (max_by_pct / entry_price) -ℤ to_int (existing / entry_price))

  unfoldable pub cap_from_krw : PositionSizer D → D → D → ℤ
  cap_from_krw z entry_price existing =
      max_ℤ (pos 0) (to_int (z.max_position_krw / entry_price) -ℤ to_int (existing / entry_price))

  unfoldable pub sized_quantity : PositionSizer D → D → D → D → D → ℤ
  sized_quantity z entry_price stop_loss_price total existing = max_ℤ (pos 0) (
      min_ℤ
        (min_ℤ (risk_quantity z entry_price stop_loss_price total)
          (cap_from_pct z entry_price total existing))
        (cap_from_krw z entry_price existing))

  -- A share of the portfolio in percent, to two places; zero for no shares.
  unfoldable pub share_pct : ℤ → D → D → D
  share_pct quantity amount total =
      if ltb_ℤ (pos 0) quantity then quantize 2 (amount / total * dec 100) else dec 0

  unfoldable pub reward_of : D → D → Option D → Outcome ValueError (Option D)
  reward_of entry_price stop_loss_price none = ok none
  reward_of entry_price stop_loss_price (some take_profit) =
      elim (risk_reward_ratio entry_price stop_loss_price take_profit) [
        | ok ratio ↦ ok (some ratio)
        | err e ↦ err e
      ]

  -- `PositionSizer.calculate`
  unfoldable pub calculate :
      PositionSizer D → String → D → D → Option D → D → D → Outcome ValueError (PositionSizing D)
  calculate z symbol entry_price stop_loss_price take_profit_price total existing =
      if le entry_price (dec 0)
      then err entry_price_not_positive
      else if le stop_loss_price (dec 0)
      then err stop_loss_not_positive
      else if eq entry_price stop_loss_price
      then err stop_loss_equals_entry
      else if le total (dec 0)
      then err portfolio_not_positive
      else let quantity = sized_quantity z entry_price stop_loss_price total existing in
        let risk_per_share = abs (entry_price - stop_loss_price) in
        let position_value = of_int quantity * entry_price in
        let actual_risk = of_int quantity * risk_per_share in
        elim (reward_of entry_price stop_loss_price take_profit_price) [
          | err e ↦ err e
          | ok ratio ↦ ok (record {
            symbol = symbol;
            entry_price = entry_price;
            stop_loss_price = stop_loss_price;
            take_profit_price = take_profit_price;
            risk_per_share = risk_per_share;
            quantity = quantity;
            position_value_krw = position_value;
            risk_amount_krw = actual_risk;
            risk_pct_of_portfolio = share_pct quantity actual_risk total;
            position_pct_of_portfolio = share_pct quantity position_value total;
            risk_reward_ratio = ratio;
          })
        ]
