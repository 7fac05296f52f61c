-- ===== src/Strategy/ExitPrices.antt =====
-- `ExitPriceCalculator` (src/strategy/exit_calculator.py).
pub mod Order
use stock_trading_agent.Base.{if◌then◌else◌}
use stock_trading_agent.Base.Effects.{Outcome, ok, err}
use stock_trading_agent.Decimal.{Decimal, ◌+◌, ◌-◌, ◌*◌, ◌/◌, dec, lt, le, eq, abs, quantize}

-- The `ValueError`s of the calculator and of the sizer, one for each message.
pub data ValueError : Type 0 where
  entry_price_not_positive stop_pct_negative tp_pct_negative atr_not_positive : ValueError
  highest_not_positive trailing_pct_not_positive : ValueError
  stop_loss_not_positive stop_loss_equals_entry portfolio_not_positive : ValueError

module _ {D : Type 0} ⦃d : Decimal D⦄ where
  unfoldable pub fixed_percentage : D → D → D → Outcome ValueError (D × D)
  fixed_percentage entry_price stop_pct tp_pct =
      if le entry_price (dec 0)
      then err entry_price_not_positive
      else if lt stop_pct (dec 0)
      then err stop_pct_negative
      else if lt tp_pct (dec 0)
      then err tp_pct_negative
      else ok (entry_price * (dec 1 - stop_pct / dec 100), entry_price * (dec 1 + tp_pct / dec 100))

  unfoldable pub atr_based : D → D → D → D → Outcome ValueError (D × D)
  atr_based entry_price atr stop_mult tp_mult =
      if le entry_price (dec 0)
      then err entry_price_not_positive
      else if le atr (dec 0)
      then err atr_not_positive
      else let stop_loss = entry_price - atr * stop_mult in
        ok (if le stop_loss (dec 0) then dec 1 else stop_loss, entry_price + atr * tp_mult)

  unfoldable pub trailing_stop_price : D → D → Outcome ValueError D
  trailing_stop_price highest_since_entry trailing_pct =
      if le highest_since_entry (dec 0)
      then err highest_not_positive
      else if le trailing_pct (dec 0)
      then err trailing_pct_not_positive
      else ok (highest_since_entry * (dec 1 - trailing_pct / dec 100))

  unfoldable pub risk_reward_ratio : D → D → D → Outcome ValueError D
  unfolding abs
  risk_reward_ratio entry_price stop_loss take_profit =
      let risk = abs (entry_price - stop_loss) in
      if eq risk (dec 0)
      then err stop_loss_equals_entry
      else ok (quantize 2 (abs (take_profit - entry_price) / risk))
