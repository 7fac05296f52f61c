-- ===== src/Strategy/ExitConditions/Exclusive.antt =====
-- How the exit rules of one position relate.
use stock_trading_agent.Base.{◌≡◌, ◌≢◌, arith, inl, inr, Bool-cases, Option-cases, none, some}
use stock_trading_agent.Decimal.{Decimal, le, ◌<◌}
use stock_trading_agent.Decimal.Laws.{IsOrdered}
use stock_trading_agent.Strategy.PositionManager.{PositionRecord}
use stock_trading_agent.Strategy.ExitConditions.{check_stop_loss, check_take_profit}

module _ {D : Type 0} ⦃d : Decimal D⦄ where
  -- A position whose stop is under its target, if it has one, is not told to take a profit at a
  -- price at which it is told to stop a loss.
  pub check_stop_loss-excludes :
      (order : IsOrdered D) (p : PositionRecord D) (price pnl_pct : D)
      → ((target : D) → p.take_profit_price ≡ some target → p.stop_loss_price < target)
      → check_stop_loss p price pnl_pct ≢ none
      → check_take_profit p price pnl_pct ≡ none
  unfolding check_stop_loss check_take_profit
  check_stop_loss-excludes order p price pnl_pct apart stopped =
      elim (Option-cases p.take_profit_price) [
        | inl e ↦ rw (e, check_take_profit)
        | inr (target, e) ↦
            let under = apart target e in
            let crossed = order.le_trans target price p.stop_loss_price in
            elim (Bool-cases (le target price)) [
              | inl met ↦ absurd (ground arith)
              | inr missed ↦ rw (e, missed, check_take_profit)
            ]
      ]
