-- ===== src/Strategy/RiskManager/Gate.antt =====
-- The gate as a whole: bounds of the adjusted quantity, absolute blocks, and what it can raise.
use stock_trading_agent.Base.{true, false, Option, String, ◌≡◌, ◌↔◌, arith, any, somes, map}
use stock_trading_agent.Base.Int.{ℤ, pos, ◌≤ℤ◌}
use stock_trading_agent.Base.Effects.{Outcome, ok, err}
use stock_trading_agent.Decimal.{Decimal, ◌-◌, of_int, dec, ◌≤◌, ◌<◌}
use stock_trading_agent.Core.Enums.{SignalAction}
use stock_trading_agent.Core.Models.{PortfolioState}
use stock_trading_agent.Strategy.RiskManager.Rules.{
  RiskSettings, Correlations, check_max_drawdown, check_daily_loss_limit, check_daily_trades,
}
use stock_trading_agent.Strategy.RiskManager.Check.{
  RiskCheckResult, run_rules, adjust, conclude, check, blocks, is_empty,
}
use stock_trading_agent.Strategy.RiskManager.Caps.{adjust-bounds}

module _ {D : Type 0} ⦃d : Decimal D⦄ (t : RiskSettings D) (c : Correlations) where
  -- For a quantity that is not negative, whatever the action and the outcome of the rules, the
  -- adjusted quantity is between zero and the quantity that was asked for, and no more than the
  -- quantity that is reported as allowed.
  pub check-bounds :
      {E : Type 0} (current : Outcome E (PortfolioState D)) (symbol : String)
      (action : SignalAction) (quantity : ℤ) (price : D) (stop_loss : Option D) (sector : String)
      {r : RiskCheckResult D c.Corr}
      → pos 0 ≤ℤ quantity
      → check t c current symbol action quantity price stop_loss sector ≡ ok r
      → (pos 0 ≤ℤ r.adjusted_quantity)
        × (r.adjusted_quantity ≤ℤ quantity)
        × (r.adjusted_quantity ≤ℤ r.max_allowed_quantity)
  unfolding check conclude
  check-bounds (ok state) symbol SignalAction.buy quantity price stop_loss sector q h =
      ground (
        arith,
        adjust-bounds (run_rules t c state symbol quantity price stop_loss sector) quantity q,
      )
  check-bounds (err e) symbol SignalAction.buy quantity price stop_loss sector q h = ground arith
  check-bounds current symbol SignalAction.sell quantity price stop_loss sector q h = ground arith
  check-bounds current symbol SignalAction.hold quantity price stop_loss sector q h = ground arith

  -- The conditions under which nothing may be bought at all.
  pub data Blocked (state : PortfolioState D) : Type 0 where
    drawdown : t.max_drawdown_pct ≤ state.drawdown_pct → Blocked state
    loss_pct : state.daily_pnl_pct < dec 0 - t.daily_loss_limit_pct → Blocked state
    loss_krw : state.daily_pnl < dec 0 - of_int t.daily_loss_limit_krw → Blocked state
    trades : t.max_daily_trades ≤ℤ state.daily_trade_count → Blocked state

  -- A rule that was broken with nothing allowed, as one of the last rules.
  blocking :
      (state : PortfolioState D) (symbol : String) (quantity : ℤ) (price : D) (stop_loss : Option D)
      (sector : String)
      → Blocked state
      → let rules = run_rules t c state symbol quantity price stop_loss sector in
        (any blocks rules ≡ true) × (is_empty (somes (map (λ r. r.violation) rules)) ≡ false)
  unfolding run_rules check_max_drawdown check_daily_loss_limit check_daily_trades
  blocking state symbol quantity price stop_loss sector (drawdown h) = ground arith
  blocking state symbol quantity price stop_loss sector (loss_pct h) = ground arith
  blocking state symbol quantity price stop_loss sector (loss_krw h) = ground arith
  blocking state symbol quantity price stop_loss sector (trades h) = ground arith

  -- Past a limit on drawdown, daily loss or daily trades the check of a buy fails, with an
  -- adjusted quantity of zero.
  pub check-Blocked :
      {E : Type 0} (state : PortfolioState D) (symbol : String) (quantity : ℤ) (price : D)
      (stop_loss : Option D) (sector : String) {r : RiskCheckResult D c.Corr}
      → Blocked state
      → check t c {E = E} (ok state) symbol SignalAction.buy quantity price stop_loss sector ≡ ok r
      → (r.passed ≡ false) × (r.adjusted_quantity ≡ pos 0)
  unfolding check conclude adjust
  check-Blocked state symbol quantity price stop_loss sector b h =
      ground (arith, blocking state symbol quantity price stop_loss sector b)

  -- The gate raises exactly what reading the portfolio raises, and only for a buy at a positive
  -- price: a sale or a hold is never held up by it.
  pub check-err_iff :
      {E : Type 0} (current : Outcome E (PortfolioState D)) (symbol : String)
      (action : SignalAction) (quantity : ℤ) (price : D) (stop_loss : Option D) (sector : String)
      (e : E)
      → (check t c current symbol action quantity price stop_loss sector ≡ err e)
        ↔ ((action ≡ SignalAction.buy) × (dec 0 < price) × (current ≡ err e))
  unfolding check
  check-err_iff (ok state) symbol SignalAction.buy quantity price stop_loss sector e =
      (λ h. ground arith, λ h. cc)
  check-err_iff (err x) symbol SignalAction.buy quantity price stop_loss sector e =
      (λ h. ground arith, λ h. ground arith)
  check-err_iff current symbol SignalAction.sell quantity price stop_loss sector e =
      (λ h. cc, λ h. cc)
  check-err_iff current symbol SignalAction.hold quantity price stop_loss sector e =
      (λ h. cc, λ h. cc)
