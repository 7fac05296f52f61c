-- ===== src/Tests/Risk.antt =====
-- Runs of the risk gate on a portfolio with one holding.
use stock_trading_agent.Base.{none, some, [], ◌∷◌, String, ◌≡◌, refl, ◌↔◌, arith, false}
use stock_trading_agent.Base.Int.{ℤ, pos, ◌+ℤ◌, ◌-ℤ◌, ◌*ℤ◌, ◌≤ℤ◌}
use stock_trading_agent.Base.Dict.{lookup}
use stock_trading_agent.Base.Effects.{Outcome, ok, err}
use stock_trading_agent.Decimal.{dec, ◌<◌, abs, sum_from}
use stock_trading_agent.Decimal.Won.{won, quot, Won-IsOrdered, Won-IsExact}
use stock_trading_agent.Core.Enums.{PositionStatus, SignalAction}
use stock_trading_agent.Core.Models.{Position, PortfolioState}
use stock_trading_agent.Backtest.Simulator.State.{krx_open}
use stock_trading_agent.Strategy.RiskManager.Rules.{
  RiskSettings, Correlations, Warning, check_position_sizing, effective_limit, check_max_position,
  existing_value, check_max_holdings, check_sector_concentration, sector_pct, check_max_drawdown,
  check_daily_loss_limit, check_correlation, check_daily_trades, compare_holdings, high_correlation,
  high_correlations, pairs_warning,
}
use stock_trading_agent.Strategy.RiskManager.Check.{
  RiskCheckResult, Reasoning, check, conclude, run_rules, adjust, cap_of, build_reasoning,
  check_buy, check_state, least, within_caps,
}
use stock_trading_agent.Strategy.RiskManager.Safety.{Safe, check-Safe}
use stock_trading_agent.Strategy.RiskManager.Gate.{
  Blocked, check-bounds, check-Blocked, check-err_iff,
}

abbrev settings : RiskSettings ℤ
settings = record {
  risk_per_trade_pct = pos 2;
  max_position_pct = pos 20;
  max_position_size_krw = pos 4000;
  max_portfolio_positions = pos 10;
  sector_concentration_pct = pos 100;
  max_drawdown_pct = pos 20;
  daily_loss_limit_pct = pos 3;
  daily_loss_limit_krw = pos 5000;
  max_daily_trades = pos 10;
}

-- No price history can be read.
abbrev no_history : Correlations
no_history = record {
  Series = Unit;
  Corr = Unit;
  daily_returns = λ symbol. none;
  days = λ series. 0;
  pearson = λ a b. none;
  reaches = λ c. false;
}

abbrev pub holding_sk : Position ℤ
holding_sk = record {
  symbol = "000660";
  quantity = pos 10;
  average_cost = pos 200;
  current_price = pos 200;
  market_value = pos 2000;
  unrealized_pnl = pos 0;
  unrealized_pnl_pct = pos 0;
  status = PositionStatus.opened;
  entry_date = krx_open 1;
}

abbrev pub portfolio : PortfolioState ℤ
portfolio = record {
  account_id = "default";
  total_value = pos 100000;
  cash = pos 98000;
  invested = pos 2000;
  unrealized_pnl = pos 0;
  daily_pnl = pos 0;
  daily_pnl_pct = pos 0;
  drawdown_pct = pos 5;
  peak_value = pos 100000;
  positions = holding_sk ∷ [];
  sector_allocations = [];
  daily_trade_count = pos 1;
  timestamp = krx_open 2;
}

abbrev fallen : PortfolioState ℤ
fallen = record portfolio { drawdown_pct = pos 20 }

-- Fifty shares at 100 are more than the 4000 won that one position may have: forty are left.
abbrev reduced : RiskCheckResult ℤ Unit
reduced = record {
  passed = false;
  symbol = "005930";
  violations = "MAX_POSITION" ∷ [];
  warnings = Warning.short_history "005930" 0 ∷ [];
  adjusted_quantity = pos 40;
  adjusted_amount_krw = pos 4000;
  max_allowed_quantity = pos 40;
  reasoning =
      Reasoning.summary false ("MAX_POSITION" ∷ []) (Warning.short_history "005930" 0 ∷ [])
        (some (pos 50, pos 40));
}

check-reduced :
    check settings no_history {E = String}
      (ok portfolio)
      "005930"
      SignalAction.buy
      (pos 50)
      (pos 100)
      (some (pos 90))
      "IT"
    ≡ ok reduced
unfolding check conclude run_rules adjust cap_of build_reasoning check_buy check_state least
    within_caps check_position_sizing effective_limit check_max_position existing_value
    check_max_holdings check_sector_concentration sector_pct check_max_drawdown
    check_daily_loss_limit check_correlation check_daily_trades compare_holdings high_correlation
    high_correlations pairs_warning ◌*ℤ◌ ◌-ℤ◌ ◌+ℤ◌ quot abs sum_from lookup
check-reduced = refl

check-Safe_example : Safe settings portfolio "005930" (pos 100) (some (pos 90)) "IT" (pos 40)
check-Safe_example =
    check-Safe settings no_history Won-IsOrdered Won-IsExact refl portfolio "005930" (pos 50)
      (pos 100) (some (pos 90)) "IT" check-reduced (omega arith)

check-bounds_example : (pos 0 ≤ℤ pos 40) × (pos 40 ≤ℤ pos 50) × (pos 40 ≤ℤ pos 40)
check-bounds_example =
    check-bounds settings no_history (ok portfolio) "005930" SignalAction.buy (pos 50) (pos 100)
      (some (pos 90)) "IT" (omega arith) check-reduced

-- After a fall of twenty percent nothing is left.
abbrev stopped : RiskCheckResult ℤ Unit
stopped = record {
  passed = false;
  symbol = "005930";
  violations = "MAX_DRAWDOWN" ∷ [];
  warnings = Warning.short_history "005930" 0 ∷ [];
  adjusted_quantity = pos 0;
  adjusted_amount_krw = pos 0;
  max_allowed_quantity = pos 0;
  reasoning =
      Reasoning.summary false ("MAX_DRAWDOWN" ∷ []) (Warning.short_history "005930" 0 ∷ [])
        (some (pos 10, pos 0));
}

check-stopped :
    check settings no_history {E = String}
      (ok fallen)
      "005930"
      SignalAction.buy
      (pos 10)
      (pos 100)
      (some (pos 90))
      "IT"
    ≡ ok stopped
unfolding check conclude run_rules adjust cap_of build_reasoning check_buy check_state least
    within_caps check_position_sizing effective_limit check_max_position existing_value
    check_max_holdings check_sector_concentration sector_pct check_max_drawdown
    check_daily_loss_limit check_correlation check_daily_trades compare_holdings high_correlation
    high_correlations pairs_warning ◌*ℤ◌ ◌-ℤ◌ ◌+ℤ◌ quot abs sum_from lookup
check-stopped = refl

check-Blocked_example : (stopped.passed ≡ false) × (stopped.adjusted_quantity ≡ pos 0)
check-Blocked_example =
    check-Blocked settings no_history fallen "005930" (pos 10) (pos 100) (some (pos 90)) "IT"
      (Blocked.drawdown refl) check-stopped

abbrev no_portfolio : Outcome String (PortfolioState ℤ)
no_portfolio = err "no broker"

check-err_iff_example :
    (check settings no_history no_portfolio "005930" SignalAction.buy (pos 10) (pos 100) none "IT"
      ≡ err "no broker")
    ↔ ((SignalAction.buy ≡ SignalAction.buy) × (dec 0 < pos 100) × (no_portfolio ≡ err "no broker"))
check-err_iff_example =
    check-err_iff settings no_history no_portfolio "005930" SignalAction.buy (pos 10) (pos 100) none
      "IT" "no broker"
