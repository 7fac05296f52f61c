-- ===== src/Tests/Metrics.antt =====
-- The metrics of three days and of two trades.
use stock_trading_agent.Base.{ℕ, List, [], ◌∷◌, ◌≡◌, refl, map}
use stock_trading_agent.Base.Int.{ℤ, pos, ◌*ℤ◌}
use stock_trading_agent.Base.Sorting.{sorted}
use stock_trading_agent.Decimal.{quantize, dec}
use stock_trading_agent.Decimal.Won.{won, quot, Won-IsOrdered}
use stock_trading_agent.Backtest.Engine.State.{PortfolioSnapshot}
use stock_trading_agent.Report.Metrics.{by_date, calculate_max_drawdown}
use stock_trading_agent.Report.Metrics.Drawdown.{IsWorst, falls_of, calculate_max_drawdown-IsWorst}

abbrev on_day : ℕ → ℤ → PortfolioSnapshot ℤ
on_day day value = record {
  id = day;
  snapshot_date = day;
  total_value = value;
  cash = value;
  invested = pos 0;
  unrealized_pnl = pos 0;
  realized_pnl_daily = pos 0;
  peak_value = value;
  drawdown_pct = pos 0;
  positions_count = 0;
  trade_count_daily = 0;
}

-- Stored out of order: 50, then 100, then 0.
abbrev later_days : List (PortfolioSnapshot ℤ)
later_days = on_day 3 (pos 0) ∷ on_day 1 (pos 50) ∷ []

max_drawdown : calculate_max_drawdown (on_day 2 (pos 100) ∷ later_days) ≡ pos 100
unfolding calculate_max_drawdown sorted ◌*ℤ◌ quot
max_drawdown = refl

calculate_max_drawdown-IsWorst_example :
    (worst : ℤ) × (calculate_max_drawdown (on_day 2 (pos 100) ∷ later_days) ≡ quantize 2 worst)
    × IsWorst
        (dec 0)
        (falls_of (map (λ t. t.total_value) (by_date (on_day 2 (pos 100) ∷ later_days))))
        worst
calculate_max_drawdown-IsWorst_example =
    calculate_max_drawdown-IsWorst Won-IsOrdered (on_day 2 (pos 100)) later_days
