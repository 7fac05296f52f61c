-- ===== src/Tests/Portfolio.antt =====
-- The portfolio state service on a holding of two stocks.
use stock_trading_agent.Base.{◌≡◌, refl, arith, [], ◌∷◌}
use stock_trading_agent.Base.Dict.{lookup, insert}
use stock_trading_agent.Base.Int.{ℤ, pos, ◌+ℤ◌, ◌*ℤ◌}
use stock_trading_agent.Decimal.{dec, ◌≤◌}
use stock_trading_agent.Decimal.Won.{won, quot, Won-IsOrdered}
use stock_trading_agent.Strategy.PortfolioState.{
  Columns, PortfolioStateService, get_current_state, get_peak_value, get_sector_allocations,
  snapshot_row, sector_from,
}
use stock_trading_agent.Core.Models.{AccountBalance}
use stock_trading_agent.Backtest.Simulator.State.{krx_open}
use stock_trading_agent.Strategy.PortfolioState.Peak.{
  IsPeak, saved_totals, get_current_state-IsPeak,
}
use stock_trading_agent.Strategy.PortfolioState.Sectors.{Agrees, get_sector_allocations-uncached}
use stock_trading_agent.Tests.Risk.{portfolio, holding_sk}

-- Columns that hold whole hundreds.
abbrev columns : Columns ℤ
columns = record { amount = λ x. quot x (pos 100) *ℤ pos 100; percentage = λ x. x; float = λ x. x }

abbrev service : PortfolioStateService ℤ
service = record {
  account_id = "default";
  sector_cache = ("000660", "반도체") ∷ [];
  stock_master = ("000660", "반도체") ∷ ("005930", "") ∷ [];
  snapshots = snapshot_row columns "default" (record portfolio { cash = pos 5 }) ∷ [];
  positions = [];
}

service-Agrees : Agrees service.sector_cache service.stock_master
unfolding lookup sector_from
service-Agrees symbol sector cached = ground arith

two_sectors :
    (get_sector_allocations
      (holding_sk ∷ record holding_sk { symbol = "005930"; market_value = pos 6000 } ∷ [])
      (pos 1000)
      service).0
    ≡ ("반도체", pos 200) ∷ ("기타", pos 600) ∷ []
unfolding get_sector_allocations ◌+ℤ◌ ◌*ℤ◌ quot insert lookup
two_sectors = refl

get_sector_allocations-uncached_example :
    ((get_sector_allocations (holding_sk ∷ []) (pos 100000) service).0
      ≡ (get_sector_allocations
          (holding_sk ∷ [])
          (pos 100000)
          (record service { sector_cache = [] })).0)
    × Agrees
        (get_sector_allocations (holding_sk ∷ []) (pos 100000) service).1.sector_cache
        service.stock_master
get_sector_allocations-uncached_example =
    get_sector_allocations-uncached (holding_sk ∷ []) (pos 100000) service service-Agrees

abbrev balance : AccountBalance ℤ
balance = record {
  total_assets = pos 80000;
  cash = pos 78000;
  invested = pos 2000;
  unrealized_pnl = pos 0;
  realized_pnl = pos 0;
  daily_pnl = pos 0;
  daily_pnl_pct = pos 0;
  positions_count = pos 1;
  timestamp = krx_open 2;
}

-- A fifth below the saved total.
fallen :
    (get_current_state balance (holding_sk ∷ []) 2 (krx_open 2) service).0.peak_value ≡ pos 100000
unfolding get_current_state get_sector_allocations get_peak_value snapshot_row ◌*ℤ◌ quot
fallen = refl

get_current_state-IsPeak_example :
    IsPeak
      (pos 80000)
      (saved_totals service)
      (get_current_state balance (holding_sk ∷ []) 2 (krx_open 2) service).0.peak_value
    × (dec 0 ≤ (get_current_state balance (holding_sk ∷ []) 2 (krx_open 2) service).0.drawdown_pct)
get_current_state-IsPeak_example =
    get_current_state-IsPeak Won-IsOrdered balance (holding_sk ∷ []) 2 (krx_open 2) service
