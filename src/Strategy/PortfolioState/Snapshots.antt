-- ===== src/Strategy/PortfolioState/Snapshots.antt =====
-- What a saved snapshot does to the peak.
use stock_trading_agent.Base.{List, String, str_eq, map, keep}
use stock_trading_agent.Base.All.{All}
use stock_trading_agent.Decimal.{Decimal}
use stock_trading_agent.Core.Models.{PortfolioState}
use stock_trading_agent.Strategy.PortfolioState.{SnapshotRow}

module _ {D : Type 0} ⦃d : Decimal D⦄ where
  -- The totals of an account's rows.
  abbrev totals_of : String → List (SnapshotRow D) → List D
  totals_of account_id rs = map (λ r. r.total_value) (keep (λ r. str_eq r.account_id account_id) rs)
