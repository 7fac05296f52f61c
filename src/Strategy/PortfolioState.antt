-- ===== src/Strategy/PortfolioState.antt =====
-- `PortfolioStateService` (src/strategy/portfolio_state.py), over the rows of its tables and the cache
-- of sectors. What the broker answers and the clocks say are arguments; a database that fails and
-- the time after which the cache forgets are left out.
pub mod Peak
pub mod Sectors
pub mod Snapshots
use stock_trading_agent.Base.{
  ℕ, ◌&&◌, Bool, Option, none, some, List, [], ◌∷◌, ◌++◌, map, keep, length, ◌==◌, if◌then◌else◌,
  String, str_eq, ◌||◌, contains_text,
}
use stock_trading_agent.Base.Int.{ℤ, pos}
use stock_trading_agent.Base.Dict.{Dict, has, lookup, insert}
use stock_trading_agent.Decimal.{Decimal, ◌+◌, ◌-◌, ◌*◌, ◌/◌, dec, lt, le, max}
use stock_trading_agent.Core.Models.{AccountBalance, DateTime, PortfolioState, Position}
use stock_trading_agent.Strategy.PositionManager.{PositionRecord}

-- A row of `portfolio_snapshots`.
pub record SnapshotRow (D : Type 0) : Type 0 where
  pub account_id : String
  pub snapshot_date : ℕ
  pub total_value : D
  pub cash : D
  pub invested : D
  pub unrealized_pnl : D
  pub realized_pnl_daily : D
  pub peak_value : D
  pub drawdown_pct : D
  pub positions_count : ℕ
  pub sector_allocations : Option (Dict D)
  pub trade_count_daily : ℤ

-- What storing does to a number: a column of amounts, `Numeric(15, 2)`, and one of percentages,
-- `Numeric(7, 4)`, round it, and `float` takes the nearest float, here as the decimal that it is.
pub record Columns (D : Type 0) : Type 0 where
  pub amount : D → D
  pub percentage : D → D
  pub float : D → D

-- The service, its tables and its cache. The sector of a stock may be an empty text.
pub record PortfolioStateService (D : Type 0) : Type 0 where
  pub account_id : String
  pub sector_cache : Dict String
  pub stock_master : Dict String
  pub snapshots : List (SnapshotRow D)
  pub positions : List (PositionRecord D)

abbrev pub other_sector : String
other_sector = "기타"

-- `sector if sector else "기타"`
abbrev pub mapped_sector : String → String
mapped_sector sector = if str_eq sector "" then other_sector else sector

-- The sector of a symbol: the cache first, then the table.
unfoldable pub sector_from : Dict String → Dict String → String → String
sector_from cache master symbol = elim (lookup symbol cache) [
  | some sector ↦ sector
  | none ↦ elim (lookup symbol master) [ none ↦ other_sector | some sector ↦ mapped_sector sector ]
]

-- What the table answers is kept in the cache.
unfoldable pub cache_sector : Dict String → Dict String → String → Dict String
cache_sector master cache symbol = elim (lookup symbol cache) [
  | some sector ↦ cache
  | none ↦ elim (lookup symbol master) [
    | none ↦ cache
    | some sector ↦ insert symbol (mapped_sector sector) cache
  ]
]

unfoldable pub cache_sectors : Dict String → Dict String → List String → Dict String
unfolding cache_sector
cache_sectors master cache [] = cache
cache_sectors master cache (s ∷ ss) = cache_sectors master (cache_sector master cache s) ss

-- `_get_sector_map`: what it returns, only ever looked up by symbol; `cache_sectors` is the cache
-- afterwards.
unfoldable pub sector_map : Dict String → Dict String → List String → Dict String
unfolding sector_from
sector_map cache master [] = []
sector_map cache master (s ∷ ss) =
    insert s (sector_from cache master s) (sector_map cache master ss)

abbrev pub sector_or_other : Option String → String
sector_or_other none = other_sector
sector_or_other (some sector) = sector

module _ {D : Type 0} ⦃d : Decimal D⦄ where
  abbrev pub or_zero : Option D → D
  or_zero none = dec 0
  or_zero (some x) = x

  -- The market values by sector, from the first position on.
  unfoldable pub sector_values : Dict String → Dict D → List (Position D) → Dict D
  sector_values sectors values [] = values
  sector_values sectors values (p ∷ ps) =
      let sector = sector_or_other (lookup p.symbol sectors) in
      sector_values sectors (insert sector (or_zero (lookup sector values) + p.market_value) values)
        ps

  unfoldable pub shares_of : D → Dict D → Dict D
  shares_of total_value [] = []
  shares_of total_value ((sector, value) ∷ values) =
      (sector, value / total_value * dec 100) ∷ shares_of total_value values

  unfoldable pub get_sector_allocations :
      List (Position D) → D → PortfolioStateService D → Dict D × PortfolioStateService D
  unfolding sector_map cache_sectors sector_values shares_of
  get_sector_allocations [] total_value s = ([], s)
  get_sector_allocations (p ∷ ps) total_value s =
      let symbols = map (λ q. q.symbol) (p ∷ ps) in
      let sectors = sector_map s.sector_cache s.stock_master symbols in
      if le total_value (dec 0) then ([], s) else (
        shares_of total_value (sector_values sectors [] (p ∷ ps)),
        record s { sector_cache = cache_sectors s.stock_master s.sector_cache symbols },
      )

  -- `max(total_value)` over the rows of the account, or zero for none.
  unfoldable pub highest : Option D → List D → D
  highest best [] = or_zero best
  highest none (v ∷ vs) = highest (some v) vs
  highest (some best) (v ∷ vs) = highest (some (max best v)) vs

  unfoldable pub get_peak_value : PortfolioStateService D → D
  unfolding highest
  get_peak_value s =
      highest none
        (map (λ r. r.total_value) (keep (λ r. str_eq r.account_id s.account_id) s.snapshots))

  unfoldable pub get_daily_trade_count : ℕ → PortfolioStateService D → ℕ
  get_daily_trade_count target_date s =
      length
        (keep (λ p. p.entry_date == target_date && str_eq p.account_id s.account_id) s.positions)

  unfoldable pub current_drawdown : D → D → D
  current_drawdown peak total = if lt (dec 0) peak then (peak - total) / peak * dec 100 else dec 0

  -- `today` is `date.today()`, of the local clock, and `now` is `datetime.now(UTC)`.
  unfoldable pub get_current_state :
      AccountBalance D
      → List (Position D)
      → ℕ
      → DateTime
      → PortfolioStateService D
      → PortfolioState D × PortfolioStateService D
  unfolding current_drawdown
  get_current_state balance positions today now s =
      let (sectors, s') = get_sector_allocations positions balance.total_assets s in
      let peak = max (get_peak_value s') balance.total_assets in
      (
        record {
          account_id = s'.account_id;
          total_value = balance.total_assets;
          cash = balance.cash;
          invested = balance.invested;
          unrealized_pnl = balance.unrealized_pnl;
          daily_pnl = balance.daily_pnl;
          daily_pnl_pct = balance.daily_pnl_pct;
          drawdown_pct = current_drawdown peak balance.total_assets;
          peak_value = peak;
          positions = positions;
          sector_allocations = sectors;
          daily_trade_count = pos (get_daily_trade_count today s');
          timestamp = now;
        },
        s',
      )

  unfoldable pub floats : Columns D → Dict D → Dict D
  floats columns [] = []
  floats columns ((sector, share) ∷ shares) = (sector, columns.float share) ∷ floats columns shares

  -- Nothing is stored for no sectors.
  unfoldable pub stored_sectors : Columns D → Dict D → Option (Dict D)
  unfolding floats
  stored_sectors columns [] = none
  stored_sectors columns (share ∷ shares) = some (floats columns (share ∷ shares))

  -- The row as the table keeps it.
  unfoldable pub snapshot_row : Columns D → String → PortfolioState D → SnapshotRow D
  unfolding stored_sectors
  snapshot_row columns account_id state = record {
    account_id = account_id;
    snapshot_date = state.timestamp.day;
    total_value = columns.amount state.total_value;
    cash = columns.amount state.cash;
    invested = columns.amount state.invested;
    unrealized_pnl = columns.amount state.unrealized_pnl;
    realized_pnl_daily = columns.amount (dec 0);
    peak_value = columns.amount state.peak_value;
    drawdown_pct = columns.percentage state.drawdown_pct;
    positions_count = length state.positions;
    sector_allocations = stored_sectors columns state.sector_allocations;
    trade_count_daily = state.daily_trade_count;
  }

  -- The insert that updates the row of the same account and date instead, where there is one.
  unfoldable pub upsert : SnapshotRow D → List (SnapshotRow D) → List (SnapshotRow D)
  upsert row [] = row ∷ []
  upsert row (r ∷ rs) =
      let rest = upsert row rs in
      if str_eq r.account_id row.account_id && r.snapshot_date == row.snapshot_date
      then row ∷ rs
      else r ∷ rest

  unfoldable pub save_snapshot :
      Columns D → PortfolioState D → PortfolioStateService D → PortfolioStateService D
  unfolding snapshot_row upsert
  save_snapshot columns state s = record s {
    snapshots = upsert (snapshot_row columns s.account_id state) s.snapshots;
  }
