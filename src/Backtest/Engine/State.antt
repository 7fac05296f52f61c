-- ===== src/Backtest/Engine/State.antt =====
-- The fields of `BacktestEngine`, its exceptions, and how it calls the broker.
use stock_trading_agent.Base.{ℕ, Option, none, List, []}
use stock_trading_agent.Base.Int.{ℤ}
use stock_trading_agent.Base.Dict.{Dict}
use stock_trading_agent.Base.Effects.{Method, Outcome, ok, err}
use stock_trading_agent.Decimal.{Decimal, dec}
use stock_trading_agent.Core.Models.{Signal, BacktestTradeRecord}
use stock_trading_agent.Backtest.Loader.{Loader}
use stock_trading_agent.Backtest.Replay.{Replay, DecisionLog}
use stock_trading_agent.Backtest.Simulator.State.{Simulator, BrokerError}
use stock_trading_agent.Strategy.PositionManager.{PositionRecord}
use stock_trading_agent.Strategy.Sizing.{PositionSizer}
use stock_trading_agent.Strategy.ExitPrices.{ValueError}

-- What the code can raise: an error of the broker or of a calculator, a division by zero, a field
-- that its model refuses, a replay without a database, an index past the end of a series, a failed
-- `assert`, a parameter that does not convert, and the errors of the metrics.
pub data EngineError : Type 0 where
  order_refused : BrokerError → EngineError
  invalid_value : ValueError → EngineError
  division_by_zero quantity_not_positive unknown_exit_reason no_session_factory : EngineError
  index_error assertion_failed invalid_parameter metrics_failed : EngineError

-- The settings that the engine reads. The sizer's are those of the caps of the risk check too.
pub record EngineSettings (D : Type 0) : Type 0 where
  pub sizer : PositionSizer D
  pub max_portfolio_positions : ℤ
  pub max_daily_trades : ℤ

-- A row of `portfolio_snapshots`.
pub record PortfolioSnapshot (D : Type 0) : Type 0 where
  pub id : ℕ
  pub snapshot_date : ℕ
  pub total_value : D
  pub cash : D
  pub invested : D
  pub unrealized_pnl : D
  pub realized_pnl_daily : D
  pub peak_value : D
  pub drawdown_pct : D
  pub positions_count : ℕ
  pub trade_count_daily : ℕ

-- `session_factory`, where there is one, is the table that it reads.
pub record Engine (D : Type 0) : Type 0 where
  pub data_loader : Loader D
  pub broker : Simulator D
  pub settings : EngineSettings D
  pub session_factory : Option (List (DecisionLog D))
  pub positions : Dict (PositionRecord D)
  pub closed_positions : List (PositionRecord D)
  pub snapshots : List (PortfolioSnapshot D)
  pub trades : List (BacktestTradeRecord D)
  pub pending_signals : List (Signal D)
  pub highest_prices : Dict D
  pub position_id_counter : ℕ
  pub snapshot_id_counter : ℕ
  pub peak_value : D
  pub daily_trade_count : ℕ
  pub daily_realized_pnl : D
  pub llm_replay : Option (Replay D)

abbrev pub Act : Type 0 → Type 0 → Type 0
Act D A = Method (Engine D) EngineError A

-- A call of the broker, which the engine holds.
abbrev pub on_broker : {D A : Type 0} → Method (Simulator D) BrokerError A → Act D A
on_broker m e =
    let (x, broker) = m e.broker in
    (elim x [ ok a ↦ ok a | err r ↦ err (order_refused r) ], record e { broker = broker })

-- The value of a calculation that may raise.
abbrev pub calculated : {D A : Type 0} → Outcome ValueError A → Act D A
calculated x e = (elim x [ ok a ↦ ok a | err r ↦ err (invalid_value r) ], e)

module _ {D : Type 0} ⦃d : Decimal D⦄ where
  -- `_reset_state`, which leaves the broker as it is.
  unfoldable pub reset_state : Engine D → Engine D
  reset_state e = record e {
    positions = [];
    closed_positions = [];
    snapshots = [];
    trades = [];
    pending_signals = [];
    highest_prices = [];
    position_id_counter = 0;
    snapshot_id_counter = 0;
    peak_value = dec 0;
    daily_trade_count = 0;
    daily_realized_pnl = dec 0;
    llm_replay = none;
  }
