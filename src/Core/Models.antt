-- ===== src/Core/Models.antt =====
-- The models of src/core/models.py that the modelled components use, over any type of decimals. A
-- date is the number of a day, and a time of day is in minutes. Left out are the fields that the
-- modelled code neither sets nor reads: the `account_id` of a result, a position and a balance, and
-- the `value` of a price bar.
use stock_trading_agent.Base.{ℕ, Bool, Option, List, String}
use stock_trading_agent.Base.Int.{ℤ}
use stock_trading_agent.Base.Dict.{Dict}
use stock_trading_agent.Core.Enums.{
  MarketType, OrderSide, OrderType, OrderStatus, PositionStatus, ExitReason, DecisionAction,
  SignalAction, StrategyType, BacktestMode,
}

-- `datetime.combine(day, time)`
pub record DateTime : Type 0 where
  pub day : ℕ
  pub minute : ℕ

pub record PriceInfo (D : Type 0) : Type 0 where
  pub symbol : String
  pub current_price : D
  pub previous_close : D
  pub change_price : D
  pub change_percent : D
  pub high : D
  pub low : D
  pub volume : ℤ
  pub timestamp : DateTime

pub record StockInfo (D : Type 0) : Type 0 where
  pub symbol : String
  pub name : String
  pub market_type : MarketType
  pub sector : String
  pub listed_shares : ℤ
  pub market_cap_krw : D

pub record Ohlcv (D : Type 0) : Type 0 where
  pub symbol : String
  pub date : ℕ
  pub opening : D
  pub high : D
  pub low : D
  pub closing : D
  pub volume : ℤ

pub record OrderRequest (D : Type 0) : Type 0 where
  pub account_id : String
  pub symbol : String
  pub side : OrderSide
  pub order_type : OrderType
  pub quantity : ℤ
  pub price : Option D
  pub reason : String

-- An order identifier is the number that the broker prints into it.
pub record OrderResult (D : Type 0) : Type 0 where
  pub order_id : ℕ
  pub symbol : String
  pub side : OrderSide
  pub order_type : OrderType
  pub quantity : ℤ
  pub price : D
  pub status : OrderStatus
  pub filled_quantity : ℤ
  pub filled_price : Option D
  pub commission : D
  pub timestamp : DateTime

pub record Position (D : Type 0) : Type 0 where
  pub symbol : String
  pub quantity : ℤ
  pub average_cost : D
  pub current_price : D
  pub market_value : D
  pub unrealized_pnl : D
  pub unrealized_pnl_pct : D
  pub status : PositionStatus
  pub entry_date : DateTime

pub record AccountBalance (D : Type 0) : Type 0 where
  pub total_assets : D
  pub cash : D
  pub invested : D
  pub unrealized_pnl : D
  pub realized_pnl : D
  pub daily_pnl : D
  pub daily_pnl_pct : D
  pub positions_count : ℤ
  pub timestamp : DateTime

pub record PortfolioState (D : Type 0) : Type 0 where
  pub account_id : String
  pub total_value : D
  pub cash : D
  pub invested : D
  pub unrealized_pnl : D
  pub daily_pnl : D
  pub daily_pnl_pct : D
  pub drawdown_pct : D
  pub peak_value : D
  pub positions : List (Position D)
  pub sector_allocations : Dict D
  pub daily_trade_count : ℤ
  pub timestamp : DateTime

pub record PositionSizing (D : Type 0) : Type 0 where
  pub symbol : String
  pub entry_price : D
  pub stop_loss_price : D
  pub take_profit_price : Option D
  pub risk_per_share : D
  pub quantity : ℤ
  pub position_value_krw : D
  pub risk_amount_krw : D
  pub risk_pct_of_portfolio : D
  pub position_pct_of_portfolio : D
  pub risk_reward_ratio : Option D

-- The `reasoning` text repeats the other fields and is left out.
pub record ExitSignal (D : Type 0) : Type 0 where
  pub symbol : String
  pub reason : ExitReason
  pub urgency : String
  pub current_price : D
  pub trigger_price : Option D
  pub unrealized_pnl_pct : D
  pub recommended_action : DecisionAction

-- The text, the agent and the clock's time of a signal are left out.
pub record Signal (D : Type 0) : Type 0 where
  pub symbol : String
  pub action : SignalAction
  pub confidence : D
  pub target_price : Option D
  pub stop_loss_price : Option D
  pub quantity : ℤ
  pub position_value_krw : D

-- The parameters of a back-test, where they are given; each use has its own default. The source keeps
-- an unchecked dictionary. The two values that are read once an order has been filled may be ones that
-- `Decimal` or `int` raises on, which is `none` under the `some`; of the others, which signals are made
-- from, only values that convert are modelled.
pub record BacktestParameters (D : Type 0) : Type 0 where
  pub sma_short : Option ℕ
  pub sma_long : Option ℕ
  pub rsi_threshold : Option D
  pub atr_stop_mult : Option D
  pub atr_tp_mult : Option D
  pub trailing_stop_pct : Option (Option D)
  pub max_holding_days : Option (Option ℤ)
  pub stop_pct : Option D
  pub tp_pct : Option D
  pub min_signals : Option ℕ

pub record BacktestConfig (D : Type 0) : Type 0 where
  pub strategy_type : StrategyType
  pub start_date : ℕ
  pub end_date : ℕ
  pub initial_capital : D
  pub symbols : List String
  pub slippage_bps : ℤ
  pub mode : BacktestMode
  pub parameters : BacktestParameters D
  pub llm_model_filter : Option String
  pub benchmark_symbol : String

pub record BacktestTradeRecord (D : Type 0) : Type 0 where
  pub symbol : String
  pub side : OrderSide
  pub quantity : ℤ
  pub price : D
  pub commission : D
  pub slippage : D
  pub trade_date : ℕ
  pub pnl : Option D
  pub exit_reason : Option ExitReason

pub record PerformanceMetrics (D : Type 0) : Type 0 where
  pub period_start : ℕ
  pub period_end : ℕ
  pub total_return_pct : D
  pub annualized_return_pct : Option D
  pub sharpe_ratio : Option D
  pub sortino_ratio : Option D
  pub max_drawdown_pct : D
  pub win_rate_pct : D
  pub avg_win_pct : D
  pub avg_loss_pct : D
  pub profit_factor : Option D
  pub total_trades : ℕ
  pub winning_trades : ℕ
  pub losing_trades : ℕ

pub record WalkForwardWindow (D : Type 0) : Type 0 where
  pub window_index : ℕ
  pub is_start : ℕ
  pub is_end : ℕ
  pub oos_start : ℕ
  pub oos_end : ℕ
  pub is_metrics : PerformanceMetrics D
  pub oos_metrics : PerformanceMetrics D
  pub oos_trade_count : ℕ

-- The configuration and the clock's time of the result are left out.
pub record WalkForwardResult (D : Type 0) : Type 0 where
  pub window_months : ℕ
  pub oos_months : ℕ
  pub windows : List (WalkForwardWindow D)
  pub aggregated_oos_metrics : PerformanceMetrics D
  pub consistency_ratio : D
  pub avg_oos_return_pct : D
  pub is_robust : Bool
