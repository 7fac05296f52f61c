-- ===== src/Tests/Engine.antt =====
-- Runs of the back-test's daily loop over three days of one symbol.
use stock_trading_agent.Base.{
  ℕ, true, false, none, some, List, [], ◌∷◌, ◌≡◌, refl, arith, map, ◌==◌, if◌then◌else◌, length,
}
use stock_trading_agent.Base.Int.{ℤ, pos, ltb_ℤ, ◌+ℤ◌, ◌-ℤ◌, ◌*ℤ◌}
use stock_trading_agent.Base.Dict.{lookup, insert, keys, remove, values}
use stock_trading_agent.Base.Effects.{ok, err, Outcome, for_each}
use stock_trading_agent.Decimal.Won.{won, quot, Won-IsOrdered, Won-IsExact}
use stock_trading_agent.Core.Enums.{BacktestMode, PositionStatus, StrategyType, reason_of_value}
use stock_trading_agent.Core.Models.{BacktestConfig, BacktestParameters, Position}
use stock_trading_agent.Backtest.Loader.{get_close_price, get_ohlcv_range, get_open_price}
use stock_trading_agent.Backtest.Simulator.State.{krx_open, bought, holding, sold}
use stock_trading_agent.Backtest.Simulator.Market.{
  new_simulator, set_current_date, get_total_value, valued,
}
use stock_trading_agent.Backtest.Engine.State.{
  Engine, EngineError, unknown_exit_reason, invalid_parameter, reset_state,
}
use stock_trading_agent.Backtest.Engine.Indicators.{Indicators, position_entry, position_values}
use stock_trading_agent.Backtest.Engine.Exits.{
  execute_exit, force_close_all, check_at, check_exits, check_position, exit_signal,
}
use stock_trading_agent.Backtest.Engine.Entries.{
  risk_check, capped, enter_at, execute_pending_signals, execute_signal, record_snapshot,
}
use stock_trading_agent.Backtest.Engine.Run.{
  BacktestResult, run, started, calculate_metrics, prepare, run_body, run_day, trading_dates_of,
}
use stock_trading_agent.Backtest.Engine.Coupling.{IsCoupled, Reads, run-IsCoupled}
use stock_trading_agent.Backtest.Engine.Closing.{
  ends_with, execute_exit-ends, force_close_all-fails,
}
use stock_trading_agent.Backtest.Engine.Caps.{IsAllowed, IsFunded, risk_check-IsAllowed}
use stock_trading_agent.Backtest.Engine.Limits.{IsOrderly, run-IsOrderly}
use stock_trading_agent.Backtest.Engine.Snapshots.{AreCharted, run-AreCharted}
use stock_trading_agent.Strategy.PositionManager.{PositionRecord, RecordStatus}
use stock_trading_agent.Backtest.Engine.Signals.{
  generate_signals, generate_technical, history, is_taken, try_position_signal,
}
use stock_trading_agent.Backtest.Simulator.Orders.{
  calculate_commission, calculate_slippage, place_on, place_order,
}
use stock_trading_agent.Decimal.{sum_from}
use stock_trading_agent.Strategy.ExitConditions.{check_stop_loss}
use stock_trading_agent.Strategy.ExitPrices.{atr_based, risk_reward_ratio}
use stock_trading_agent.Strategy.Sizing.{
  calculate, cap_from_krw, cap_from_pct, reward_of, risk_quantity, sized_quantity,
}
use stock_trading_agent.Tests.Simulator.{loader}

-- A rising average and a low index on every day, and a range of ten won.
abbrev steady : Indicators ℤ
steady = record {
  Float = ℤ;
  is_nan = λ x. false;
  below = ltb_ℤ;
  float = λ x. x;
  decimal = λ x. x;
  sma = λ n xs. map (λ x. if n == 20 then pos 2 else pos 1) xs;
  rsi = λ xs. map (λ x. pos 10) xs;
  macd_line = λ xs. xs;
  macd_signal = λ xs. xs;
  bb_lower = λ xs. xs;
  atr = λ rows. map (λ r. pos 10) rows;
}

abbrev parameters : BacktestParameters ℤ
parameters = record {
  sma_short = none;
  sma_long = some 1;
  rsi_threshold = none;
  atr_stop_mult = none;
  atr_tp_mult = none;
  trailing_stop_pct = none;
  max_holding_days = none;
  stop_pct = none;
  tp_pct = none;
  min_signals = none;
}

abbrev config_to : ℕ → BacktestConfig ℤ
config_to end_date = record {
  strategy_type = StrategyType.position;
  start_date = 1;
  end_date = end_date;
  initial_capital = pos 1000;
  symbols = "005930" ∷ [];
  slippage_bps = pos 0;
  mode = BacktestMode.technical;
  parameters = parameters;
  llm_model_filter = none;
  benchmark_symbol = "KOSPI";
}

abbrev engine : Engine ℤ
engine = record {
  data_loader = loader;
  broker = new_simulator loader (pos 1000) (pos 0) (pos 0) (pos 0);
  settings = record {
    sizer = record { risk_pct = pos 10; max_position_pct = pos 100; max_position_krw = pos 900 };
    max_portfolio_positions = pos 5;
    max_daily_trades = pos 5;
  };
  session_factory = none;
  positions = [];
  closed_positions = [];
  snapshots = [];
  trades = [];
  pending_signals = [];
  highest_prices = [];
  position_id_counter = 0;
  snapshot_id_counter = 0;
  peak_value = pos 0;
  daily_trade_count = 0;
  daily_realized_pnl = pos 0;
  llm_replay = none;
}

-- The metrics of a run, here how many positions it closed.
abbrev closed_count : Engine ℤ → BacktestConfig ℤ → Outcome EngineError ℕ
closed_count e config = ok (length e.closed_positions)

-- A signal on the first day, a purchase on the second, and a stop on the third.
abbrev full_run : BacktestResult ℤ ℕ × Engine ℤ
full_run = run steady closed_count (config_to 5) engine

-- The same, cut off while the position is held.
abbrev cut_run : BacktestResult ℤ ℕ × Engine ℤ
cut_run = run steady closed_count (config_to 2) engine

full_run_completes : full_run.0.metrics ≡ some 1
unfolding run run_body trading_dates_of reset_state run_day set_current_date check_exits
    execute_pending_signals generate_signals generate_technical try_position_signal is_taken lookup
    history get_ohlcv_range position_values get_close_price position_entry atr_based calculate ◌-ℤ◌
    ◌*ℤ◌ get_total_value ◌+ℤ◌ new_simulator sum_from values reward_of risk_reward_ratio
    sized_quantity cap_from_krw quot cap_from_pct risk_quantity record_snapshot execute_signal
    get_open_price enter_at risk_check capped place_order place_on calculate_slippage
    calculate_commission insert check_position check_at exit_signal check_stop_loss execute_exit
    holding valued bought reason_of_value remove sold force_close_all keys calculate_metrics
full_run_completes = refl

cut_run_fails : cut_run.0.error_message ≡ some unknown_exit_reason
unfolding run run_body trading_dates_of reset_state run_day set_current_date check_exits
    execute_pending_signals generate_signals generate_technical try_position_signal is_taken lookup
    history get_ohlcv_range position_values get_close_price position_entry atr_based calculate ◌-ℤ◌
    ◌*ℤ◌ get_total_value ◌+ℤ◌ new_simulator sum_from values reward_of risk_reward_ratio
    sized_quantity cap_from_krw quot cap_from_pct risk_quantity record_snapshot execute_signal
    get_open_price enter_at risk_check capped place_order place_on calculate_slippage
    calculate_commission insert force_close_all keys execute_exit holding bought reason_of_value
cut_run_fails = refl

reads : Reads (config_to 2)
reads = λ e. cc

run-IsCoupled_example : IsCoupled cut_run.1
unfolding new_simulator lookup
run-IsCoupled_example = run-IsCoupled steady closed_count (config_to 2) engine reads tt (λ k. refl)

-- A number of days that does not convert: the purchase is filled, and is not recorded.
abbrev unread_run : BacktestResult ℤ ℕ × Engine ℤ
unread_run =
    run steady closed_count
      (record (config_to 2) { parameters = record parameters { max_holding_days = some none } })
      engine

unread_run_fails :
    (unread_run.0.error_message ≡ some invalid_parameter)
    × (unread_run.1.positions ≡ [])
    × (keys unread_run.1.broker.positions ≡ "005930" ∷ [])
unfolding run run_body trading_dates_of reset_state run_day set_current_date check_exits
    execute_pending_signals generate_signals generate_technical try_position_signal is_taken lookup
    history get_ohlcv_range position_values get_close_price position_entry atr_based calculate ◌-ℤ◌
    ◌*ℤ◌ get_total_value ◌+ℤ◌ new_simulator sum_from values reward_of risk_reward_ratio
    sized_quantity cap_from_krw quot cap_from_pct risk_quantity record_snapshot execute_signal
    get_open_price enter_at risk_check capped place_order place_on calculate_slippage
    calculate_commission insert keys bought
unread_run_fails = (refl, refl, refl)

run-IsOrderly_example :
    ((days : List ℕ)
      → IsOrderly
          (for_each days
            (run_day steady (config_to 5))
            (prepare (config_to 5) BacktestMode.technical (started (config_to 5) engine)).1).1)
    × IsOrderly full_run.1
run-IsOrderly_example = run-IsOrderly steady closed_count (config_to 5) engine (omega arith)

run-AreCharted_example : AreCharted (pos 1000) full_run.1
run-AreCharted_example = run-AreCharted Won-IsOrdered steady closed_count (config_to 5) engine

-- Eight shares are affordable, nine fit the portfolio, and seven the amount for one symbol.
checked : risk_check "005930" (pos 10) (pos 120) engine ≡ (true, pos 7)
unfolding risk_check lookup capped quot new_simulator ◌*ℤ◌ get_total_value ◌+ℤ◌ sum_from values
checked = refl

engine-IsFunded : IsFunded engine
unfolding get_total_value new_simulator sum_from values ◌+ℤ◌ ◌*ℤ◌ quot
engine-IsFunded = record { share = refl; amount = refl; cash = refl }

risk_check-IsAllowed_example : IsAllowed "005930" (pos 10) (pos 120) engine (pos 7)
risk_check-IsAllowed_example =
    risk_check-IsAllowed Won-IsExact "005930" (pos 10) (pos 7) (pos 120) engine engine-IsFunded
      checked

abbrev held : PositionRecord ℤ
held = record {
  id = 1;
  account_id = "";
  symbol = "005930";
  strategy_type = StrategyType.position;
  quantity = pos 5;
  avg_cost = pos 120;
  entry_price = pos 120;
  entry_date = 2;
  stop_loss_price = pos 90;
  take_profit_price = none;
  trailing_stop_pct = none;
  max_holding_days = none;
  status = RecordStatus.opened;
  exit_price = none;
  exit_date = none;
  exit_reason = none;
  realized_pnl = none;
  entry_session_id = none;
  exit_session_id = none;
}

abbrev shares_held : Position ℤ
shares_held = record {
  symbol = "005930";
  quantity = pos 5;
  average_cost = pos 120;
  current_price = pos 130;
  market_value = pos 650;
  unrealized_pnl = pos 50;
  unrealized_pnl_pct = pos 0;
  status = PositionStatus.opened;
  entry_date = krx_open 2;
}

-- On the third day, with a position.
abbrev holding_engine : Engine ℤ
holding_engine = record engine {
  broker = record engine.broker { current_date = some 5; positions = ("005930", shares_held) ∷ [] };
  positions = ("005930", held) ∷ [];
}

holding_engine-IsCoupled : IsCoupled holding_engine
unfolding lookup
holding_engine-IsCoupled = record {
  sound = (
    record {
      named = refl;
      not_short = omega arith;
      closed_empty = λ e. cc;
      empty_closed = λ e. cc;
    },
    tt,
  );
  same = λ k. ground arith;
  positive = λ k p found. ground arith;
}

close_on_fifth : get_close_price loader "005930" 5 ≡ some (pos 80)
unfolding get_close_price lookup
close_on_fifth = refl

held_now : lookup "005930" holding_engine.positions ≡ some held
unfolding lookup
held_now = refl

execute_exit-ends_example :
    ((execute_exit 5 "005930" "manual" holding_engine).0 ≡ ends_with (reason_of_value "manual"))
    × (lookup "005930" (execute_exit 5 "005930" "manual" holding_engine).1.positions ≡ none)
execute_exit-ends_example =
    execute_exit-ends 5 5 "005930" "manual" held (pos 80) holding_engine holding_engine-IsCoupled
      held_now close_on_fifth refl

force_close_all-fails_example : (force_close_all 5 holding_engine).0 ≡ err unknown_exit_reason
force_close_all-fails_example =
    force_close_all-fails 5 5 "005930" held (pos 80) holding_engine holding_engine-IsCoupled refl
      held_now close_on_fifth
