-- ===== src/Backtest/Engine/Run.antt =====
-- `BacktestEngine.run`. The metrics of a finished run are a parameter, which may raise.
use stock_trading_agent.Base.{String, ℕ, ◌&&◌, Option, none, some, List, [], ◌∷◌, length, leb, keep}
use stock_trading_agent.Base.Effects.{
  raise, Outcome, ok, err, pure, gets, ◌>>=◌, ◌>>◌, modify, for_each,
}
use stock_trading_agent.Decimal.{Decimal, dec}
use stock_trading_agent.Core.Enums.{BacktestMode, BacktestStatus}
use stock_trading_agent.Core.Models.{BacktestConfig, BacktestTradeRecord}
use stock_trading_agent.Backtest.Replay.{load, DecisionLog}
use stock_trading_agent.Backtest.Simulator.Market.{set_current_date}
use stock_trading_agent.Backtest.Engine.State.{
  Engine, EngineError, no_session_factory, Act, on_broker, reset_state,
}
use stock_trading_agent.Backtest.Engine.Exits.{check_exits, force_close_all}
use stock_trading_agent.Backtest.Engine.Entries.{execute_pending_signals, record_snapshot}
use stock_trading_agent.Backtest.Engine.Indicators.{Indicators}
use stock_trading_agent.Backtest.Engine.Signals.{generate_signals}

-- The identifier, the configuration and the clock's times of a result are left out. `M` is the type
-- of the metrics.
pub record BacktestResult (D M : Type 0) : Type 0 where
  pub status : BacktestStatus
  pub metrics : Option M
  pub trades : List (BacktestTradeRecord D)
  pub total_trades : ℕ
  pub error_message : Option EngineError

abbrev pub last_date {ℓ} : {A : Type ℓ} → A → List A → A
last_date day [] = day
last_date day (next ∷ days) = last_date next days

module _ {D : Type 0} ⦃d : Decimal D⦄ where
  abbrev pub started : BacktestConfig D → Engine D → Engine D
  started config e = record (reset_state e) { peak_value = config.initial_capital }

  -- The trading dates of the configured period.
  unfoldable pub trading_dates_of : BacktestConfig D → Engine D → List ℕ
  trading_dates_of config e =
      keep (λ day. leb config.start_date day && leb day config.end_date) e.data_loader.trading_dates

  -- The replay of the decisions, where the mode asks for it.
  unfoldable pub load_replay : BacktestConfig D → Option (List (DecisionLog D)) → Act D (Unit {0})
  load_replay config none = raise no_session_factory
  load_replay config (some rows) = modify (λ e. record e {
    llm_replay =
        some (load config.start_date config.end_date config.symbols config.llm_model_filter rows);
  })

  unfoldable pub prepare : BacktestConfig D → BacktestMode → Act D (Unit {0})
  unfolding load_replay
  prepare config BacktestMode.technical = pure tt
  prepare config BacktestMode.llm_live = pure tt
  prepare config BacktestMode.llm_replay = do
    factory ← gets (λ e. e.session_factory)
    load_replay config factory

  unfoldable pub run_day : Indicators D → BacktestConfig D → ℕ → Act D (Unit {0})
  run_day ind config today = do
    modify (λ e. record e { daily_trade_count = 0; daily_realized_pnl = dec 0 })
    on_broker (set_current_date today)
    check_exits today config.strategy_type
    execute_pending_signals today config
    generate_signals ind today config
    modify (record_snapshot today)

module _ {D M : Type 0} ⦃d : Decimal D⦄ where
  -- `_calculate_metrics`
  unfoldable pub calculate_metrics :
      (Engine D → BacktestConfig D → Outcome EngineError M) → BacktestConfig D → Act D (Option M)
  calculate_metrics calculator config e = (
    elim e.snapshots [
      | [] ↦ ok none
      | s ∷ ss ↦ elim (calculator e config) [ ok m ↦ ok (some m) | err x ↦ err x ]
    ],
    e,
  )

  abbrev pub finished : Option M → Engine D → BacktestResult D M
  finished metrics e = record {
    status = BacktestStatus.completed;
    metrics = metrics;
    trades = e.trades;
    total_trades = length e.trades;
    error_message = none;
  }

  -- The loop over a first date and the rest, and what follows it.
  unfoldable pub run_dates :
      Indicators D
      → (Engine D → BacktestConfig D → Outcome EngineError M)
      → BacktestConfig D
      → ℕ
      → List ℕ
      → Act D (BacktestResult D M)
  unfolding for_each
  run_dates ind calculator config day days = do
    for_each (day ∷ days) (run_day ind config)
    force_close_all (last_date day days)
    metrics ← calculate_metrics calculator config
    gets (finished metrics)

  abbrev pub nothing_traded : BacktestResult D M
  nothing_traded = record {
    status = BacktestStatus.completed;
    metrics = none;
    trades = [];
    total_trades = 0;
    error_message = none;
  }

  -- Nothing is run without a trading date or a symbol.
  unfoldable pub run_period :
      Indicators D
      → (Engine D → BacktestConfig D → Outcome EngineError M)
      → BacktestConfig D
      → List ℕ
      → List String
      → Act D (BacktestResult D M)
  unfolding run_dates
  run_period ind calculator config [] symbols = pure nothing_traded
  run_period ind calculator config (day ∷ days) [] = pure nothing_traded
  run_period ind calculator config (day ∷ days) (symbol ∷ symbols) =
      run_dates ind calculator config day days

  -- The body of the `try`.
  unfoldable pub run_body :
      Indicators D
      → (Engine D → BacktestConfig D → Outcome EngineError M)
      → BacktestConfig D
      → Act D (BacktestResult D M)
  unfolding prepare run_period
  run_body ind calculator config = do
    modify (started config)
    prepare config config.mode
    dates ← gets (trading_dates_of config)
    run_period ind calculator config dates config.symbols

  -- The result, with what was traded up to an error, and the engine afterwards.
  unfoldable pub run :
      Indicators D
      → (Engine D → BacktestConfig D → Outcome EngineError M)
      → BacktestConfig D
      → Engine D
      → BacktestResult D M × Engine D
  run ind calculator config e =
      let (result, e') = run_body ind calculator config e in
      elim result [
        | ok r ↦ (r, e')
        | err x ↦ (
          record {
            status = BacktestStatus.failed;
            metrics = none;
            trades = e'.trades;
            total_trades = length e'.trades;
            error_message = some x;
          },
          e',
        )
      ]
