-- ===== src/Backtest/Engine/Refines.antt =====
-- A whole run makes only the engine's moves, whatever it meets.
pub mod Exits
pub mod Entries
pub mod Signals
pub mod Generation
use stock_trading_agent.Base.{ℕ, ◌≡◌, arith, Option, none, some, List, [], ◌∷◌, String}
use stock_trading_agent.Base.Effects.{
  Outcome, ok, err, ◌>>=◌, ◌>>◌, gets, modify, pure, for_each, Outcome-cases,
}
use stock_trading_agent.Base.Effects.Traces.{
  Trace, here, one, joined, Along, bind-Along, for_each-Along,
}
use stock_trading_agent.Decimal.{Decimal, dec}
use stock_trading_agent.Core.Enums.{BacktestMode}
use stock_trading_agent.Core.Models.{BacktestConfig}
use stock_trading_agent.Backtest.Replay.{DecisionLog}
use stock_trading_agent.Backtest.Simulator.Market.{set_current_date}
use stock_trading_agent.Backtest.Engine.State.{Engine, EngineError, on_broker}
use stock_trading_agent.Backtest.Engine.Indicators.{Indicators}
use stock_trading_agent.Backtest.Engine.Exits.{check_exits, force_close_all}
use stock_trading_agent.Backtest.Engine.Entries.{execute_pending_signals, record_snapshot}
use stock_trading_agent.Backtest.Engine.Signals.{generate_signals}
use stock_trading_agent.Backtest.Engine.Run.{
  finished, started, load_replay, prepare, run_day, calculate_metrics, run_dates, run_period,
  run_body, run, last_date, trading_dates_of,
}
use stock_trading_agent.Backtest.Engine.Moves.{Move, Moves}
use stock_trading_agent.Backtest.Engine.Refines.Exits.{check_exits-Along, force_close_all-Along}
use stock_trading_agent.Backtest.Engine.Refines.Entries.{execute_pending_signals-Along}
use stock_trading_agent.Backtest.Engine.Refines.Generation.{generate_signals-Along}

module _ {D : Type 0} ⦃d : Decimal D⦄ (ind : Indicators D) (config : BacktestConfig D) where
  pub run_day-Along : (today : ℕ) → Along (Move {D = D} ⦃d = d⦄ config) (run_day ind config today)
  unfolding run_day set_current_date
  run_day-Along today e =
      let dated : Engine D = record e {
        daily_trade_count = 0;
        daily_realized_pnl = dec 0;
        broker = (set_current_date today e.broker).1;
      } in
      joined (Move config)
        (joined (Move config) (one (Move config) Move.day_started)
          (one (Move config) (Move.date_set today)))
        (bind-Along (check_exits today config.strategy_type)
          (λ _.
            execute_pending_signals today config
            >> (generate_signals ind today config >> modify (record_snapshot today)))
          (check_exits-Along config today config.strategy_type)
          (λ _.
            bind-Along (execute_pending_signals today config)
              (λ _. generate_signals ind today config >> modify (record_snapshot today))
              (execute_pending_signals-Along today config)
              (λ _.
                bind-Along (generate_signals ind today config) (λ _. modify (record_snapshot today))
                  (generate_signals-Along ind today config)
                  (λ _ e'. one (Move config) (Move.snapshot_taken today))))
          dated)

  load_replay-Along :
      (factory : Option (List (DecisionLog D)))
      → Along (Move {D = D} ⦃d = d⦄ config) (load_replay config factory)
  unfolding load_replay
  load_replay-Along none e = here
  load_replay-Along (some rows) e = one (Move config) (Move.replay_loaded _)

  pub prepare-Along :
      (mode : BacktestMode) → Along (Move {D = D} ⦃d = d⦄ config) (prepare config mode)
  unfolding prepare
  prepare-Along BacktestMode.technical e = here
  prepare-Along BacktestMode.llm_live e = here
  prepare-Along BacktestMode.llm_replay e = load_replay-Along e.session_factory e

  module _ {M : Type 0} (calculator : Engine D → BacktestConfig D → Outcome EngineError M) where
    finish-Along :
        (e : Engine D)
        → Moves config e
            ((calculate_metrics calculator config >>= λ metrics. gets (finished metrics)) e).1
    unfolding calculate_metrics
    finish-Along =
        bind-Along (calculate_metrics calculator config) (λ metrics. gets (finished metrics))
          (λ e. here) (λ _ e. here)

    run_dates-Along :
        (day : ℕ) (days : List ℕ)
        → Along (Move {D = D} ⦃d = d⦄ config) (run_dates ind calculator config day days)
    unfolding run_dates
    run_dates-Along day days =
        bind-Along (for_each (day ∷ days) (run_day ind config))
          (λ _.
            force_close_all (last_date day days)
            >> (calculate_metrics calculator config >>= λ metrics. gets (finished metrics)))
          (for_each-Along (day ∷ days) (run_day ind config) run_day-Along)
          (λ _.
            bind-Along (force_close_all (last_date day days))
              (λ _. calculate_metrics calculator config >>= λ metrics. gets (finished metrics))
              (force_close_all-Along config (last_date day days)) (λ _. finish-Along))

    run_period-Along :
        (dates : List ℕ) (symbols : List String)
        → Along (Move {D = D} ⦃d = d⦄ config) (run_period ind calculator config dates symbols)
    unfolding run_period
    run_period-Along [] symbols e = here
    run_period-Along (day ∷ days) [] e = here
    run_period-Along (day ∷ days) (symbol ∷ symbols) e = run_dates-Along day days e

    run_body-Along :
        (e : Engine D) → Moves config (started config e) (run_body ind calculator config e).1
    unfolding run_body
    run_body-Along e =
        bind-Along (prepare config config.mode)
          (λ _. gets (trading_dates_of config) >>= λ dates.
            run_period ind calculator config dates config.symbols)
          (prepare-Along config.mode)
          (λ _ e'. run_period-Along (trading_dates_of config e') config.symbols e')
          (started config e)

    run_end :
        (e : Engine D) → (run ind calculator config e).1 ≡ (run_body ind calculator config e).1
    unfolding run
    run_end e = ground arith

    -- A run, however it ends, makes only the engine's moves from the state that it starts in.
    pub run-Moves : (e : Engine D) → Moves config (started config e) (run ind calculator config e).1
    run-Moves e = rw (run_end e) (run_body-Along e)
