-- ===== src/Backtest/Engine/Refines/Generation.antt =====
-- The loops over the symbols make only the engine's moves, whatever they meet.
use stock_trading_agent.Base.{ℕ, true, false, ◌||◌, none, some, List, [], ◌∷◌, String, length, ltb}
use stock_trading_agent.Base.Effects.{pure, raise, catching}
use stock_trading_agent.Base.Effects.Traces.{
  here, Along, for_each-Along, option-Trace, bool-Trace, catching-Along,
}
use stock_trading_agent.Decimal.{Decimal}
use stock_trading_agent.Core.Enums.{SignalAction, StrategyType, BacktestMode}
use stock_trading_agent.Core.Models.{BacktestConfig}
use stock_trading_agent.Backtest.Loader.{get_close_price}
use stock_trading_agent.Backtest.Replay.{Replay, ReplayDecision, get_decisions, to_signal}
use stock_trading_agent.Backtest.Simulator.Market.{get_total_value}
use stock_trading_agent.Backtest.Engine.State.{Act, assertion_failed}
use stock_trading_agent.Backtest.Engine.Entries.{given}
use stock_trading_agent.Backtest.Engine.Indicators.{Indicators}
use stock_trading_agent.Backtest.Engine.Signals.{
  most_confident, history, signal_at, atr_prices, fixed_prices, position_rows, try_position_signal,
  swing_rows, try_swing_signal, compute_atr, replay_buy, replay_action, replay_signal,
  replay_decisions, try_replay_signal, try_symbols, generate_technical, generate_replay_signals,
  generate_mode, generate_signals,
}
use stock_trading_agent.Backtest.Engine.Moves.{Move}
use stock_trading_agent.Backtest.Engine.Refines.Signals.{
  Fresh, signal_at-Fresh, taken-Trace, position_rows-Fresh, swing_rows-Fresh,
}

module _ {D : Type 0} ⦃d : Decimal D⦄ where
  module _ (ind : Indicators D) (config : BacktestConfig D) (symbol : String) (today : ℕ)
      (total : D) where
    replay_buy-Fresh :
        (confidence price : D) (strategy : StrategyType)
        → Fresh config symbol (replay_buy ind config symbol today total confidence price strategy)
    unfolding replay_buy
    replay_buy-Fresh confidence price StrategyType.swing e free =
        signal_at-Fresh config symbol confidence price total (fixed_prices config.parameters price)
          e free
    replay_buy-Fresh confidence price StrategyType.position e free =
        option-Trace (compute_atr ind symbol today e) (pure tt)
          (λ atr. signal_at symbol confidence price total (atr_prices config.parameters price atr))
          e here
          (λ atr _.
            signal_at-Fresh config symbol confidence price total
              (atr_prices config.parameters price atr) e free)

    replay_action-Fresh :
        (confidence price : D) (action : SignalAction)
        → Fresh config symbol (replay_action ind config symbol today total confidence price action)
    unfolding replay_action
    replay_action-Fresh confidence price SignalAction.buy e free =
        replay_buy-Fresh confidence price config.strategy_type e free
    replay_action-Fresh confidence price SignalAction.sell e free = here
    replay_action-Fresh confidence price SignalAction.hold e free = here

    replay_signal-Fresh :
        (best : ReplayDecision D)
        → Fresh config symbol (replay_signal ind config symbol today total best)
    unfolding replay_signal
    replay_signal-Fresh best e free =
        option-Trace (get_close_price e.data_loader symbol today) (pure tt)
          (λ current. elim (to_signal best current) [
            | none ↦ pure tt
            | some signal ↦
                replay_action ind config symbol today total best.confidence current signal.action
          ])
          e here
          (λ current _.
            option-Trace (to_signal best current) (pure tt)
              (λ signal.
                replay_action ind config symbol today total best.confidence current signal.action)
              e here (λ signal _. replay_action-Fresh best.confidence current signal.action e free))

    replay_decisions-Fresh :
        (ds : List (ReplayDecision D))
        → Fresh config symbol (replay_decisions ind config symbol today total ds)
    unfolding replay_decisions
    replay_decisions-Fresh [] e free = here
    replay_decisions-Fresh (r ∷ rs) e free = replay_signal-Fresh (most_confident r rs) e free

    try_replay_signal-Along :
        (replay : Replay D)
        → Along
            (Move {D = D} ⦃d = d⦄ config)
            (try_replay_signal ind config replay today total symbol)
    unfolding try_replay_signal
    try_replay_signal-Along replay e =
        let decisions = get_decisions today symbol replay in
        taken-Trace config symbol (replay_decisions ind config symbol today total decisions) e
          (replay_decisions-Fresh decisions)

    try_position_signal-Along :
        Along (Move {D = D} ⦃d = d⦄ config) (try_position_signal ind config today total symbol)
    unfolding try_position_signal
    try_position_signal-Along e =
        let rows = history symbol today e in
        let short =
          ltb (length rows) 1 || ltb (length rows) (given 60 config.parameters.sma_long) in
        taken-Trace config symbol
          (elim short [
            | true ↦ pure tt
            | false ↦ position_rows ind config.parameters symbol today total rows
          ])
          e
          (λ e' free.
            bool-Trace short (pure tt) (position_rows ind config.parameters symbol today total rows)
              e' (λ _. here)
              (λ _.
                position_rows-Fresh config ind config.parameters symbol today total rows e' free))

    try_swing_signal-Along :
        Along (Move {D = D} ⦃d = d⦄ config) (try_swing_signal ind config today total symbol)
    unfolding try_swing_signal
    try_swing_signal-Along e =
        let rows = history symbol today e in
        taken-Trace config symbol
          (elim (ltb (length rows) 30) [
            | true ↦ pure tt
            | false ↦ swing_rows ind config.parameters symbol today total rows
          ])
          e
          (λ e' free.
            bool-Trace (ltb (length rows) 30) (pure tt)
              (swing_rows ind config.parameters symbol today total rows) e' (λ _. here)
              (λ _. swing_rows-Fresh config ind config.parameters symbol today total rows e' free))

  try_symbols-Along :
      (config : BacktestConfig D) (try_symbol : D → String → Act D (Unit {0}))
      → ((total : D) (symbol : String)
          → Along (Move {D = D} ⦃d = d⦄ config) (try_symbol total symbol))
      → Along (Move {D = D} ⦃d = d⦄ config) (try_symbols config try_symbol)
  unfolding try_symbols
  try_symbols-Along config try_symbol h e =
      let total = get_total_value e.broker in
      for_each-Along config.symbols (λ symbol. catching (try_symbol total symbol) (pure tt))
        (λ symbol. catching-Along (try_symbol total symbol) (pure tt) (h total symbol) (λ e. here))
        e

  module _ (ind : Indicators D) (today : ℕ) (config : BacktestConfig D) where
    generate_technical-Along :
        (strategy : StrategyType)
        → Along (Move {D = D} ⦃d = d⦄ config) (generate_technical ind today config strategy)
    unfolding generate_technical
    generate_technical-Along StrategyType.position =
        try_symbols-Along config (try_position_signal ind config today)
          (λ total symbol. try_position_signal-Along ind config symbol today total)
    generate_technical-Along StrategyType.swing =
        try_symbols-Along config (try_swing_signal ind config today)
          (λ total symbol. try_swing_signal-Along ind config symbol today total)

    generate_replay_signals-Along :
        Along (Move {D = D} ⦃d = d⦄ config) (generate_replay_signals ind today config)
    unfolding generate_replay_signals
    generate_replay_signals-Along e =
        option-Trace e.llm_replay (raise assertion_failed)
          (λ replay. try_symbols config (try_replay_signal ind config replay today)) e here
          (λ replay _.
            try_symbols-Along config (try_replay_signal ind config replay today)
              (λ total symbol. try_replay_signal-Along ind config symbol today total replay) e)

    generate_mode-Along :
        (mode : BacktestMode)
        → Along (Move {D = D} ⦃d = d⦄ config) (generate_mode ind today config mode)
    unfolding generate_mode
    generate_mode-Along BacktestMode.llm_replay = generate_replay_signals-Along
    generate_mode-Along BacktestMode.technical = generate_technical-Along config.strategy_type
    generate_mode-Along BacktestMode.llm_live = generate_technical-Along config.strategy_type

    pub generate_signals-Along :
        Along (Move {D = D} ⦃d = d⦄ config) (generate_signals ind today config)
    unfolding generate_signals
    generate_signals-Along = generate_mode-Along config.mode
