-- ===== src/Backtest/Engine/Signals.antt =====
-- `_generate_signals` and what it calls.
use stock_trading_agent.Base.{
  ℕ, Bool, true, false, ◌||◌, Option, none, some, List, [], ◌∷◌, ◌++◌, String, str_eq, length, any,
  ltb, if◌then◌else◌,
}
use stock_trading_agent.Base.Int.{pos, leb_ℤ}
use stock_trading_agent.Base.Dict.{has}
use stock_trading_agent.Base.Effects.{
  ok, err, raise, Outcome, pure, gets, ◌>>=◌, modify, for_each, catching,
}
use stock_trading_agent.Decimal.{Decimal, ◌/◌, dec, lt}
use stock_trading_agent.Core.Enums.{BacktestMode, SignalAction, StrategyType}
use stock_trading_agent.Core.Models.{BacktestConfig, BacktestParameters, Ohlcv, PositionSizing}
use stock_trading_agent.Backtest.Loader.{get_close_price, get_ohlcv_range}
use stock_trading_agent.Backtest.Replay.{Replay, ReplayDecision, get_decisions, to_signal}
use stock_trading_agent.Backtest.Simulator.Market.{get_total_value}
use stock_trading_agent.Backtest.Engine.State.{
  invalid_value, Engine, Act, index_error, assertion_failed,
}
use stock_trading_agent.Backtest.Engine.Entries.{given}
use stock_trading_agent.Backtest.Engine.Indicators.{
  Indicators, PositionValues, SwingValues, last, position_values, position_entry, swing_values,
  swing_entry,
}
use stock_trading_agent.Strategy.ExitPrices.{ValueError, atr_based, fixed_percentage}
use stock_trading_agent.Strategy.Sizing.{calculate}

-- `max(ds, key=lambda d: d.confidence)`, with the first of equals.
unfoldable pub most_confident :
    {D : Type 0} ⦃d : Decimal D⦄ → ReplayDecision D → List (ReplayDecision D) → ReplayDecision D
most_confident best [] = best
most_confident best (r ∷ rs) =
    most_confident (if lt best.confidence r.confidence then r else best) rs

-- `all_dates[0] if all_dates else trading_date`
abbrev pub first_of : ℕ → List ℕ → ℕ
first_of today [] = today
first_of today (day ∷ days) = day

module _ {D : Type 0} ⦃d : Decimal D⦄ where
  -- Whether a symbol is held, or waits already.
  unfoldable pub is_taken : String → Engine D → Bool
  is_taken symbol e = has symbol e.positions || any (λ s. str_eq s.symbol symbol) e.pending_signals

  -- The rows from the first trading date to today.
  unfoldable pub history : String → ℕ → Engine D → List (Ohlcv D)
  history symbol today e =
      get_ohlcv_range e.data_loader symbol (first_of today e.data_loader.trading_dates) today

  -- The signal of a sizing, where its quantity is positive.
  unfoldable pub add_signal : String → D → D → D → PositionSizing D → Act D (Unit {0})
  add_signal symbol confidence sl tp sizing = elim (leb_ℤ sizing.quantity (pos 0)) [
    | true ↦ pure tt
    | false ↦ modify (λ e. record e {
      pending_signals =
          e.pending_signals
          ++ (record {
            symbol = symbol;
            action = SignalAction.buy;
            confidence = confidence;
            target_price = some tp;
            stop_loss_price = some sl;
            quantity = sizing.quantity;
            position_value_krw = sizing.position_value_krw;
          }
              ∷ []);
    })
  ]

  unfoldable pub add_sized :
      String → D → D → D → Outcome ValueError (PositionSizing D) → Act D (Unit {0})
  unfolding add_signal
  add_sized symbol confidence sl tp (err x) = raise (invalid_value x)
  add_sized symbol confidence sl tp (ok sizing) = add_signal symbol confidence sl tp sizing

  -- The signal around an entry, with its two prices.
  unfoldable pub signal_at : String → D → D → D → Outcome ValueError (D × D) → Act D (Unit {0})
  unfolding add_sized
  signal_at symbol confidence entry_price total_value (err x) = raise (invalid_value x)
  signal_at symbol confidence entry_price total_value (ok (sl, tp)) = do
    sizer ← gets (λ e. e.settings.sizer)
    add_sized symbol confidence sl tp
        (calculate sizer symbol entry_price sl (some tp) total_value (dec 0))

  abbrev pub atr_prices : BacktestParameters D → D → D → Outcome ValueError (D × D)
  atr_prices params price atr =
      atr_based price atr (given (dec 2) params.atr_stop_mult) (given (dec 3) params.atr_tp_mult)

  abbrev pub fixed_prices : BacktestParameters D → D → Outcome ValueError (D × D)
  fixed_prices params price =
      fixed_percentage price (given (dec 3) params.stop_pct) (given (dec 5) params.tp_pct)

  -- Each symbol of the configuration; one that raises is skipped.
  unfoldable pub try_symbols : BacktestConfig D → (D → String → Act D (Unit {0})) → Act D (Unit {0})
  unfolding for_each
  try_symbols config try_symbol = do
    total_value ← gets (λ e. get_total_value e.broker)
    for_each config.symbols (λ symbol. catching (try_symbol total_value symbol) (pure tt))

  module _ (ind : Indicators D) where
    -- With the values of the indicators.
    unfoldable pub position_signal :
        BacktestParameters D → String → ℕ → D → PositionValues ind.Float → Act D (Unit {0})
    unfolding signal_at
    position_signal params symbol today total_value values = do
      price ← gets (λ e. get_close_price e.data_loader symbol today)
      elim price [
        | none ↦ pure tt
        | some entry ↦ elim (position_entry ind params values) [
          | false ↦ pure tt
          | true ↦
              signal_at symbol (dec 6 / dec 10) entry total_value
                (atr_prices params entry (ind.decimal values.atr_val))
        ]
      ]

    -- With enough rows.
    unfoldable pub position_rows :
        BacktestParameters D → String → ℕ → D → List (Ohlcv D) → Act D (Unit {0})
    unfolding position_signal
    position_rows params symbol today total_value rows = elim (position_values ind params rows) [
      | none ↦ raise index_error
      | some values ↦ position_signal params symbol today total_value values
    ]

    unfoldable pub try_position_signal : BacktestConfig D → ℕ → D → String → Act D (Unit {0})
    unfolding position_rows
    try_position_signal config today total_value symbol = do
      taken ← gets (is_taken symbol)
      rows ← gets (history symbol today)
      elim taken [
        | true ↦ pure tt
        | false ↦
            elim (ltb (length rows) 1 || ltb (length rows) (given 60 config.parameters.sma_long)) [
              | true ↦ pure tt
              | false ↦ position_rows config.parameters symbol today total_value rows
            ]
      ]

    unfoldable pub swing_signal :
        BacktestParameters D → String → ℕ → D → SwingValues ind.Float → Act D (Unit {0})
    unfolding signal_at
    swing_signal params symbol today total_value values = do
      price ← gets (λ e. get_close_price e.data_loader symbol today)
      elim price [
        | none ↦ pure tt
        | some entry ↦ elim (swing_entry ind params values) [
          | false ↦ pure tt
          | true ↦ signal_at symbol (dec 5 / dec 10) entry total_value (fixed_prices params entry)
        ]
      ]

    -- With enough rows. A series of fewer than two values skips the symbol, here by an error.
    unfoldable pub swing_rows :
        BacktestParameters D → String → ℕ → D → List (Ohlcv D) → Act D (Unit {0})
    unfolding swing_signal
    swing_rows params symbol today total_value rows = elim (swing_values ind rows) [
      | none ↦ raise index_error
      | some values ↦ swing_signal params symbol today total_value values
    ]

    unfoldable pub try_swing_signal : BacktestConfig D → ℕ → D → String → Act D (Unit {0})
    unfolding swing_rows
    try_swing_signal config today total_value symbol = do
      taken ← gets (is_taken symbol)
      rows ← gets (history symbol today)
      elim taken [
        | true ↦ pure tt
        | false ↦ elim (ltb (length rows) 30) [
          | true ↦ pure tt
          | false ↦ swing_rows config.parameters symbol today total_value rows
        ]
      ]

    -- `None` for too few rows or no number, and here for no series, where the caller skips too.
    unfoldable pub compute_atr : String → ℕ → Engine D → Option D
    compute_atr symbol today e =
        let rows = history symbol today e in
        if ltb (length rows) 14 then none else elim (last (ind.atr rows)) [
          | none ↦ none
          | some val ↦ if ind.is_nan val then none else some (ind.decimal val)
        ]

    -- The signal of a decision to buy at a known close.
    unfoldable pub replay_buy :
        BacktestConfig D → String → ℕ → D → D → D → StrategyType → Act D (Unit {0})
    unfolding signal_at
    replay_buy config symbol today total_value confidence price StrategyType.swing =
        signal_at symbol confidence price total_value (fixed_prices config.parameters price)
    replay_buy config symbol today total_value confidence price StrategyType.position = do
      atr_val ← gets (compute_atr symbol today)
      elim atr_val [
        | none ↦ pure tt
        | some atr ↦
            signal_at symbol confidence price total_value (atr_prices config.parameters price atr)
      ]

    -- By the action of the decision's signal: only a purchase does anything.
    unfoldable pub replay_action :
        BacktestConfig D → String → ℕ → D → D → D → SignalAction → Act D (Unit {0})
    unfolding replay_buy
    replay_action config symbol today total_value confidence price SignalAction.buy =
        replay_buy config symbol today total_value confidence price config.strategy_type
    replay_action config symbol today total_value confidence price SignalAction.sell = pure tt
    replay_action config symbol today total_value confidence price SignalAction.hold = pure tt

    -- With a decision.
    unfoldable pub replay_signal :
        BacktestConfig D → String → ℕ → D → ReplayDecision D → Act D (Unit {0})
    unfolding replay_action
    replay_signal config symbol today total_value best = do
      price ← gets (λ e. get_close_price e.data_loader symbol today)
      elim price [
        | none ↦ pure tt
        | some current ↦ elim (to_signal best current) [
          | none ↦ pure tt
          | some signal ↦
              replay_action config symbol today total_value best.confidence current signal.action
        ]
      ]

    unfoldable pub replay_decisions :
        BacktestConfig D → String → ℕ → D → List (ReplayDecision D) → Act D (Unit {0})
    unfolding replay_signal
    replay_decisions config symbol today total_value [] = pure tt
    replay_decisions config symbol today total_value (r ∷ rs) =
        replay_signal config symbol today total_value (most_confident r rs)

    unfoldable pub try_replay_signal :
        BacktestConfig D → Replay D → ℕ → D → String → Act D (Unit {0})
    unfolding replay_decisions
    try_replay_signal config replay today total_value symbol = do
      taken ← gets (is_taken symbol)
      elim taken [
        | true ↦ pure tt
        | false ↦
            replay_decisions config symbol today total_value (get_decisions today symbol replay)
      ]

    unfoldable pub generate_technical : ℕ → BacktestConfig D → StrategyType → Act D (Unit {0})
    unfolding try_symbols
    generate_technical today config StrategyType.position =
        try_symbols config (try_position_signal config today)
    generate_technical today config StrategyType.swing =
        try_symbols config (try_swing_signal config today)

    unfoldable pub generate_replay_signals : ℕ → BacktestConfig D → Act D (Unit {0})
    unfolding try_symbols
    generate_replay_signals today config = do
      loaded ← gets (λ e. e.llm_replay)
      elim loaded [
        | none ↦ raise assertion_failed
        | some replay ↦ try_symbols config (try_replay_signal config replay today)
      ]

    -- Every mode but the replay's takes the technical signals.
    unfoldable pub generate_mode : ℕ → BacktestConfig D → BacktestMode → Act D (Unit {0})
    generate_mode today config BacktestMode.llm_replay = generate_replay_signals today config
    generate_mode today config BacktestMode.technical =
        generate_technical today config config.strategy_type
    generate_mode today config BacktestMode.llm_live =
        generate_technical today config config.strategy_type

    unfoldable pub generate_signals : ℕ → BacktestConfig D → Act D (Unit {0})
    unfolding generate_mode
    generate_signals today config = generate_mode today config config.mode
