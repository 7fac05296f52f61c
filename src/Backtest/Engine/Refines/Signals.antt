-- ===== src/Backtest/Engine/Refines/Signals.antt =====
-- The signals make only the engine's moves, whatever they meet.
use stock_trading_agent.Base.{ℕ, true, false, some, List, String, ◌≡◌, refl, arith}
use stock_trading_agent.Base.Int.{pos, leb_ℤ}
use stock_trading_agent.Base.Effects.{Outcome, ok, err, pure, raise}
use stock_trading_agent.Base.Effects.Traces.{here, one, option-Trace, bool-Trace}
use stock_trading_agent.Decimal.{Decimal, dec, ◌/◌}
use stock_trading_agent.Core.Models.{BacktestConfig, BacktestParameters, PositionSizing, Ohlcv}
use stock_trading_agent.Backtest.Loader.{get_close_price}
use stock_trading_agent.Backtest.Engine.State.{Engine, Act, index_error}
use stock_trading_agent.Backtest.Engine.Indicators.{
  Indicators, PositionValues, SwingValues, position_values, position_entry, swing_values,
  swing_entry,
}
use stock_trading_agent.Backtest.Engine.Signals.{
  is_taken, add_signal, add_sized, signal_at, atr_prices, fixed_prices, position_signal,
  position_rows, swing_signal, swing_rows,
}
use stock_trading_agent.Backtest.Engine.Moves.{Move, Moves}
use stock_trading_agent.Strategy.ExitPrices.{ValueError}
use stock_trading_agent.Strategy.Sizing.{calculate}

module _ {D : Type 0} ⦃d : Decimal D⦄ (config : BacktestConfig D) where
  -- A method for a symbol that is neither held nor waiting.
  abbrev pub Fresh : String → Act D (Unit {0}) → Type 0
  Fresh symbol m = (e : Engine D) → is_taken symbol e ≡ false → Moves config e (m e).1

  add_signal-Fresh :
      (symbol : String) (confidence sl tp : D) (sizing : PositionSizing D)
      → Fresh symbol (add_signal symbol confidence sl tp sizing)
  unfolding add_signal
  add_signal-Fresh symbol confidence sl tp sizing e free =
      bool-Trace (leb_ℤ sizing.quantity (pos 0)) (pure tt) _ e (λ _. here)
        (λ positive.
          one (Move config)
            (Move.signalled _ free (record { buys = refl; positive = ground arith })))

  add_sized-Fresh :
      (symbol : String) (confidence sl tp : D) (sized : Outcome ValueError (PositionSizing D))
      → Fresh symbol (add_sized symbol confidence sl tp sized)
  unfolding add_sized
  add_sized-Fresh symbol confidence sl tp (err x) e free = here
  add_sized-Fresh symbol confidence sl tp (ok sizing) e free =
      add_signal-Fresh symbol confidence sl tp sizing e free

  pub signal_at-Fresh :
      (symbol : String) (confidence entry total : D) (prices : Outcome ValueError (D × D))
      → Fresh symbol (signal_at symbol confidence entry total prices)
  unfolding signal_at
  signal_at-Fresh symbol confidence entry total (err x) e free = here
  signal_at-Fresh symbol confidence entry total (ok (sl, tp)) e free =
      add_sized-Fresh symbol confidence sl tp
        (calculate e.settings.sizer symbol entry sl (some tp) total (dec 0)) e free

  -- Unless the symbol is taken.
  pub taken-Trace :
      (symbol : String) (m : Act D (Unit {0})) (e : Engine D)
      → Fresh symbol m
      → let branch : Act D (Unit {0}) = elim (is_taken symbol e) [ true ↦ pure tt | false ↦ m ] in
        Moves config e (branch e).1
  taken-Trace symbol m e h = bool-Trace (is_taken symbol e) (pure tt) m e (λ _. here) (h e)

  module _ (ind : Indicators D) (params : BacktestParameters D) (symbol : String) (today : ℕ)
      (total : D) where
    position_signal-Fresh :
        (v : PositionValues ind.Float)
        → Fresh symbol (position_signal ind params symbol today total v)
    unfolding position_signal
    position_signal-Fresh v e free =
        option-Trace (get_close_price e.data_loader symbol today) (pure tt)
          (λ entry. elim (position_entry ind params v) [
            | true ↦
                signal_at symbol (dec 6 / dec 10) entry total
                  (atr_prices params entry (ind.decimal v.atr_val))
            | false ↦ pure tt
          ])
          e here
          (λ entry _.
            bool-Trace (position_entry ind params v)
              (signal_at symbol (dec 6 / dec 10) entry total
                (atr_prices params entry (ind.decimal v.atr_val)))
              (pure tt) e
              (λ _.
                signal_at-Fresh symbol (dec 6 / dec 10) entry total
                  (atr_prices params entry (ind.decimal v.atr_val)) e free)
              (λ _. here))

    pub position_rows-Fresh :
        (rows : List (Ohlcv D)) → Fresh symbol (position_rows ind params symbol today total rows)
    unfolding position_rows
    position_rows-Fresh rows e free =
        option-Trace (position_values ind params rows) (raise index_error)
          (position_signal ind params symbol today total) e here
          (λ v _. position_signal-Fresh v e free)

    swing_signal-Fresh :
        (v : SwingValues ind.Float) → Fresh symbol (swing_signal ind params symbol today total v)
    unfolding swing_signal
    swing_signal-Fresh v e free =
        option-Trace (get_close_price e.data_loader symbol today) (pure tt)
          (λ entry. elim (swing_entry ind params v) [
            | true ↦ signal_at symbol (dec 5 / dec 10) entry total (fixed_prices params entry)
            | false ↦ pure tt
          ])
          e here
          (λ entry _.
            bool-Trace (swing_entry ind params v)
              (signal_at symbol (dec 5 / dec 10) entry total (fixed_prices params entry)) (pure tt)
              e
              (λ _.
                signal_at-Fresh symbol (dec 5 / dec 10) entry total (fixed_prices params entry) e
                  free)
              (λ _. here))

    pub swing_rows-Fresh :
        (rows : List (Ohlcv D)) → Fresh symbol (swing_rows ind params symbol today total rows)
    unfolding swing_rows
    swing_rows-Fresh rows e free =
        option-Trace (swing_values ind rows) (raise index_error)
          (swing_signal ind params symbol today total) e here (λ v _. swing_signal-Fresh v e free)
