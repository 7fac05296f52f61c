-- ===== src/Backtest/Engine/Refines/Entries.antt =====
-- The entries make only the engine's moves, whatever they meet.
use stock_trading_agent.Base.{none, some, Option, ℕ, Bool, true, false, [], ◌≡◌, refl}
use stock_trading_agent.Base.Int.{ℤ}
use stock_trading_agent.Base.Dict.{has}
use stock_trading_agent.Base.Effects.{Outcome, ok, err, pure}
use stock_trading_agent.Base.Effects.Traces.{
  here, one, joined, Along, for_each-Along, option-Trace, bool-Trace,
}
use stock_trading_agent.Decimal.{Decimal}
use stock_trading_agent.Core.Enums.{SignalAction}
use stock_trading_agent.Core.Models.{BacktestConfig, OrderResult, Signal}
use stock_trading_agent.Backtest.Loader.{get_open_price}
use stock_trading_agent.Backtest.Simulator.State.{BrokerError}
use stock_trading_agent.Backtest.Simulator.Orders.{place_order}
use stock_trading_agent.Backtest.Simulator.Books.{place_order_atomic}
use stock_trading_agent.Backtest.Engine.State.{Engine, on_broker}
use stock_trading_agent.Backtest.Engine.Entries.{
  exit_rules_of, record_read, risk_check, entry_order, enter, enter_at, after_order, execute_action,
  execute_signal, execute_pending_signals,
}
use stock_trading_agent.Backtest.Engine.Moves.{Move, Moves}

module _ {D : Type 0} ⦃d : Decimal D⦄ where
  -- A purchase that is accepted, by what the parameters say.
  accepted-Trace :
      (today : ℕ) (config : BacktestConfig D) (signal : Signal D) (quantity : ℤ) (price : D)
      (e : Engine D) (r : OrderResult D) (rules : Option (Option D × ℤ))
      → exit_rules_of config ≡ rules
      → risk_check signal.symbol signal.quantity price e ≡ (true, quantity)
      → (place_order (entry_order signal.symbol quantity) e.broker).0 ≡ ok r
      → Moves config e
          (record_read today config signal quantity price r rules
            (record e { broker = (place_order (entry_order signal.symbol quantity) e.broker).1 })).1
  unfolding record_read
  accepted-Trace today config signal quantity price e r none unread passed accepted =
      one (Move config) (Move.unrecorded signal quantity price r unread passed accepted)
  accepted-Trace today config signal quantity price e r (some rules) read passed accepted =
      one (Move config) (Move.entered today signal quantity price r rules read passed accepted)

  -- A purchase, from the order's outcome on.
  entered-Trace :
      (today : ℕ) (config : BacktestConfig D) (signal : Signal D) (quantity : ℤ) (price : D)
      (e : Engine D) (o : Outcome BrokerError (OrderResult D))
      → risk_check signal.symbol signal.quantity price e ≡ (true, quantity)
      → (place_order (entry_order signal.symbol quantity) e.broker).0 ≡ o
      → let broker = (place_order (entry_order signal.symbol quantity) e.broker).1 in
        Moves config e
          (after_order today config signal quantity price (on_broker (λ _. (o, broker))) e).1
  unfolding after_order
  entered-Trace today config signal quantity price e (err x) passed refused =
      rw (place_order_atomic (entry_order signal.symbol quantity) e.broker refused) here
  entered-Trace today config signal quantity price e (ok r) passed accepted =
      accepted-Trace today config signal quantity price e r _ refl passed accepted

  enter-Trace :
      (today : ℕ) (config : BacktestConfig D) (signal : Signal D) (price : D) (e : Engine D)
      (checked : Bool × ℤ)
      → risk_check signal.symbol signal.quantity price e ≡ checked
      → Moves config e (enter today config signal price checked e).1
  unfolding enter
  enter-Trace today config signal price e (false, quantity) stopped = here
  enter-Trace today config signal price e (true, quantity) passed =
      entered-Trace today config signal quantity price e _ passed refl

  execute_action-Along :
      (today : ℕ) (config : BacktestConfig D) (signal : Signal D) (action : SignalAction)
      → Along (Move {D = D} ⦃d = d⦄ config) (execute_action today config signal action)
  unfolding execute_action enter_at
  execute_action-Along today config signal SignalAction.sell e = here
  execute_action-Along today config signal SignalAction.hold e = here
  execute_action-Along today config signal SignalAction.buy e =
      option-Trace (get_open_price e.data_loader signal.symbol today) (pure tt)
        (λ price. elim (has signal.symbol e.positions) [
          | true ↦ pure tt
          | false ↦ enter_at today config signal price
        ])
        e here
        (λ price _.
          bool-Trace (has signal.symbol e.positions) (pure tt) (enter_at today config signal price)
            e (λ _. here) (λ _. enter-Trace today config signal price e _ refl))

  pub execute_pending_signals-Along :
      (today : ℕ) (config : BacktestConfig D)
      → Along (Move {D = D} ⦃d = d⦄ config) (execute_pending_signals today config)
  unfolding execute_pending_signals execute_signal
  execute_pending_signals-Along today config e =
      joined (Move config) (one (Move config) Move.signals_taken) (
        for_each-Along e.pending_signals (execute_signal today config)
          (λ signal. execute_action-Along today config signal signal.action)
          (record e { pending_signals = [] }))
