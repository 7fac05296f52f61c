-- ===== src/Backtest/Engine/Refines/Exits.antt =====
-- The exits make only the engine's moves, whatever they meet.
use stock_trading_agent.Base.{ℕ, Option, none, some, [], ◌∷◌, String, ◌≡◌, refl, arith}
use stock_trading_agent.Base.Int.{pos, leb_ℤ, ◌<ℤ◌}
use stock_trading_agent.Base.Dict.{Dict, lookup, insert, keys}
use stock_trading_agent.Base.Effects.{◌>>=◌, Outcome, ok, err, pure, for_each}
use stock_trading_agent.Base.Effects.Traces.{
  here, one, joined, Along, bind-Along, for_each-Along, option-Trace, raise_if-Trace,
}
use stock_trading_agent.Decimal.{Decimal, eq, dec}
use stock_trading_agent.Core.Enums.{ExitReason, StrategyType, reason_of_value}
use stock_trading_agent.Core.Models.{BacktestConfig, OrderResult}
use stock_trading_agent.Backtest.Simulator.State.{BrokerError}
use stock_trading_agent.Backtest.Simulator.Orders.{place_order}
use stock_trading_agent.Backtest.Simulator.Books.{place_order_atomic}
use stock_trading_agent.Backtest.Loader.{get_close_price}
use stock_trading_agent.Backtest.Engine.State.{
  Engine, on_broker, division_by_zero, quantity_not_positive,
}
use stock_trading_agent.Backtest.Engine.Exits.{
  noted, note_exit, gain_pct, highest_with, check_conditions, check_at, check_position,
  symbols_to_exit, record_exit, exit_at, execute_exit, check_exits, force_close_all, exit_order,
}
use stock_trading_agent.Backtest.Engine.Moves.{Move, Moves}
use stock_trading_agent.Strategy.PositionManager.{PositionRecord}

module _ {D : Type 0} ⦃d : Decimal D⦄ (config : BacktestConfig D) where
  check_conditions-Along :
      (today : ℕ) (strategy : StrategyType) (symbol : String) (position : PositionRecord D)
      (close pnl_pct : D)
      → Along (Move config) (check_conditions today strategy symbol position close pnl_pct)
  unfolding check_conditions
  check_conditions-Along today strategy symbol position close pnl_pct e = one (Move config) (
      Move.high_noted
        (insert symbol (highest_with symbol position close e.highest_prices) e.highest_prices))

  check_at-Along :
      (today : ℕ) (strategy : StrategyType) (symbol : String) (position : PositionRecord D)
      (close : D)
      → Along (Move config) (check_at today strategy symbol position close)
  unfolding check_at
  check_at-Along today strategy symbol position close e =
      raise_if-Trace (eq position.entry_price (dec 0)) division_by_zero
        (check_conditions today strategy symbol position close (gain_pct position close)) e
        (λ _.
          check_conditions-Along today strategy symbol position close (gain_pct position close) e)

  check_position-Along :
      (today : ℕ) (strategy : StrategyType) (symbol : String) (position : PositionRecord D)
      → Along (Move config) (check_position today strategy symbol position)
  unfolding check_position
  check_position-Along today strategy symbol position e =
      option-Trace (get_close_price e.data_loader symbol today) (pure none)
        (check_at today strategy symbol position) e here
        (λ close _. check_at-Along today strategy symbol position close e)

  symbols_to_exit-Along :
      (today : ℕ) (strategy : StrategyType) (ps : Dict (PositionRecord D))
      → Along (Move config) (symbols_to_exit today strategy ps)
  unfolding symbols_to_exit
  symbols_to_exit-Along today strategy [] s = here
  symbols_to_exit-Along today strategy ((symbol, position) ∷ ps) s =
      bind-Along (check_position today strategy symbol position)
        (λ signal. symbols_to_exit today strategy ps >>= λ rest. pure (noted symbol signal rest))
        (check_position-Along today strategy symbol position)
        (λ signal.
          bind-Along (symbols_to_exit today strategy ps) (λ rest. pure (noted symbol signal rest))
            (symbols_to_exit-Along today strategy ps) (λ rest s. here))
        s

  note_exit-Along :
      (today : ℕ) (symbol : String) (position : PositionRecord D) (close : D) (r : OrderResult D)
      (reason : Option ExitReason)
      → Along (Move config) (note_exit today symbol position close r reason)
  unfolding note_exit
  note_exit-Along today symbol position close r none e = here
  note_exit-Along today symbol position close r (some reason) e =
      one (Move config) (Move.trade_noted _)

  -- A sale, from the order's outcome on.
  sold-Trace :
      (today : ℕ) (symbol : String) (position : PositionRecord D) (close : D) (reason : String)
      (e : Engine D) (o : Outcome BrokerError (OrderResult D))
      → lookup symbol e.positions ≡ some position
      → pos 0 <ℤ position.quantity
      → (place_order (exit_order symbol position close reason) e.broker).0 ≡ o
      → let broker = (place_order (exit_order symbol position close reason) e.broker).1 in
        Moves config e
          ((on_broker (λ _. (o, broker)) >>= record_exit today symbol position close reason) e).1
  unfolding record_exit
  sold-Trace today symbol position close reason e (err x) held positive refused =
      rw (place_order_atomic (exit_order symbol position close reason) e.broker refused) here
  sold-Trace today symbol position close reason e (ok r) held positive accepted =
      joined (Move config)
        (one (Move config) (Move.sold today symbol position close reason r held positive accepted))
        (note_exit-Along today symbol position close r (reason_of_value reason) _)

  exit_at-Trace :
      (today : ℕ) (symbol : String) (position : PositionRecord D) (close : D) (reason : String)
      (e : Engine D)
      → lookup symbol e.positions ≡ some position
      → Moves config e (exit_at today symbol position close reason e).1
  unfolding exit_at
  exit_at-Trace today symbol position close reason e held =
      raise_if-Trace (leb_ℤ position.quantity (pos 0)) quantity_not_positive
        (on_broker (place_order (exit_order symbol position close reason))
          >>= record_exit today symbol position close reason)
        e (λ positive. sold-Trace today symbol position close reason e _ held (ground arith) refl)

  execute_exit-Along :
      (today : ℕ) (symbol reason : String)
      → Along (Move {D = D} ⦃d = d⦄ config) (execute_exit today symbol reason)
  unfolding execute_exit
  execute_exit-Along today symbol reason e =
      option-Trace (lookup symbol e.positions) (pure tt)
        (λ position. elim (get_close_price e.data_loader symbol today) [
          | none ↦ pure tt
          | some close ↦ exit_at today symbol position close reason
        ])
        e here
        (λ position held.
          option-Trace (get_close_price e.data_loader symbol today) (pure tt)
            (λ close. exit_at today symbol position close reason) e here
            (λ close _. exit_at-Trace today symbol position close reason e held))

  pub check_exits-Along :
      (today : ℕ) (strategy : StrategyType)
      → Along (Move {D = D} ⦃d = d⦄ config) (check_exits today strategy)
  unfolding check_exits
  check_exits-Along today strategy e =
      bind-Along (symbols_to_exit today strategy e.positions)
        (λ exits. for_each exits (λ (symbol, exit_reason). execute_exit today symbol exit_reason))
        (symbols_to_exit-Along today strategy e.positions)
        (λ exits.
          for_each-Along exits (λ (symbol, exit_reason). execute_exit today symbol exit_reason)
            (λ (symbol, exit_reason). execute_exit-Along today symbol exit_reason))
        e

  pub force_close_all-Along :
      (last_date : ℕ) → Along (Move {D = D} ⦃d = d⦄ config) (force_close_all last_date)
  unfolding force_close_all
  force_close_all-Along last_date e =
      for_each-Along (keys e.positions) (λ symbol. execute_exit last_date symbol "backtest_end")
        (λ symbol. execute_exit-Along last_date symbol "backtest_end") e
