-- ===== src/Backtest/Engine/Moves.antt =====
-- The changes of its state that an engine makes, with what later proofs need of what the code has
-- tested by then.
use stock_trading_agent.Base.{ℕ, true, false, Option, none, some, List, [], ◌∷◌, ◌++◌, String, ◌≡◌}
use stock_trading_agent.Base.Int.{ℤ, pos, ◌<ℤ◌}
use stock_trading_agent.Base.Dict.{Dict, lookup}
use stock_trading_agent.Base.Effects.{ok}
use stock_trading_agent.Base.Effects.Traces.{Trace}
use stock_trading_agent.Decimal.{Decimal, dec}
use stock_trading_agent.Core.Enums.{SignalAction}
use stock_trading_agent.Core.Models.{BacktestConfig, BacktestTradeRecord, OrderResult, Signal}
use stock_trading_agent.Backtest.Replay.{Replay}
use stock_trading_agent.Backtest.Simulator.Orders.{place_order}
use stock_trading_agent.Backtest.Simulator.Market.{set_current_date}
use stock_trading_agent.Backtest.Engine.State.{Engine}
use stock_trading_agent.Backtest.Engine.Exits.{exit_order, move_out}
use stock_trading_agent.Backtest.Engine.Entries.{
  entry_order, exit_rules_of, record_entry, record_snapshot, risk_check,
}
use stock_trading_agent.Backtest.Engine.Signals.{is_taken}
use stock_trading_agent.Strategy.PositionManager.{PositionRecord}

module _ {D : Type 0} ⦃d : Decimal D⦄ where
  -- A signal to buy at least one share.
  pub record IsEntry (s : Signal D) : Type 0 where
    pub buys : s.action ≡ SignalAction.buy
    pub positive : pos 0 <ℤ s.quantity

  pub data Move (config : BacktestConfig D) (e : Engine D) : Engine D → Type 0 where
    replay_loaded : (replay : Option (Replay D)) → Move config e (record e { llm_replay = replay })
    day_started : Move config e (record e { daily_trade_count = 0; daily_realized_pnl = dec 0 })
    date_set :
        (today : ℕ) → Move config e (record e { broker = (set_current_date today e.broker).1 })
    high_noted : (highs : Dict D) → Move config e (record e { highest_prices = highs })
    -- A position that is held is sold in full.
    sold :
        (today : ℕ) (symbol : String) (position : PositionRecord D) (close : D) (reason : String)
        (r : OrderResult D)
        → lookup symbol e.positions ≡ some position
        → pos 0 <ℤ position.quantity
        → (place_order (exit_order symbol position close reason) e.broker).0 ≡ ok r
        → Move config e (
            move_out today symbol position close reason r (record e {
              broker = (place_order (exit_order symbol position close reason) e.broker).1;
            }))
    trade_noted :
        (trades : List (BacktestTradeRecord D)) → Move config e (record e { trades = trades })
    signals_taken : Move config e (record e { pending_signals = [] })
    -- A purchase that the risk check passes, and the broker accepts.
    entered :
        (today : ℕ) (signal : Signal D) (quantity : ℤ) (price : D) (r : OrderResult D)
        (rules : Option D × ℤ)
        → exit_rules_of config ≡ some rules
        → risk_check signal.symbol signal.quantity price e ≡ (true, quantity)
        → (place_order (entry_order signal.symbol quantity) e.broker).0 ≡ ok r
        → Move config e (
            record_entry today config signal quantity price r rules
              (record e { broker = (place_order (entry_order signal.symbol quantity) e.broker).1 }))
    -- A purchase that the broker accepts, and that is not recorded since a parameter does not convert.
    unrecorded :
        (signal : Signal D) (quantity : ℤ) (price : D) (r : OrderResult D)
        → exit_rules_of config ≡ none
        → risk_check signal.symbol signal.quantity price e ≡ (true, quantity)
        → (place_order (entry_order signal.symbol quantity) e.broker).0 ≡ ok r
        → Move config e
            (record e { broker = (place_order (entry_order signal.symbol quantity) e.broker).1 })
    -- A signal for a symbol that is neither held nor waiting.
    signalled :
        (s : Signal D)
        → is_taken s.symbol e ≡ false
        → IsEntry s
        → Move config e (record e { pending_signals = e.pending_signals ++ (s ∷ []) })
    snapshot_taken : (today : ℕ) → Move config e (record_snapshot today e)

  abbrev pub Moves : BacktestConfig D → Engine D → Engine D → Type 0
  Moves config = Trace (Move config)
