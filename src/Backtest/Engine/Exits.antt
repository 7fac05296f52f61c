-- ===== src/Backtest/Engine/Exits.antt =====
-- `_check_exits`, `_execute_exit` and `_force_close_all`.
use stock_trading_agent.Base.{
  ℕ, suc, Option, none, some, List, [], ◌∷◌, ◌++◌, String, if◌then◌else◌,
}
use Prim.Native.String.{◌++◌ as text_append}
use stock_trading_agent.Base.Int.{pos, leb_ℤ}
use stock_trading_agent.Base.Dict.{Dict, lookup, insert, remove, keys}
use stock_trading_agent.Base.Effects.{
  raise, Outcome, ok, err, pure, gets, ◌>>=◌, ◌>>◌, raise_if, modify, for_each,
}
use stock_trading_agent.Decimal.{Decimal, ◌+◌, ◌-◌, ◌*◌, ◌/◌, of_int, dec, le, eq, max}
use stock_trading_agent.Core.Enums.{
  ExitReason, StrategyType, OrderSide, OrderType, reason_value, reason_of_value,
}
use stock_trading_agent.Core.Models.{ExitSignal, OrderRequest, OrderResult}
use stock_trading_agent.Backtest.Loader.{get_close_price}
use stock_trading_agent.Backtest.Simulator.Orders.{place_order}
use stock_trading_agent.Backtest.Engine.State.{
  Engine, division_by_zero, quantity_not_positive, unknown_exit_reason, Act, on_broker, calculated,
}
use stock_trading_agent.Strategy.ExitPrices.{ValueError, trailing_stop_price}
use stock_trading_agent.Strategy.ExitConditions.{
  check_stop_loss, check_take_profit, check_trailing_stop, check_time_based,
}
use stock_trading_agent.Strategy.PositionManager.{PositionRecord, RecordStatus}

-- `next_session` for the position strategy.
abbrev pub time_urgency_of : StrategyType → String
time_urgency_of StrategyType.position = "next_session"
time_urgency_of StrategyType.swing = "end_of_day"

abbrev pub or_else : {A : Type 0} → Option A → Option A → Option A
or_else none b = b
or_else (some a) b = some a

module _ {D : Type 0} ⦃d : Decimal D⦄ where
  -- The trailing stop, which is active from a gain of its own percentage on.
  unfoldable pub trailing_signal :
      PositionRecord D → D → D → D → Outcome ValueError (Option (ExitSignal D))
  trailing_signal position close pnl_pct highest = elim position.trailing_stop_pct [
    | none ↦ ok none
    | some activation_pct ↦
        if le activation_pct pnl_pct
        then elim (trailing_stop_price highest activation_pct) [
          | ok trailing_price ↦ ok (check_trailing_stop position close pnl_pct trailing_price)
          | err e ↦ err e
        ]
        else ok none
  ]

  -- The first of the four conditions that holds, in the order of the code.
  unfoldable pub exit_signal :
      PositionRecord D → D → D → D → ℕ → String → Outcome ValueError (Option (ExitSignal D))
  unfolding trailing_signal
  exit_signal position close pnl_pct highest today urgency =
      elim (check_stop_loss position close pnl_pct) [
        | some signal ↦ ok (some signal)
        | none ↦ elim (trailing_signal position close pnl_pct highest) [
          | err e ↦ err e
          | ok (some signal) ↦ ok (some signal)
          | ok none ↦ ok (
              or_else (check_take_profit position close pnl_pct)
                (check_time_based position close pnl_pct today urgency))
        ]
      ]

  -- The highest close since the entry, today's included.
  unfoldable pub highest_with : String → PositionRecord D → D → Dict D → D
  highest_with symbol position close highest_prices = elim (lookup symbol highest_prices) [
    | none ↦ max position.entry_price close
    | some high ↦ max high close
  ]

  abbrev pub gain_pct : PositionRecord D → D → D
  gain_pct position close = (close - position.entry_price) / position.entry_price * dec 100

  -- One round of the first loop, with the gain in percent.
  unfoldable pub check_conditions :
      ℕ → StrategyType → String → PositionRecord D → D → D → Act D (Option (ExitSignal D))
  unfolding highest_with
  check_conditions today strategy symbol position close pnl_pct = do
    high ← gets (λ e. highest_with symbol position close e.highest_prices)
    modify (λ e. record e { highest_prices = insert symbol high e.highest_prices })
    calculated (exit_signal position close pnl_pct high today (time_urgency_of strategy))

  -- One round of the first loop, at a known close.
  unfoldable pub check_at :
      ℕ → StrategyType → String → PositionRecord D → D → Act D (Option (ExitSignal D))
  unfolding check_conditions
  check_at today strategy symbol position close = do
    raise_if (eq position.entry_price (dec 0)) division_by_zero
    check_conditions today strategy symbol position close (gain_pct position close)

  unfoldable pub check_position :
      ℕ → StrategyType → String → PositionRecord D → Act D (Option (ExitSignal D))
  check_position today strategy symbol position = do
    price ← gets (λ e. get_close_price e.data_loader symbol today)
    elim price [ none ↦ pure none | some close ↦ check_at today strategy symbol position close ]

  abbrev pub noted :
      String → Option (ExitSignal D) → List (String × String) → List (String × String)
  noted symbol none rest = rest
  noted symbol (some signal) rest = (symbol, reason_value signal.reason) ∷ rest

  -- The first loop: what is to be sold, and why.
  unfoldable pub symbols_to_exit :
      ℕ → StrategyType → Dict (PositionRecord D) → Act D (List (String × String))
  symbols_to_exit today strategy [] = pure []
  symbols_to_exit today strategy ((symbol, position) ∷ ps) = do
    signal ← check_position today strategy symbol position
    rest ← symbols_to_exit today strategy ps
    pure (noted symbol signal rest)

  abbrev pub exit_order : String → PositionRecord D → D → String → OrderRequest D
  exit_order symbol position close exit_reason = record {
    account_id = "default";
    symbol = symbol;
    side = OrderSide.sell;
    order_type = OrderType.limit;
    quantity = position.quantity;
    price = some close;
    reason = text_append "backtest_exit_" exit_reason;
  }

  abbrev pub exited : ℕ → PositionRecord D → D → String → D → PositionRecord D
  exited today position close exit_reason realized_pnl = record position {
    exit_price = some close;
    exit_date = some today;
    exit_reason = some exit_reason;
    realized_pnl = some realized_pnl;
    status = RecordStatus.closed;
  }

  abbrev pub realized_of : PositionRecord D → D → OrderResult D → D
  realized_of position close result =
      (close - position.avg_cost) * of_int position.quantity - result.commission

  -- The record of the trade, where the reason is the value of an `ExitReason`.
  unfoldable pub note_exit :
      ℕ → String → PositionRecord D → D → OrderResult D → Option ExitReason → Act D (Unit {0})
  note_exit today symbol position close result none = raise unknown_exit_reason
  note_exit today symbol position close result (some reason) = modify (λ e. record e {
    trades =
        e.trades
        ++ (record {
          symbol = symbol;
          side = OrderSide.sell;
          quantity = position.quantity;
          price = close;
          commission = result.commission;
          slippage = dec 0;
          trade_date = today;
          pnl = some (realized_of position close result);
          exit_reason = some reason;
        }
            ∷ []);
  })

  -- The position that is sold moves to the closed ones.
  unfoldable pub move_out :
      ℕ → String → PositionRecord D → D → String → OrderResult D → Engine D → Engine D
  move_out today symbol position close exit_reason result e =
      let realized_pnl = realized_of position close result in
      record e {
        closed_positions =
            e.closed_positions ++ (exited today position close exit_reason realized_pnl ∷ []);
        positions = remove symbol e.positions;
        highest_prices = remove symbol e.highest_prices;
        daily_realized_pnl = e.daily_realized_pnl + realized_pnl;
        daily_trade_count = suc e.daily_trade_count;
      }

  -- `_execute_exit` after the order: move the position, count the trade, and record it.
  unfoldable pub record_exit :
      ℕ → String → PositionRecord D → D → String → OrderResult D → Act D (Unit {0})
  unfolding note_exit move_out
  record_exit today symbol position close exit_reason result = do
    modify (move_out today symbol position close exit_reason result)
    note_exit today symbol position close result (reason_of_value exit_reason)

  -- `_execute_exit` at a known close. The order's model wants a positive quantity.
  unfoldable pub exit_at : ℕ → String → PositionRecord D → D → String → Act D (Unit {0})
  unfolding record_exit
  exit_at today symbol position close exit_reason = do
    raise_if (leb_ℤ position.quantity (pos 0)) quantity_not_positive
    result ← on_broker (place_order (exit_order symbol position close exit_reason))
    record_exit today symbol position close exit_reason result

  unfoldable pub execute_exit : ℕ → String → String → Act D (Unit {0})
  unfolding exit_at
  execute_exit today symbol exit_reason = do
    held ← gets (λ e. lookup symbol e.positions)
    price ← gets (λ e. get_close_price e.data_loader symbol today)
    elim held [
      | none ↦ pure tt
      | some position ↦ elim price [
        | none ↦ pure tt
        | some close ↦ exit_at today symbol position close exit_reason
      ]
    ]

  unfoldable pub check_exits : ℕ → StrategyType → Act D (Unit {0})
  unfolding symbols_to_exit for_each
  check_exits today strategy = do
    positions ← gets (λ e. e.positions)
    exits ← symbols_to_exit today strategy positions
    for_each exits (λ (symbol, exit_reason). execute_exit today symbol exit_reason)

  unfoldable pub force_close_all : ℕ → Act D (Unit {0})
  unfolding for_each
  force_close_all last_date = do
    symbols ← gets (λ e. keys e.positions)
    for_each symbols (λ symbol. execute_exit last_date symbol "backtest_end")
