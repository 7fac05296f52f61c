-- ===== src/Backtest/Engine/Entries.antt =====
-- `_risk_check`, `_execute_pending_signals` and `_record_snapshot`.
use stock_trading_agent.Base.{
  ℕ, suc, Bool, true, false, Option, none, some, List, [], ◌∷◌, ◌++◌, String, length, if◌then◌else◌,
}
use stock_trading_agent.Base.Int.{ℤ, pos, leb_ℤ, min_ℤ}
use stock_trading_agent.Base.Dict.{has, insert, values}
use stock_trading_agent.Base.Effects.{raise, pure, gets, ◌>>=◌, ◌>>◌, modify, for_each, catching}
use stock_trading_agent.Decimal.{
  Decimal, ◌+◌, ◌-◌, ◌*◌, ◌/◌, of_int, to_int, dec, lt, eq, max, abs, quantize,
}
use stock_trading_agent.Core.Enums.{OrderSide, OrderType, SignalAction, StrategyType}
use stock_trading_agent.Core.Models.{
  BacktestConfig, BacktestParameters, OrderRequest, OrderResult, Signal,
}
use stock_trading_agent.Backtest.Loader.{Loader, get_close_price, get_open_price}
use stock_trading_agent.Backtest.Simulator.Orders.{place_order}
use stock_trading_agent.Backtest.Simulator.Market.{get_total_value}
use stock_trading_agent.Backtest.Engine.State.{Engine, Act, on_broker, invalid_parameter}
use stock_trading_agent.Strategy.PositionManager.{PositionRecord, RecordStatus}

-- `params.get(key, default)`
abbrev pub given : {A : Type 0} → A → Option A → A
given default none = default
given default (some a) = a

module _ {D : Type 0} ⦃d : Decimal D⦄ where
  -- `int(amount / price) if price > 0 else 0`
  unfoldable pub shares : D → D → ℤ
  shares amount price = if lt (dec 0) price then to_int (amount / price) else pos 0

  -- The quantity under the three caps.
  unfoldable pub capped : ℤ → D → Engine D → ℤ
  unfolding shares
  capped quantity price e =
      let max_by_pct = get_total_value e.broker * e.settings.sizer.max_position_pct / dec 100 in
      min_ℤ
        (min_ℤ (min_ℤ quantity (shares max_by_pct price))
          (shares e.settings.sizer.max_position_krw price))
        (shares e.broker.cash price)

  unfoldable pub risk_check : String → ℤ → D → Engine D → Bool × ℤ
  risk_check symbol quantity price e =
      if leb_ℤ e.settings.max_portfolio_positions (pos (length e.positions))
      then (false, pos 0)
      else if leb_ℤ e.settings.max_daily_trades (pos e.daily_trade_count)
      then (false, pos 0)
      else if has symbol e.positions
      then (false, pos 0)
      else if leb_ℤ (capped quantity price e) (pos 0)
      then (false, pos 0)
      else (true, capped quantity price e)

  abbrev pub entry_order : String → ℤ → OrderRequest D
  entry_order symbol quantity = record {
    account_id = "default";
    symbol = symbol;
    side = OrderSide.buy;
    order_type = OrderType.market;
    quantity = quantity;
    price = none;
    reason = "backtest_entry";
  }

  -- `result.filled_price or open_price`: a price of zero is no price.
  abbrev pub fill_price_or : D → Option D → D
  fill_price_or open_price none = open_price
  fill_price_or open_price (some price) = if eq price (dec 0) then open_price else price

  -- `none` where the conversion raises, here and for the days.
  abbrev pub trailing_of : StrategyType → BacktestParameters D → Option (Option D)
  trailing_of StrategyType.position params = elim (given (some (dec 5)) params.trailing_stop_pct) [
    | none ↦ none
    | some pct ↦ some (some pct)
  ]
  trailing_of StrategyType.swing params = some none

  abbrev pub holding_days_of : StrategyType → BacktestParameters D → Option ℤ
  holding_days_of StrategyType.position params = given (some (pos 60)) params.max_holding_days
  holding_days_of StrategyType.swing params = given (some (pos 10)) params.max_holding_days

  -- What a new position takes from the parameters; the trailing stop is read first.
  abbrev pub exit_rules_of : BacktestConfig D → Option (Option D × ℤ)
  exit_rules_of config = elim (trailing_of config.strategy_type config.parameters) [
    | none ↦ none
    | some trailing ↦ elim (holding_days_of config.strategy_type config.parameters) [
      | none ↦ none
      | some days ↦ some (trailing, days)
    ]
  ]

  -- The record of a new position. It never meets a database, so its account stays unset.
  unfoldable pub entered :
      ℕ → BacktestConfig D → Signal D → ℤ → D → Option D × ℤ → ℕ → PositionRecord D
  entered today config signal quantity price (trailing, days) id = record {
    id = id;
    account_id = "";
    symbol = signal.symbol;
    strategy_type = config.strategy_type;
    quantity = quantity;
    avg_cost = price;
    entry_price = price;
    entry_date = today;
    stop_loss_price = given (dec 0) signal.stop_loss_price;
    take_profit_price = signal.target_price;
    trailing_stop_pct = trailing;
    max_holding_days = some days;
    status = RecordStatus.opened;
    exit_price = none;
    exit_date = none;
    exit_reason = none;
    realized_pnl = none;
    entry_session_id = none;
    exit_session_id = none;
  }

  -- What follows an accepted order, once the parameters are read.
  unfoldable pub record_entry :
      ℕ → BacktestConfig D → Signal D → ℤ → D → OrderResult D → Option D × ℤ → Engine D → Engine D
  unfolding entered
  record_entry today config signal quantity open_price result rules e =
      let price = fill_price_or open_price result.filled_price in
      let id = suc e.position_id_counter in
      record e {
        position_id_counter = id;
        positions =
            insert signal.symbol (entered today config signal quantity price rules id) e.positions;
        highest_prices = insert signal.symbol price e.highest_prices;
        daily_trade_count = suc e.daily_trade_count;
        trades =
            e.trades
            ++ (record {
              symbol = signal.symbol;
              side = OrderSide.buy;
              quantity = quantity;
              price = price;
              commission = result.commission;
              slippage = abs (price - open_price) * of_int quantity;
              trade_date = today;
              pnl = none;
              exit_reason = none;
            }
                ∷ []);
      }

  -- With what the parameters say.
  unfoldable pub record_read :
      ℕ
      → BacktestConfig D
      → Signal D
      → ℤ
      → D
      → OrderResult D
      → Option (Option D × ℤ)
      → Act D (Unit {0})
  unfolding record_entry
  record_read today config signal quantity open_price result none = raise invalid_parameter
  record_read today config signal quantity open_price result (some rules) =
      modify (record_entry today config signal quantity open_price result rules)

  unfoldable pub record_result :
      ℕ → BacktestConfig D → Signal D → ℤ → D → Option (OrderResult D) → Act D (Unit {0})
  unfolding record_read
  record_result today config signal quantity open_price none = pure tt
  record_result today config signal quantity open_price (some result) =
      record_read today config signal quantity open_price result (exit_rules_of config)

  -- The `try` around the order, and what follows it: an order that is refused is skipped. A parameter
  -- that does not convert raises once the order is filled, outside the `try`.
  unfoldable pub after_order :
      ℕ → BacktestConfig D → Signal D → ℤ → D → Act D (OrderResult D) → Act D (Unit {0})
  unfolding record_result
  after_order today config signal quantity open_price placed = do
    result ← catching (placed >>= λ r. pure (some r)) (pure none)
    record_result today config signal quantity open_price result

  -- With what the risk check says.
  unfoldable pub enter : ℕ → BacktestConfig D → Signal D → D → Bool × ℤ → Act D (Unit {0})
  unfolding after_order
  enter today config signal open_price (false, quantity) = pure tt
  enter today config signal open_price (true, quantity) =
      after_order today config signal quantity open_price
        (on_broker (place_order (entry_order signal.symbol quantity)))

  unfoldable pub enter_at : ℕ → BacktestConfig D → Signal D → D → Act D (Unit {0})
  unfolding enter
  enter_at today config signal open_price = do
    checked ← gets (risk_check signal.symbol signal.quantity open_price)
    enter today config signal open_price checked

  -- One round of the loop, by the signal's action.
  unfoldable pub execute_action : ℕ → BacktestConfig D → Signal D → SignalAction → Act D (Unit {0})
  execute_action today config signal SignalAction.sell = pure tt
  execute_action today config signal SignalAction.hold = pure tt
  execute_action today config signal SignalAction.buy = do
    held ← gets (λ e. has signal.symbol e.positions)
    price ← gets (λ e. get_open_price e.data_loader signal.symbol today)
    elim price [
      | none ↦ pure tt
      | some open_price ↦ elim held [
        | true ↦ pure tt
        | false ↦ enter_at today config signal open_price
      ]
    ]

  unfoldable pub execute_signal : ℕ → BacktestConfig D → Signal D → Act D (Unit {0})
  unfolding execute_action
  execute_signal today config signal = execute_action today config signal signal.action

  unfoldable pub execute_pending_signals : ℕ → BacktestConfig D → Act D (Unit {0})
  unfolding for_each
  execute_pending_signals today config = do
    signals ← gets (λ e. e.pending_signals)
    modify (λ e. record e { pending_signals = [] })
    for_each signals (execute_signal today config)

  -- The gain of the open positions at the day's close, from the left.
  unfoldable pub unrealized : Loader D → ℕ → D → List (PositionRecord D) → D
  unrealized loader today total [] = total
  unrealized loader today total (p ∷ ps) = elim (get_close_price loader p.symbol today) [
    | none ↦ unrealized loader today total ps
    | some close ↦ unrealized loader today (total + (close - p.avg_cost) * of_int p.quantity) ps
  ]

  unfoldable pub drawdown_of : D → D → D
  drawdown_of peak total_value =
      if lt (dec 0) peak then quantize 2 ((peak - total_value) / peak * dec 100) else dec 0

  unfoldable pub record_snapshot : ℕ → Engine D → Engine D
  unfolding drawdown_of
  record_snapshot today e =
      let total_value = get_total_value e.broker in
      let peak = max e.peak_value total_value in
      let id = suc e.snapshot_id_counter in
      record e {
        peak_value = peak;
        snapshot_id_counter = id;
        snapshots =
            e.snapshots
            ++ (record {
              id = id;
              snapshot_date = today;
              total_value = total_value;
              cash = e.broker.cash;
              invested = total_value - e.broker.cash;
              unrealized_pnl = unrealized e.data_loader today (dec 0) (values e.positions);
              realized_pnl_daily = e.daily_realized_pnl;
              peak_value = peak;
              drawdown_pct = drawdown_of peak total_value;
              positions_count = length e.positions;
              trade_count_daily = e.daily_trade_count;
            }
                ∷ []);
      }
