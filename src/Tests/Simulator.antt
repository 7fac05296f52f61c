-- ===== src/Tests/Simulator.antt =====
-- Runs of the back-test broker over three days of one symbol.
use stock_trading_agent.Base.{ℕ, none, some, [], ◌∷◌, ◌≡◌, refl, ◌↔◌, arith}
use mathlib.Core.Path.{subst}
use stock_trading_agent.Base.Bisect.{get_elem?}
use stock_trading_agent.Base.Int.{ℤ, pos, ◌+ℤ◌, ◌-ℤ◌, ◌*ℤ◌}
use stock_trading_agent.Base.Dict.{lookup, insert}
use stock_trading_agent.Base.Effects.{ok, err}
use stock_trading_agent.Decimal.{◌≤◌}
use stock_trading_agent.Decimal.Won.{won, quot, Won-IsOrdered, Won-IsExact}
use stock_trading_agent.Core.Enums.{OrderSide, OrderType, OrderStatus, PositionStatus}
use stock_trading_agent.Core.Models.{Ohlcv, OrderRequest, OrderResult, Position}
use stock_trading_agent.Backtest.Loader.{Loader, get_open_price, get_close_price}
use stock_trading_agent.Backtest.Simulator.State.{Simulator, BrokerError, krx_open, holding, bought}
use stock_trading_agent.Backtest.Simulator.Orders.{
  place_order, place_on, calculate_commission, calculate_slippage,
}
use stock_trading_agent.Backtest.Simulator.Market.{
  new_simulator, set_current_date, valued, date_index, get_daily_ohlcv,
}
use stock_trading_agent.Backtest.Simulator.Books.{place_order_atomic, place_order-Settles, Settles}
use stock_trading_agent.Backtest.Simulator.Solvency.{IsSolvent, place_order-IsSolvent}
use stock_trading_agent.Backtest.Simulator.Holdings.{AllSound}
use stock_trading_agent.Backtest.Simulator.Moves.{Moves, place_order-Moves}
use stock_trading_agent.Backtest.Simulator.Sessions.{
  Step, Reach, IsConsistent, reachable-IsConsistent,
}
use stock_trading_agent.Backtest.Simulator.History.{blind_after}
use stock_trading_agent.Backtest.Simulator.Lookahead.{place_order-blind, get_daily_ohlcv-blind}
use stock_trading_agent.Backtest.Simulator.Dates.{Increasing, date_index_iff}
use stock_trading_agent.Backtest.Simulator.Basis.{AveragesExactly, Books}
use stock_trading_agent.Backtest.Simulator.Accounting.{place_order-Books}

abbrev row : ℕ → ℤ → ℤ → Ohlcv ℤ
row day opening closing = record {
  symbol = "005930";
  date = day;
  opening = opening;
  high = closing;
  low = opening;
  closing = closing;
  volume = pos 10;
}

abbrev pub loader : Loader ℤ
loader = record {
  frames =
      (
        "005930",
        row 1 (pos 100) (pos 110) ∷ row 2 (pos 120) (pos 130) ∷ row 5 (pos 90) (pos 80) ∷ [],
      )
      ∷ [];
  trading_dates = 1 ∷ 2 ∷ 5 ∷ [];
}

-- Buying costs a commission of the whole amount, so that it shows in whole won.
abbrev start : Simulator ℤ
start = new_simulator loader (pos 1000) (pos 0) (pos 100) (pos 0)

abbrev first_day : Simulator ℤ
first_day = (set_current_date 1 start).1

abbrev order : OrderSide → ℤ → OrderRequest ℤ
order side quantity = record {
  account_id = "default";
  symbol = "005930";
  side = side;
  order_type = OrderType.market;
  quantity = quantity;
  price = none;
  reason = "";
}

abbrev purchase : OrderRequest ℤ
purchase = order OrderSide.buy (pos 3)

abbrev too_much : OrderRequest ℤ
too_much = order OrderSide.buy (pos 30)

abbrev filled : OrderResult ℤ
filled = record {
  order_id = 1;
  symbol = "005930";
  side = OrderSide.buy;
  order_type = OrderType.market;
  quantity = pos 3;
  price = pos 100;
  status = OrderStatus.filled;
  filled_quantity = pos 3;
  filled_price = some (pos 100);
  commission = pos 300;
  timestamp = krx_open 1;
}

purchase_accepted : (place_order purchase first_day).0 ≡ ok filled
unfolding place_order place_on new_simulator set_current_date get_open_price ◌+ℤ◌ ◌-ℤ◌ ◌*ℤ◌ quot
    lookup calculate_slippage calculate_commission
purchase_accepted = refl

too_much_refused : (place_order too_much first_day).0 ≡ err BrokerError.insufficient_funds
unfolding place_order place_on new_simulator set_current_date get_open_price ◌+ℤ◌ ◌-ℤ◌ ◌*ℤ◌ quot
    lookup calculate_slippage calculate_commission
too_much_refused = refl

-- The next day, with three shares held.
abbrev second_day : Simulator ℤ
second_day = (set_current_date 2 (place_order purchase first_day).1).1

abbrev sale : OrderRequest ℤ
sale = order OrderSide.sell (pos 2)

abbrev sale_result : OrderResult ℤ
sale_result = record filled {
  order_id = 2;
  side = OrderSide.sell;
  quantity = pos 2;
  price = pos 120;
  filled_quantity = pos 2;
  filled_price = some (pos 120);
  commission = pos 0;
  timestamp = krx_open 2;
}

sale_accepted : (place_order sale second_day).0 ≡ ok sale_result
unfolding place_order place_on new_simulator set_current_date get_open_price ◌+ℤ◌ ◌-ℤ◌ ◌*ℤ◌ quot
    lookup calculate_slippage calculate_commission holding insert valued bought get_close_price
sale_accepted = refl

cash_left : (place_order sale second_day).1.cash ≡ pos 640
unfolding place_order place_on new_simulator set_current_date get_open_price ◌+ℤ◌ ◌-ℤ◌ ◌*ℤ◌ quot
    lookup calculate_slippage calculate_commission holding insert valued bought get_close_price
cash_left = refl

to_second_day : Reach start second_day
to_second_day =
    Reach.next
      (Reach.next (Reach.next Reach.here (Step.new_date 1)) (Step.order purchase (omega arith)))
      (Step.new_date 2)

second_day-AllSound : AllSound second_day
second_day-AllSound =
    (reachable-IsConsistent loader (pos 1000) (pos 0) (pos 100) (pos 0) to_second_day).sound

reachable-IsConsistent_example : IsConsistent second_day
reachable-IsConsistent_example =
    reachable-IsConsistent loader (pos 1000) (pos 0) (pos 100) (pos 0) to_second_day

place_order_atomic_example : (place_order too_much first_day).1 ≡ first_day
place_order_atomic_example = place_order_atomic too_much first_day too_much_refused

place_order-Settles_example : Settles sale second_day sale_result (place_order sale second_day).1
place_order-Settles_example = place_order-Settles sale second_day sale_accepted

cash_on_second_day : IsSolvent second_day
unfolding place_order place_on new_simulator set_current_date get_open_price ◌+ℤ◌ ◌-ℤ◌ ◌*ℤ◌ quot
    lookup calculate_slippage calculate_commission holding insert valued bought get_close_price
cash_on_second_day = refl

sale_covered :
    (r : OrderResult ℤ)
    → (place_order sale second_day).0 ≡ ok r
    → sale.side ≡ OrderSide.sell
    → r.commission ≤ r.price *ℤ sale.quantity
unfolding place_order place_on new_simulator set_current_date get_open_price ◌+ℤ◌ ◌-ℤ◌ ◌*ℤ◌ quot
    lookup calculate_slippage calculate_commission holding insert valued bought get_close_price
sale_covered r e side =
    let accepted = sale_accepted in
    let same : sale_result ≡ r = cc in
    subst (λ r'. r'.commission ≤ r'.price *ℤ sale.quantity) same refl

place_order-IsSolvent_example : IsSolvent (place_order sale second_day).1
place_order-IsSolvent_example =
    place_order-IsSolvent Won-IsOrdered sale second_day sale_covered cash_on_second_day

place_order-Moves_example :
    Moves sale second_day.positions (place_order sale second_day).1.positions
place_order-Moves_example = place_order-Moves sale second_day second_day-AllSound sale_accepted

abbrev held : Position ℤ
held = record {
  symbol = "005930";
  quantity = pos 3;
  average_cost = pos 100;
  current_price = pos 130;
  market_value = pos 390;
  unrealized_pnl = pos 90;
  unrealized_pnl_pct = pos 0;
  status = PositionStatus.opened;
  entry_date = krx_open 1;
}

is_held : holding "005930" second_day.positions ≡ some held
unfolding place_order place_on new_simulator set_current_date get_open_price ◌+ℤ◌ ◌-ℤ◌ ◌*ℤ◌ quot
    lookup calculate_slippage calculate_commission holding insert valued bought get_close_price
is_held = refl

sale_average : AveragesExactly Won-IsExact sale (pos 120) second_day.positions
unfolding place_order place_on new_simulator set_current_date get_open_price ◌+ℤ◌ ◌-ℤ◌ ◌*ℤ◌ quot
    lookup calculate_slippage calculate_commission holding insert valued bought get_close_price
sale_average p e =
    let found = is_held in
    let same : held ≡ p = cc in
    subst
      (λ p'.
        quot (p'.average_cost *ℤ p'.quantity +ℤ pos 240) (p'.quantity +ℤ pos 2)
          *ℤ (p'.quantity +ℤ pos 2)
        ≡ p'.average_cost *ℤ p'.quantity +ℤ pos 240)
      same refl

place_order-Books_example : Books second_day (place_order sale second_day).1 (pos 0)
place_order-Books_example =
    place_order-Books Won-IsExact sale second_day second_day-AllSound sale_accepted sale_average

on_second_day : second_day.current_date ≡ some 2
unfolding place_order place_on new_simulator set_current_date get_open_price ◌+ℤ◌ ◌-ℤ◌ ◌*ℤ◌ quot
    lookup calculate_slippage calculate_commission holding insert valued bought get_close_price
on_second_day = refl

place_order-blind_example :
    place_order sale (blind_after 2 second_day)
    ≡ ((place_order sale second_day).0, blind_after 2 (place_order sale second_day).1)
place_order-blind_example = place_order-blind 2 sale second_day on_second_day

get_daily_ohlcv-blind_example :
    (get_daily_ohlcv "005930" 2 (blind_after 2 second_day)).0
    ≡ (get_daily_ohlcv "005930" 2 second_day).0
get_daily_ohlcv-blind_example = get_daily_ohlcv-blind 2 "005930" 2 second_day on_second_day

in_order : Increasing (1 ∷ 2 ∷ 5 ∷ [])
in_order = ground arith

date_index_iff_example :
    (date_index (1 ∷ 2 ∷ 5 ∷ []) 5 ≡ some 2) ↔ (get_elem? {A = ℕ} (1 ∷ 2 ∷ 5 ∷ []) 2 ≡ some 5)
date_index_iff_example = date_index_iff (1 ∷ 2 ∷ 5 ∷ []) 5 2 in_order
