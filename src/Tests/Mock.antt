-- ===== src/Tests/Mock.antt =====
-- Runs of the in-memory broker with one stored price.
use stock_trading_agent.Base.{false, none, [], ◌∷◌, ◌≡◌, refl}
use stock_trading_agent.Base.Int.{ℤ, pos, ◌*ℤ◌}
use stock_trading_agent.Base.Dict.{lookup}
use stock_trading_agent.Base.Effects.{ok, err}
use stock_trading_agent.Decimal.Won.{won}
use stock_trading_agent.Core.Enums.{OrderSide, OrderType}
use stock_trading_agent.Core.Models.{PriceInfo, OrderRequest, OrderResult}
use stock_trading_agent.Backtest.Simulator.State.{BrokerError, krx_open, krx_close}
use stock_trading_agent.Broker.Mock.{
  InMemoryBroker, new_broker, place_order, cancel_order, filled_result,
}
use stock_trading_agent.Broker.Mock.Cancels.{
  Step, Reach, Recorded, place_order-Recorded, reachable-cancel_order,
}

abbrev price : PriceInfo ℤ
price = record {
  symbol = "005930";
  current_price = pos 100;
  previous_close = pos 90;
  change_price = pos 10;
  change_percent = pos 11;
  high = pos 110;
  low = pos 90;
  volume = pos 5;
  timestamp = krx_close 1;
}

abbrev fresh : InMemoryBroker ℤ
fresh = new_broker (pos 1000) [] (("005930", price) ∷ []) [] []

abbrev buying : ℤ → OrderRequest ℤ
buying quantity = record {
  account_id = "default";
  symbol = "005930";
  side = OrderSide.buy;
  order_type = OrderType.market;
  quantity = quantity;
  price = none;
  reason = "";
}

abbrev three_bought : OrderResult ℤ
three_bought = filled_result (buying (pos 3)) (krx_open 2) (pos 100) 1

bought_three : (place_order (buying (pos 3)) (krx_open 2) fresh).0 ≡ ok three_bought
unfolding place_order new_broker lookup ◌*ℤ◌
bought_three = refl

place_order-Recorded_example :
    Recorded fresh three_bought (place_order (buying (pos 3)) (krx_open 2) fresh).1
place_order-Recorded_example = place_order-Recorded (buying (pos 3)) (krx_open 2) fresh bought_three

-- Thirty shares cost more than there is.
thirty_refused :
    (place_order (buying (pos 30)) (krx_open 2) fresh).0 ≡ err BrokerError.insufficient_funds
unfolding place_order new_broker lookup ◌*ℤ◌
thirty_refused = refl

abbrev later : InMemoryBroker ℤ
later =
    (place_order (buying (pos 3)) (krx_open 2)
      (place_order (buying (pos 30)) (krx_open 2) fresh).1).1

to_later : Reach fresh later
to_later =
    Reach.next (Reach.next Reach.here (Step.placed (buying (pos 30)) (krx_open 2)))
      (Step.placed (buying (pos 3)) (krx_open 2))

reachable-cancel_order_example : cancel_order 2 later ≡ (ok false, later)
reachable-cancel_order_example =
    reachable-cancel_order (pos 1000) [] (("005930", price) ∷ []) [] [] 2 to_later
