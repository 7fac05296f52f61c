-- ===== src/Broker/Mock.antt =====
-- `InMemoryBroker` (src/broker/mock/client.py): orders are filled at once at a stored price, without
-- slippage or commission. `now` stands for the clock.
pub mod Market
pub mod Requests
pub mod Cancels
use stock_trading_agent.Base.{
  ℕ, zero, suc, ◌-◌ as ◌∸◌, Bool, true, false, not, Option, none, some, List, [], ◌∷◌, ◌==◌, length,
  if◌then◌else◌, keep, String,
}
use stock_trading_agent.Base.Int.{pos, ◌+ℤ◌, ltb_ℤ}
use stock_trading_agent.Base.Dict.{Dict, lookup, insert, values}
use stock_trading_agent.Base.Effects.{Method, pure, gets, or_raise, ◌>>=◌, ◌>>◌, raise_if, modify}
use stock_trading_agent.Decimal.{Decimal, ◌+◌, ◌-◌, ◌*◌, ◌/◌, of_int, dec, lt}
use stock_trading_agent.Core.Enums.{
  OrderSide, OrderType, OrderStatus, PositionStatus, is_cancellable,
}
use stock_trading_agent.Core.Models.{
  DateTime, StockInfo, PriceInfo, Ohlcv, OrderRequest, OrderResult, Position, AccountBalance,
}
use stock_trading_agent.Backtest.Simulator.State.{
  BrokerError, insufficient_funds, no_price_data, limit_without_price, no_position,
  insufficient_quantity, pnl_percent, holding, sold,
}
use stock_trading_agent.Backtest.Simulator.Market.{is_open, add_up}

-- The dict of the orders, whose keys are the numbers in the identifiers.
abbrev pub OrderDict : Type 0 → Type 0
OrderDict D = List (ℕ × OrderResult D)

pub record InMemoryBroker (D : Type 0) : Type 0 where
  pub stocks : Dict (StockInfo D)
  pub prices : Dict (PriceInfo D)
  pub ohlcv_data : Dict (List (Ohlcv D))
  pub positions : Dict (Position D)
  pub orders : OrderDict D
  pub cash : D
  pub order_counter : ℕ
  pub realized_pnl : D
  pub connected : Bool

abbrev pub Request : Type 0 → Type 0 → Type 0
Request D A = Method (InMemoryBroker D) BrokerError A

module _ {D : Type 0} where
  unfoldable pub order_of : ℕ → OrderDict D → Option (OrderResult D)
  order_of id [] = none
  order_of id ((k, r) ∷ os) = if k == id then some r else order_of id os

  -- `self._orders[order_id] = result`
  unfoldable pub put_order : ℕ → OrderResult D → OrderDict D → OrderDict D
  put_order id result [] = (id, result) ∷ []
  put_order id result ((k, r) ∷ os) =
      let rest = put_order id result os in if k == id then (k, result) ∷ os else (k, r) ∷ rest

  unfoldable pub connect : Request D (Unit {0})
  connect = modify (λ s. record s { connected = true })

  unfoldable pub disconnect : Request D (Unit {0})
  disconnect = modify (λ s. record s { connected = false })

  unfoldable pub next_order_id : Request D ℕ
  next_order_id s =
      let s' = record s { order_counter = suc s.order_counter } in pure s'.order_counter s'

  unfoldable pub base_price_of : OrderType → OrderRequest D → Request D D
  base_price_of OrderType.market order = do
    known ← gets (λ s. lookup order.symbol s.prices)
    price ← or_raise known no_price_data
    pure price.current_price
  base_price_of OrderType.limit order = or_raise order.price limit_without_price

  unfoldable pub get_fill_price : OrderRequest D → Request D D
  unfolding base_price_of
  get_fill_price order = base_price_of order.order_type order

  -- An order that is pending or submitted is marked as cancelled.
  unfoldable pub cancel_order : ℕ → Request D Bool
  unfolding order_of put_order
  cancel_order id s = elim (order_of id s.orders) [
    | none ↦ pure false s
    | some existing ↦
        if not (is_cancellable existing.status)
        then pure false s
        else pure true (record s {
          orders = put_order id (record existing { status = OrderStatus.cancelled }) s.orders;
        })
  ]

module _ {D : Type 0} ⦃d : Decimal D⦄ where
  unfoldable pub new_broker :
      D
      → Dict (StockInfo D)
      → Dict (PriceInfo D)
      → Dict (List (Ohlcv D))
      → Dict (Position D)
      → InMemoryBroker D
  new_broker initial_cash stocks prices ohlcv_data positions = record {
    stocks = stocks;
    prices = prices;
    ohlcv_data = ohlcv_data;
    positions = positions;
    orders = [];
    cash = initial_cash;
    order_counter = 0;
    realized_pnl = dec 0;
    connected = false;
  }

  -- The position after a buy: averaged into the one that is held, or new.
  unfoldable pub bought : DateTime → OrderRequest D → D → D → Option (Position D) → Position D
  unfolding pnl_percent
  bought now order fill_price total_cost (some existing) =
      let old_total = existing.average_cost * of_int existing.quantity in
      let new_qty = existing.quantity +ℤ order.quantity in
      let new_avg = (old_total + total_cost) / of_int new_qty in
      let market_value = fill_price * of_int new_qty in
      record existing {
        quantity = new_qty;
        average_cost = new_avg;
        current_price = fill_price;
        market_value = market_value;
        unrealized_pnl = market_value - new_avg * of_int new_qty;
        unrealized_pnl_pct = pnl_percent fill_price new_avg;
        status = PositionStatus.opened;
      }
  bought now order fill_price total_cost none = record {
    symbol = order.symbol;
    quantity = order.quantity;
    average_cost = fill_price;
    current_price = fill_price;
    market_value = fill_price * of_int order.quantity;
    unrealized_pnl = dec 0;
    unrealized_pnl_pct = dec 0;
    status = PositionStatus.opened;
    entry_date = now;
  }

  unfoldable pub execute_buy : OrderRequest D → DateTime → D → D → Request D (Unit {0})
  execute_buy order now fill_price total_cost = do
    cash ← gets (λ s. s.cash)
    raise_if (lt cash total_cost) insufficient_funds
    modify (λ s. record s { cash = s.cash - total_cost })
    modify (λ s. record s {
      positions =
          insert order.symbol
            (bought now order fill_price total_cost (holding order.symbol s.positions)) s.positions;
    })

  -- The position after a sale is computed as the back-test's broker does.
  unfoldable pub execute_sell : OrderRequest D → D → Request D (Unit {0})
  execute_sell order fill_price = do
    held ← gets (λ s. holding order.symbol s.positions)
    existing ← or_raise held no_position
    raise_if (ltb_ℤ existing.quantity order.quantity) insufficient_quantity
    modify (λ s. record s {
      realized_pnl = s.realized_pnl + (fill_price - existing.average_cost) * of_int order.quantity;
    })
    modify (λ s. record s { cash = s.cash + fill_price * of_int order.quantity })
    modify (λ s. record s {
      positions = insert order.symbol (sold order fill_price existing) s.positions;
    })

  unfoldable pub execute : OrderSide → OrderRequest D → DateTime → D → Request D (Unit {0})
  unfolding execute_buy execute_sell
  execute OrderSide.buy order now fill_price =
      execute_buy order now fill_price (fill_price * of_int order.quantity)
  execute OrderSide.sell order now fill_price = execute_sell order fill_price

  unfoldable pub filled_result : OrderRequest D → DateTime → D → ℕ → OrderResult D
  filled_result order now fill_price order_id = record {
    order_id = order_id;
    symbol = order.symbol;
    side = order.side;
    order_type = order.order_type;
    quantity = order.quantity;
    price = fill_price;
    status = OrderStatus.filled;
    filled_quantity = order.quantity;
    filled_price = some fill_price;
    commission = dec 0;
    timestamp = now;
  }

  -- `place_order` with its number taken, which an order that is then refused has used up.
  unfoldable pub fill_as : OrderRequest D → DateTime → D → ℕ → Request D (OrderResult D)
  unfolding execute filled_result put_order
  fill_as order now fill_price order_id = do
    execute order.side order now fill_price
    let result = filled_result order now fill_price order_id
    modify (λ s. record s { orders = put_order order_id result s.orders })
    pure result

  unfoldable pub place_order : OrderRequest D → DateTime → Request D (OrderResult D)
  unfolding get_fill_price next_order_id fill_as
  place_order order now = do
    fill_price ← get_fill_price order
    order_id ← next_order_id
    fill_as order now fill_price order_id
