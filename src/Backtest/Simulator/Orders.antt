-- ===== src/Backtest/Simulator/Orders.antt =====
-- `place_order` and what it calls: the fill price, slippage, commission, and the two executions.
use stock_trading_agent.Base.{ℕ, suc, Bool, false, some, [], ◌∷◌, ◌++◌}
use stock_trading_agent.Base.Int.{ltb_ℤ}
use stock_trading_agent.Base.Dict.{insert}
use stock_trading_agent.Base.Effects.{Method, pure, gets, or_raise, ◌>>=◌, ◌>>◌, raise_if, modify}
use stock_trading_agent.Decimal.{Decimal, ◌+◌, ◌-◌, ◌*◌, ◌/◌, of_int, dec, lt, quantize}
use stock_trading_agent.Core.Enums.{OrderSide, OrderType, OrderStatus}
use stock_trading_agent.Core.Models.{OrderRequest, OrderResult}
use stock_trading_agent.Backtest.Loader.{get_open_price}
use stock_trading_agent.Backtest.Simulator.State.{
  BrokerError, insufficient_funds, no_price_data, limit_without_price, no_position,
  insufficient_quantity, date_not_set, Simulator, krx_open, holding, bought, sold,
}

abbrev pub Call : Type 0 → Type 0 → Type 0
Call D A = Method (Simulator D) BrokerError A

module _ {D : Type 0} ⦃d : Decimal D⦄ where
  unfoldable pub slipped : OrderSide → D → D → D
  slipped OrderSide.buy base_price rate = base_price * (dec 1 + rate)
  slipped OrderSide.sell base_price rate = base_price * (dec 1 - rate)

  unfoldable pub calculate_slippage : Simulator D → OrderSide → D → D
  unfolding slipped
  calculate_slippage s side base_price =
      quantize 0 (slipped side base_price (of_int s.slippage_bps / dec 10000))

  unfoldable pub commission_rate : Simulator D → OrderSide → D
  commission_rate s OrderSide.buy = s.commission_buy_rate
  commission_rate s OrderSide.sell = s.commission_sell_rate

  unfoldable pub calculate_commission : Simulator D → OrderSide → D → D
  unfolding commission_rate
  calculate_commission s side amount = quantize 0 (amount * commission_rate s side)

  -- The date that `_ensure_date_set` asks for.
  unfoldable pub ensure_date_set : Call D ℕ
  ensure_date_set = do day ← gets (λ s. s.current_date); or_raise day date_not_set

  unfoldable pub base_price_of : OrderType → OrderRequest D → ℕ → Call D D
  base_price_of OrderType.market order day = do
    opening ← gets (λ s. get_open_price s.data_loader order.symbol day)
    or_raise opening no_price_data
  base_price_of OrderType.limit order day = or_raise order.price limit_without_price

  unfoldable pub get_fill_price : OrderRequest D → ℕ → Call D D
  unfolding base_price_of
  get_fill_price order day = base_price_of order.order_type order day

  -- Slippage is for market orders alone.
  unfoldable pub slip : OrderType → OrderRequest D → D → Simulator D → D
  slip OrderType.market order base_price s = calculate_slippage s order.side base_price
  slip OrderType.limit order base_price s = base_price

  unfoldable pub execute_buy : OrderRequest D → ℕ → D → D → Call D (Unit {0})
  execute_buy order day fill_price commission = do
    let total_cost = fill_price * of_int order.quantity + commission
    cash ← gets (λ s. s.cash)
    raise_if (lt cash total_cost) insufficient_funds
    modify (λ s. record s { cash = s.cash - total_cost })
    modify (λ s. record s {
      positions =
          insert order.symbol (bought day order fill_price (holding order.symbol s.positions))
            s.positions;
    })

  unfoldable pub execute_sell : OrderRequest D → D → D → Call D (Unit {0})
  execute_sell order fill_price commission = do
    held ← gets (λ s. holding order.symbol s.positions)
    existing ← or_raise held no_position
    raise_if (ltb_ℤ existing.quantity order.quantity) insufficient_quantity
    modify (λ s. record s {
      realized_pnl = s.realized_pnl + (fill_price - existing.average_cost) * of_int order.quantity;
    })
    modify (λ s. record s { cash = s.cash + (fill_price * of_int order.quantity - commission) })
    modify (λ s. record s {
      positions = insert order.symbol (sold order fill_price existing) s.positions;
    })

  unfoldable pub execute : OrderSide → OrderRequest D → ℕ → D → D → Call D (Unit {0})
  unfolding execute_buy execute_sell
  execute OrderSide.buy order day fill_price commission =
      execute_buy order day fill_price commission
  execute OrderSide.sell order day fill_price commission = execute_sell order fill_price commission

  unfoldable pub next_order_id : Call D ℕ
  next_order_id s =
      let s' = record s { order_counter = suc s.order_counter } in pure s'.order_counter s'

  -- The end of `place_order`: number the result and append it to the orders.
  unfoldable pub record_order : OrderRequest D → ℕ → D → D → Call D (OrderResult D)
  unfolding next_order_id
  record_order order day fill_price commission = do
    id ← next_order_id
    let result : OrderResult D = record {
      order_id = id;
      symbol = order.symbol;
      side = order.side;
      order_type = order.order_type;
      quantity = order.quantity;
      price = fill_price;
      status = OrderStatus.filled;
      filled_quantity = order.quantity;
      filled_price = some fill_price;
      commission = commission;
      timestamp = krx_open day;
    }
    modify (λ s. record s { orders = s.orders ++ (result ∷ []) })
    pure result

  unfoldable pub fill_at : OrderRequest D → ℕ → D → D → Call D (OrderResult D)
  unfolding execute record_order
  fill_at order day fill_price commission = do
    execute order.side order day fill_price commission
    record_order order day fill_price commission

  -- `place_order` from the slippage on.
  unfoldable pub fill : OrderRequest D → ℕ → D → Call D (OrderResult D)
  unfolding slip fill_at
  fill order day base_price = do
    fill_price ← gets (slip order.order_type order base_price)
    let trade_amount = fill_price * of_int order.quantity
    commission ← gets (λ s. calculate_commission s order.side trade_amount)
    fill_at order day fill_price commission

  -- `place_order` on a known date.
  unfoldable pub place_on : OrderRequest D → ℕ → Call D (OrderResult D)
  unfolding get_fill_price fill
  place_on order day = do base_price ← get_fill_price order day; fill order day base_price

  unfoldable pub place_order : OrderRequest D → Call D (OrderResult D)
  unfolding ensure_date_set
  place_order order = do day ← ensure_date_set; place_on order day

  -- Orders are filled at once, so there is nothing to cancel.
  unfoldable pub cancel_order : ℕ → Call D Bool
  cancel_order order_id = pure false
