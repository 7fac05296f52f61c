-- ===== src/Backtest/Simulator/Books.antt =====
-- What an order does to the broker's cash and to its list of orders.
use stock_trading_agent.Base.{suc, ◌≡◌, arith, some, [], ◌∷◌, ◌++◌}
use stock_trading_agent.Base.Effects.{ok, err}
use stock_trading_agent.Decimal.{Decimal, ◌+◌, ◌-◌, ◌*◌, of_int}
use stock_trading_agent.Core.Enums.{OrderSide, OrderStatus}
use stock_trading_agent.Core.Models.{OrderRequest, OrderResult}
use stock_trading_agent.Backtest.Simulator.State.{Simulator, BrokerError}
use stock_trading_agent.Backtest.Simulator.Orders.{
  calculate_commission, execute, place_order, place_on,
}

module _ {D : Type 0} ⦃d : Decimal D⦄ where
  -- A refused order changes nothing at all.
  pub place_order_atomic :
      (order : OrderRequest D) (s : Simulator D) {e : BrokerError}
      → (place_order order s).0 ≡ err e
      → (place_order order s).1 ≡ s
  unfolding place_order place_on
  place_order_atomic order s h = ground arith

  -- What an order of each side takes out of the cash, or pays into it.
  abbrev pub cash_after : OrderSide → D → D → D → D
  cash_after OrderSide.buy cash amount commission = cash - (amount + commission)
  cash_after OrderSide.sell cash amount commission = cash + (amount - commission)

  -- The result reports the order as filled in full at one price, with the commission on that
  -- amount; the cash moves by exactly that; and the order is the last in the list of orders.
  abbrev pub Settles : OrderRequest D → Simulator D → OrderResult D → Simulator D → Type 0
  Settles order s r s' =
      (r.status ≡ OrderStatus.filled)
      × (r.filled_quantity ≡ order.quantity)
      × (r.filled_price ≡ some r.price)
      × (r.commission ≡ calculate_commission s order.side (r.price * of_int order.quantity))
      × (s'.cash ≡ cash_after order.side s.cash (r.price * of_int order.quantity) r.commission)
      × (s'.orders ≡ s.orders ++ (r ∷ []))
      × (r.order_id ≡ suc s.order_counter)
      × (s'.order_counter ≡ suc s.order_counter)

  -- The rest of the state after an accepted order is that of its execution.
  pub place_order-execute :
      (order : OrderRequest D) (s : Simulator D) {r : OrderResult D}
      → (place_order order s).0 ≡ ok r
      → let (x, s') = execute order.side order r.timestamp.day r.price r.commission s in
        (x ≡ ok tt)
        × ((place_order order s).1.positions ≡ s'.positions)
        × ((place_order order s).1.realized_pnl ≡ s'.realized_pnl)
  unfolding place_order place_on
  place_order-execute order s h = ground arith

  -- An accepted order is reported as filled in full at one price, with the commission on the amount;
  -- the cash falls by a purchase's amount and commission, or rises by a sale's amount less its
  -- commission; and the result is appended to the orders under the next number.
  pub place_order-Settles :
      (order : OrderRequest D) (s : Simulator D) {r : OrderResult D}
      → (place_order order s).0 ≡ ok r
      → Settles order s r (place_order order s).1
  unfolding place_order place_on
  place_order-Settles order s h = ground arith
