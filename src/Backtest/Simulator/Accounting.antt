-- ===== src/Backtest/Simulator/Accounting.antt =====
-- The accounting identity: an order costs the account its commission and nothing else.
use stock_trading_agent.Base.{◌≡◌, ap, ℕ}
use stock_trading_agent.Base.Dict.{insert}
use stock_trading_agent.Base.Effects.{ok}
use stock_trading_agent.Decimal.{Decimal, ◌+◌, ◌*◌, of_int}
use stock_trading_agent.Decimal.Laws.{IsExact}
use stock_trading_agent.Decimal.Algebra.{buy_balance, sell_balance}
use stock_trading_agent.Core.Enums.{OrderSide}
use stock_trading_agent.Core.Models.{OrderRequest, OrderResult}
use stock_trading_agent.Backtest.Simulator.State.{Simulator, sold}
use stock_trading_agent.Backtest.Simulator.Orders.{place_order, execute}
use stock_trading_agent.Backtest.Simulator.Books.{place_order-execute}
use stock_trading_agent.Backtest.Simulator.Holdings.{AllSound}
use stock_trading_agent.Backtest.Simulator.Basis.{
  cost_value, Books, execute_buy-fields, execute_sell-fields, place_order-cash, cost_value-bought,
  cost_value-sold, AveragesExactly,
}

module _ {D : Type 0} ⦃d : Decimal D⦄ (laws : IsExact D) where
  -- The two executions cost the account the fee, up to the gain that is booked.
  execute_buy-Books :
      (order : OrderRequest D) (day : ℕ) (price fee : D) (s : Simulator D)
      → AllSound s
      → AveragesExactly laws order price s.positions
      → (execute OrderSide.buy order day price fee s).0 ≡ ok tt
      → Books s (execute OrderSide.buy order day price fee s).1 fee
  execute_buy-Books order day price fee s h exact e =
      let fields = execute_buy-fields order day price fee s e in
      rw (fields.0, fields.1, fields.2, cost_value-bought laws day order price s.positions h exact)
        (ap (λ t. t + s.realized_pnl)
          (buy_balance laws s.cash (cost_value s.positions) (price * of_int order.quantity) fee))

  execute_sell-Books :
      (order : OrderRequest D) (day : ℕ) (price fee : D) (s : Simulator D)
      → (execute OrderSide.sell order day price fee s).0 ≡ ok tt
      → Books s (execute OrderSide.sell order day price fee s).1 fee
  execute_sell-Books order day price fee s e =
      let fields = execute_sell-fields order day price fee s e in
      let p = fields.0 in
      let rest = cost_value (insert order.symbol (sold order price p) s.positions) in
      let quantity : D = of_int order.quantity in
      rw
        (
          fields.2,
          fields.3,
          fields.4,
          laws.minus-times price p.average_cost quantity,
          ← cost_value-sold laws order price p s.positions (fields.1),
        )
        (sell_balance laws s.cash rest (p.average_cost * quantity) (price * quantity) fee
          s.realized_pnl)

  execute-Books :
      (side : OrderSide) (order : OrderRequest D) (day : ℕ) (price fee : D) (s : Simulator D)
      → AllSound s
      → AveragesExactly laws order price s.positions
      → (execute side order day price fee s).0 ≡ ok tt
      → Books s (execute side order day price fee s).1 fee
  execute-Books OrderSide.buy order day price fee s h exact e =
      execute_buy-Books order day price fee s h exact e
  execute-Books OrderSide.sell order day price fee s h exact e =
      execute_sell-Books order day price fee s e

  -- With exact arithmetic, sound positions and an average price that loses nothing of the total,
  -- an accepted order leaves cash and cost together lower by exactly its commission, up to the
  -- gain that the broker books as realized.
  pub place_order-Books :
      (order : OrderRequest D) (s : Simulator D) {r : OrderResult D}
      → AllSound s
      → (place_order order s).0 ≡ ok r
      → AveragesExactly laws order r.price s.positions
      → Books s (place_order order s).1 r.commission
  place_order-Books order s {r} h e exact =
      let through = place_order-execute order s e in
      let run = execute order.side order r.timestamp.day r.price r.commission s in
      let cash : (place_order order s).1.cash ≡ run.1.cash = place_order-cash order s e in
      rw (cash, through.1, through.2)
        (execute-Books order.side order r.timestamp.day r.price r.commission s h exact through.0)
