-- ===== src/Broker/Mock/Cancels.antt =====
-- The record of the orders over whole runs: results are kept, and nothing can be cancelled.
use stock_trading_agent.Base.{
  ℕ, suc, ◌≢◌, ◌≡◌, refl, sym, ap, ◌∙◌, false, some, List, arith, inl, inr, Option-cases,
}
use mathlib.Core.Path.{subst}
use stock_trading_agent.Base.Dict.{Dict}
use stock_trading_agent.Base.Effects.{ok, Outcome-cases}
use stock_trading_agent.Decimal.{Decimal}
use stock_trading_agent.Core.Enums.{OrderStatus}
use stock_trading_agent.Core.Models.{
  DateTime, StockInfo, PriceInfo, Ohlcv, OrderRequest, OrderResult, Position,
}
use stock_trading_agent.Broker.Mock.{
  InMemoryBroker, order_of, connect, disconnect, cancel_order, new_broker, execute, filled_result,
  place_order,
}
use stock_trading_agent.Broker.Mock.Requests.{
  AllFilled, order_of-put_order, order_of-put_order_ne, later-AllFilled, put_order-AllFilled,
  order_of-AllFilled, execute-record, settled, place_order-settled, place_order-refused,
}

module _ {D : Type 0} ⦃d : Decimal D⦄ where
  -- What an accepted order leaves in the record of the orders.
  pub record Recorded (s : InMemoryBroker D) (r : OrderResult D) (s' : InMemoryBroker D)
      : Type 0 where
    pub number : r.order_id ≡ suc s.order_counter
    pub filled : r.status ≡ OrderStatus.filled
    pub stored : order_of r.order_id s'.orders ≡ some r
    pub others : (id : ℕ) → suc s.order_counter ≢ id → order_of id s'.orders ≡ order_of id s.orders

  -- An accepted order is reported as filled, under the next number; it is found under that
  -- number, and the results of all other orders are as they were.
  pub place_order-Recorded :
      (order : OrderRequest D) (now : DateTime) (s : InMemoryBroker D) {r : OrderResult D}
      → (place_order order now s).0 ≡ ok r
      → Recorded s r (place_order order now s).1
  unfolding filled_result
  place_order-Recorded order now s {r} h =
      let (price, run) = place_order-settled order now s r h in
      let next = suc s.order_counter in
      let result = filled_result order now price next in
      let s' = record s { order_counter = next } in
      let same : result ≡ r = cc in
      let kept = (execute-record order.side order now price s').0 in
      let orders = (execute order.side order now price s').1.orders in
      subst (λ x. Recorded s x (place_order order now s).1) same
        (rw run (record {
          number = refl;
          filled = refl;
          stored = order_of-put_order next result orders;
          others = λ id ne. order_of-put_order_ne next id result orders ne ∙ ap (order_of id) kept;
        }))

  settled-AllFilled :
      (order : OrderRequest D) (now : DateTime) (price : D) (s : InMemoryBroker D)
      → AllFilled s
      → AllFilled (settled order now price s)
  unfolding filled_result
  settled-AllFilled order now price s h =
      let next = suc s.order_counter in
      let kept = execute-record order.side order now price (record s { order_counter = next }) in
      rw (kept.0, kept.1)
        (put_order-AllFilled next next (filled_result order now price next) s.orders
          (record { filled = refl; named = refl; given = omega arith })
          (later-AllFilled s.order_counter s.orders h))

  place_order-AllFilled :
      (order : OrderRequest D) (now : DateTime) (s : InMemoryBroker D)
      → AllFilled s
      → AllFilled (place_order order now s).1
  unfolding filled_result
  place_order-AllFilled order now s h = elim (Outcome-cases (place_order order now s).0) [
    | inl (r, e) ↦
        let (price, run) = place_order-settled order now s r e in
        subst (λ o. AllFilled o.1) (sym run) (settled-AllFilled order now price s h)
    | inr (x, e) ↦ elim (place_order-refused order now s e) [
      | inl (gone, same) ↦ rw same h
      | inr (found, same) ↦ rw same (later-AllFilled s.order_counter s.orders h)
    ]
  ]

  cancel_order-AllFilled :
      (id : ℕ) (s : InMemoryBroker D) → AllFilled s → cancel_order id s ≡ (ok false, s)
  unfolding cancel_order
  cancel_order-AllFilled id s h = elim (Option-cases (order_of id s.orders)) [
    | inl e ↦ rw (e, cancel_order)
    | inr (r, e) ↦
        let filled = order_of-AllFilled s.order_counter id s.orders r h e in
        rw (e, filled, cancel_order)
  ]

  -- Calls that change the broker, with what each leaves.
  pub data Step (s : InMemoryBroker D) : InMemoryBroker D → Type 0 where
    placed : (order : OrderRequest D) (now : DateTime) → Step s (place_order order now s).1
    cancelled : (id : ℕ) → Step s (cancel_order id s).1
    connected : Step s (connect s).1
    disconnected : Step s (disconnect s).1

  pub data Reach (s : InMemoryBroker D) : InMemoryBroker D → Type 0 where
    here : Reach s s
    next : {t u : InMemoryBroker D} → Reach s t → Step t u → Reach s u

  Step-AllFilled : {s t : InMemoryBroker D} → Step s t → AllFilled s → AllFilled t
  unfolding connect disconnect
  Step-AllFilled {s} (placed order now) h = place_order-AllFilled order now s h
  Step-AllFilled {s} (cancelled id) h = rw (cancel_order-AllFilled id s h) h
  Step-AllFilled {s} connected h = h
  Step-AllFilled {s} disconnected h = h

  Reach-AllFilled : {s t : InMemoryBroker D} → AllFilled s → Reach s t → AllFilled t
  Reach-AllFilled h here = h
  Reach-AllFilled h (next r step) = Step-AllFilled step (Reach-AllFilled h r)

  -- From a new broker, whatever is called: a cancellation answers `False` and changes nothing.
  pub reachable-cancel_order :
      (initial_cash : D) (stocks : Dict (StockInfo D)) (prices : Dict (PriceInfo D))
      (ohlcv_data : Dict (List (Ohlcv D))) (positions : Dict (Position D)) {s : InMemoryBroker D}
      (id : ℕ)
      → Reach (new_broker initial_cash stocks prices ohlcv_data positions) s
      → cancel_order id s ≡ (ok false, s)
  unfolding new_broker
  reachable-cancel_order initial_cash stocks prices ohlcv_data positions {s} id r =
      cancel_order-AllFilled id s (Reach-AllFilled tt r)
