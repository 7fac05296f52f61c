-- ===== src/Broker/Mock/Requests.antt =====
-- What orders and cancellations do to the record of the orders, over whole runs.
use stock_trading_agent.Base.{
  ℕ, suc, ◌≤◌, ◌≢◌, ◌≡◌, ap, ◌∙◌, true, some, [], ◌∷◌, ◌==◌, arith, ◌⊎◌, inl, inr, Bool-cases,
}
use stock_trading_agent.Base.All.{All}
use stock_trading_agent.Base.Effects.{ok, err, Outcome-cases}
use stock_trading_agent.Decimal.{Decimal}
use stock_trading_agent.Core.Enums.{OrderSide, OrderStatus}
use stock_trading_agent.Core.Models.{DateTime, OrderRequest, OrderResult}
use stock_trading_agent.Backtest.Simulator.State.{BrokerError}
use stock_trading_agent.Broker.Mock.{
  OrderDict, InMemoryBroker, order_of, put_order, get_fill_price, execute, filled_result, fill_as,
  place_order,
}

module _ {D : Type 0} where
  pub order_of-put_order :
      (id : ℕ) (r : OrderResult D) (os : OrderDict D) → order_of id (put_order id r os) ≡ some r
  unfolding order_of put_order
  order_of-put_order id r [] = ground arith
  order_of-put_order id r ((k, x) ∷ os) = let ih = order_of-put_order id r os in ground arith

  pub order_of-put_order_ne :
      (id other : ℕ) (r : OrderResult D) (os : OrderDict D)
      → id ≢ other
      → order_of other (put_order id r os) ≡ order_of other os
  unfolding order_of put_order
  order_of-put_order_ne id other r [] ne = ground arith
  order_of-put_order_ne id other r ((k, x) ∷ os) ne =
      let ih = order_of-put_order_ne id other r os ne in ground arith

  -- An entry of the dict of orders: filled, under its own number, which has been given out.
  pub record IsFilledEntry (last : ℕ) (entry : ℕ × OrderResult D) : Type 0 where
    pub filled : entry.1.status ≡ OrderStatus.filled
    pub named : entry.1.order_id ≡ entry.0
    pub given : entry.0 ≤ last

  abbrev pub AllFilled : InMemoryBroker D → Type 0
  AllFilled s = All (IsFilledEntry s.order_counter) s.orders

  pub later-AllFilled :
      (n : ℕ) (os : OrderDict D) → All (IsFilledEntry n) os → All (IsFilledEntry (suc n)) os
  later-AllFilled n [] h = tt
  later-AllFilled n (o ∷ os) (h, hs) = (
    record { filled = h.filled; named = h.named; given = omega (arith, h.given) },
    later-AllFilled n os hs,
  )

  rekeyed :
      (n id k : ℕ) (r : OrderResult D)
      → IsFilledEntry n (id, r)
      → (k == id) ≡ true
      → IsFilledEntry n (k, r)
  rekeyed n id k r p hit =
      let named = p.named in
      let given = p.given in
      record { filled = p.filled; named = ground arith; given = ground arith }

  pub put_order-AllFilled :
      (n id : ℕ) (r : OrderResult D) (os : OrderDict D)
      → IsFilledEntry n (id, r)
      → All (IsFilledEntry n) os
      → All (IsFilledEntry n) (put_order id r os)
  unfolding put_order
  put_order-AllFilled n id r [] p h = (p, tt)
  put_order-AllFilled n id r ((k, x) ∷ os) p (h, hs) = elim (Bool-cases (k == id)) [
    | inl hit ↦ rw (hit, put_order) (rekeyed n id k r p hit, hs)
    | inr miss ↦ rw (miss, put_order) (h, put_order-AllFilled n id r os p hs)
  ]

  pub order_of-AllFilled :
      (n id : ℕ) (os : OrderDict D) (r : OrderResult D)
      → All (IsFilledEntry n) os
      → order_of id os ≡ some r
      → r.status ≡ OrderStatus.filled
  unfolding order_of
  order_of-AllFilled n id [] r h e = cc
  order_of-AllFilled n id ((k, x) ∷ os) r (h, hs) e =
      let ih = order_of-AllFilled n id os r hs in let here = h.filled in ground arith

module _ {D : Type 0} ⦃d : Decimal D⦄ where
  -- What an execution, successful or not, leaves alone.
  pub execute-record :
      (side : OrderSide) (order : OrderRequest D) (now : DateTime) (price : D)
      (s : InMemoryBroker D)
      → let s' = (execute side order now price s).1 in
        (s'.orders ≡ s.orders) × (s'.order_counter ≡ s.order_counter)
  unfolding execute
  execute-record OrderSide.buy order now price s = ground arith
  execute-record OrderSide.sell order now price s = ground arith

  execute-refused :
      (side : OrderSide) (order : OrderRequest D) (now : DateTime) (price : D)
      (s : InMemoryBroker D) (e : BrokerError)
      → (execute side order now price s).0 ≡ err e
      → (execute side order now price s).1 ≡ s
  unfolding execute
  execute-refused OrderSide.buy order now price s e h = ground arith
  execute-refused OrderSide.sell order now price s e h = ground arith

  get_fill_price-state :
      (order : OrderRequest D) (s : InMemoryBroker D) → (get_fill_price order s).1 ≡ s
  unfolding get_fill_price
  get_fill_price-state order s = ground arith

  priced :
      (order : OrderRequest D) (now : DateTime) (s : InMemoryBroker D) (price : D)
      → (get_fill_price order s).0 ≡ ok price
      → place_order order now s
        ≡ fill_as order now price
            (suc s.order_counter)
            (record s { order_counter = suc s.order_counter })
  unfolding place_order
  priced order now s price found = let kept = get_fill_price-state order s in ground arith

  unpriced :
      (order : OrderRequest D) (now : DateTime) (s : InMemoryBroker D) (e : BrokerError)
      → (get_fill_price order s).0 ≡ err e
      → place_order order now s ≡ (err e, s)
  unfolding place_order
  unpriced order now s e gone = let kept = get_fill_price-state order s in ground arith

  executed :
      (order : OrderRequest D) (now : DateTime) (price : D) (id : ℕ) (s : InMemoryBroker D)
      → (execute order.side order now price s).0 ≡ ok tt
      → let s' = (execute order.side order now price s).1 in
        let result = filled_result order now price id in
        fill_as order now price id s
        ≡ (ok result, record s' { orders = put_order id result s'.orders })
  unfolding fill_as
  executed order now price id s h = ground arith

  unexecuted :
      (order : OrderRequest D) (now : DateTime) (price : D) (id : ℕ) (s : InMemoryBroker D)
      (e : BrokerError)
      → (execute order.side order now price s).0 ≡ err e
      → fill_as order now price id s ≡ (err e, (execute order.side order now price s).1)
  unfolding fill_as
  unexecuted order now price id s e h = ground arith

  -- A refused order changes nothing but the counter: one whose price cannot be found takes no
  -- number, and one that cannot be executed takes the next.
  pub place_order-refused :
      (order : OrderRequest D) (now : DateTime) (s : InMemoryBroker D) {e : BrokerError}
      → (place_order order now s).0 ≡ err e
      → (((get_fill_price order s).0 ≡ err e) × ((place_order order now s).1 ≡ s))
        ⊎ (((fill_price : D) × ((get_fill_price order s).0 ≡ ok fill_price))
            × ((place_order order now s).1 ≡ record s { order_counter = suc s.order_counter }))
  place_order-refused order now s {e} h = elim (Outcome-cases (get_fill_price order s).0) [
    | inl (price, found) ↦
        let s' = record s { order_counter = suc s.order_counter } in
        let run = priced order now s price found in
        elim (Outcome-cases (execute order.side order now price s').0) [
          | inl (u, done) ↦
              let end = executed order now price (suc s.order_counter) s' done in absurd cc
          | inr (x, failed) ↦
              let end = unexecuted order now price (suc s.order_counter) s' x failed in
              inr (
                (price, found),
                ap (λ o. o.1) (run ∙ end) ∙ execute-refused order.side order now price s' x failed,
              )
        ]
    | inr (x, gone) ↦
        let end = unpriced order now s x gone in
        let same : x ≡ e = cc in inl (gone ∙ ap (λ y. err y) same, ap (λ o. o.1) end)
  ]

  -- What an accepted order leaves: its execution with the number taken, and the result under it.
  abbrev pub settled : OrderRequest D → DateTime → D → InMemoryBroker D → InMemoryBroker D
  settled order now price s =
      let s' =
        (execute order.side order now price (record s { order_counter = suc s.order_counter })).1 in
      record s' {
        orders =
            put_order (suc s.order_counter) (filled_result order now price (suc s.order_counter))
              s'.orders;
      }

  pub place_order-settled :
      (order : OrderRequest D) (now : DateTime) (s : InMemoryBroker D) (r : OrderResult D)
      → (place_order order now s).0 ≡ ok r
      → (price : D) × (place_order order now s
          ≡ (ok (filled_result order now price (suc s.order_counter)), settled order now price s))
  place_order-settled order now s r h = elim (Outcome-cases (get_fill_price order s).0) [
    | inl (price, found) ↦
        let s' = record s { order_counter = suc s.order_counter } in
        let run = priced order now s price found in
        elim (Outcome-cases (execute order.side order now price s').0) [
          | inl (u, done) ↦ (price, run ∙ executed order now price (suc s.order_counter) s' done)
          | inr (x, failed) ↦
              let end = unexecuted order now price (suc s.order_counter) s' x failed in absurd cc
        ]
    | inr (x, gone) ↦ let end = unpriced order now s x gone in absurd cc
  ]
