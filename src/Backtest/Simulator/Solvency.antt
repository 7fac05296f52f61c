-- ===== src/Backtest/Simulator/Solvency.antt =====
-- Cash never goes below zero, and the orders are numbered in the order of their placing.
use stock_trading_agent.Base.{ℕ, suc, ◌≡◌, refl, arith, List, [], ◌∷◌, ◌++◌, inl, inr}
use stock_trading_agent.Base.Effects.{ok, Outcome-cases}
use stock_trading_agent.Decimal.{Decimal, ◌+◌, ◌-◌, ◌*◌, of_int, dec, ◌≤◌}
use stock_trading_agent.Decimal.Laws.{IsOrdered}
use stock_trading_agent.Core.Enums.{OrderSide}
use stock_trading_agent.Core.Models.{OrderRequest, OrderResult}
use stock_trading_agent.Backtest.Simulator.State.{Simulator}
use stock_trading_agent.Backtest.Simulator.Orders.{place_order, place_on}
use stock_trading_agent.Backtest.Simulator.Books.{
  cash_after, place_order_atomic, place_order-Settles,
}

module _ {D : Type 0} ⦃d : Decimal D⦄ where
  abbrev pub IsSolvent : Simulator D → Type 0
  IsSolvent s = dec 0 ≤ s.cash

  -- A buy goes through only if the cash covers its amount and its commission.
  place_order_affordable :
      (order : OrderRequest D) (s : Simulator D) {r : OrderResult D}
      → (place_order order s).0 ≡ ok r
      → order.side ≡ OrderSide.buy
      → r.price * of_int order.quantity + r.commission ≤ s.cash
  unfolding place_order place_on
  place_order_affordable order s h buys = ground arith

  cash_after-nonneg :
      IsOrdered D
      → (side : OrderSide) (cash amount commission : D) → dec 0 ≤ cash
      → (side ≡ OrderSide.buy → amount + commission ≤ cash)
      → (side ≡ OrderSide.sell → commission ≤ amount)
      → dec 0 ≤ cash_after side cash amount commission
  cash_after-nonneg laws OrderSide.buy cash amount commission h afford covered =
      laws.minus_nonneg (amount + commission) cash (afford refl)
  cash_after-nonneg laws OrderSide.sell cash amount commission h afford covered =
      laws.plus_nonneg cash (amount - commission) h
        (laws.minus_nonneg commission amount (covered refl))

  -- With correctly rounded arithmetic, whatever is ordered, and whether or not it is refused,
  -- cash that is not negative stays so, as long as a sale's commission is no more than its
  -- proceeds.
  pub place_order-IsSolvent :
      IsOrdered D
      → (order : OrderRequest D) (s : Simulator D)
      → ((r : OrderResult D)
          → (place_order order s).0 ≡ ok r
          → order.side ≡ OrderSide.sell
          → r.commission ≤ r.price * of_int order.quantity)
      → IsSolvent s
      → IsSolvent (place_order order s).1
  place_order-IsSolvent laws order s covered h = elim (Outcome-cases (place_order order s).0) [
    | inl (r, e) ↦ rw ((place_order-Settles order s e).4) (
        cash_after-nonneg laws order.side s.cash (r.price * of_int order.quantity) r.commission h
          (place_order_affordable order s e) (covered r e))
    | inr (x, e) ↦ rw (place_order_atomic order s e) h
  ]

  -- The orders from the one after number `n` on are numbered without a gap, up to `last`.
  abbrev pub Numbered : ℕ → ℕ → List (OrderResult D) → Type 0
  Numbered last n [] = n ≡ last
  Numbered last n (o ∷ os) = (o.order_id ≡ suc n) × Numbered last (suc n) os

  abbrev pub IsNumbered : Simulator D → Type 0
  IsNumbered s = Numbered s.order_counter 0 s.orders

  Numbered-append :
      (last n : ℕ) (os : List (OrderResult D)) (o : OrderResult D)
      → Numbered last n os
      → o.order_id ≡ suc last
      → Numbered (suc last) n (os ++ (o ∷ []))
  Numbered-append last n [] o h e = ground arith
  Numbered-append last n (x ∷ os) o h e = (h.0, Numbered-append last (suc n) os o h.1 e)

  -- Every accepted order takes the next number, and a refused one takes none.
  pub place_order-IsNumbered :
      (order : OrderRequest D) (s : Simulator D) → IsNumbered s → IsNumbered (place_order order s).1
  place_order-IsNumbered order s h = elim (Outcome-cases (place_order order s).0) [
    | inl (r, e) ↦
        let settled = place_order-Settles order s e in
        rw (settled.5, settled.7) (Numbered-append s.order_counter 0 s.orders r h settled.6)
    | inr (x, e) ↦ rw (place_order_atomic order s e) h
  ]
