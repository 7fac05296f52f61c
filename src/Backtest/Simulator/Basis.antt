-- ===== src/Backtest/Simulator/Basis.antt =====
-- What the positions have cost, and what an order does to it.
use stock_trading_agent.Base.{
  ◌≡◌, sym, ap, ◌∙◌, arith, none, some, inl, inr, ◌⊎◌, String, str_eq, Option-cases, ℕ, [], ◌∷◌,
  Bool-cases,
}
use stock_trading_agent.Base.Int.{pos, ◌+ℤ◌, ◌-ℤ◌, eq_of_parts}
use stock_trading_agent.Base.Dict.{Dict, lookup, insert}
use stock_trading_agent.Base.Dict.Entries.{AllEntries, lookup-AllEntries}
use stock_trading_agent.Base.Effects.{ok}
use stock_trading_agent.Decimal.{Decimal, ◌+◌, ◌-◌, ◌*◌, ◌/◌, of_int, dec}
use stock_trading_agent.Decimal.Laws.{IsExact}
use stock_trading_agent.Decimal.Algebra.{plus_left_comm, plus_cancel, times_zero, take_part}
use stock_trading_agent.Core.Enums.{OrderSide}
use stock_trading_agent.Core.Models.{OrderRequest, OrderResult, Position}
use stock_trading_agent.Backtest.Simulator.State.{Simulator, holding, bought, sold}
use stock_trading_agent.Backtest.Simulator.Orders.{place_order, place_on, execute}
use stock_trading_agent.Backtest.Simulator.Holdings.{IsSound}

module _ {D : Type 0} ⦃d : Decimal D⦄ where
  holding-none : (k : String) (ps : Dict (Position D)) → lookup k ps ≡ none → holding k ps ≡ none
  unfolding holding
  holding-none k ps e = ground arith

  holding-cases :
      (k : String) (p : Position D) (ps : Dict (Position D))
      → lookup k ps ≡ some p
      → IsSound k p
      → (holding k ps ≡ some p) ⊎ ((holding k ps ≡ none) × (p.quantity ≡ pos 0))
  unfolding holding
  holding-cases k p ps e sound = ground (arith, eq_of_parts p.quantity (pos 0), sound.not_short)

  sold-basis :
      (order : OrderRequest D) (price : D) (p : Position D)
      → ((sold order price p).average_cost ≡ p.average_cost)
        × ((sold order price p).quantity ≡ p.quantity -ℤ order.quantity)
  unfolding sold
  sold-basis order price p = ground arith

  -- What a position has cost, and what all of them have.
  abbrev pub basis : Position D → D
  basis p = p.average_cost * of_int p.quantity

  abbrev pub cost_value : Dict (Position D) → D
  cost_value [] = dec 0
  cost_value ((k, p) ∷ ps) = basis p + cost_value ps

  -- Cash and cost together.
  abbrev pub book_value : Simulator D → D
  book_value s = s.cash + cost_value s.positions

  -- From `s` to `s'` cash and cost fell by `fee`, up to what the realized gain rose by.
  abbrev pub Books : Simulator D → Simulator D → D → Type 0
  Books s s' fee = (book_value s' + fee) + s.realized_pnl ≡ book_value s + s'.realized_pnl

  pub execute_buy-fields :
      (order : OrderRequest D) (day : ℕ) (price fee : D) (s : Simulator D)
      → (execute OrderSide.buy order day price fee s).0 ≡ ok tt
      → let s' = (execute OrderSide.buy order day price fee s).1 in
        (s'.cash ≡ s.cash - (price * of_int order.quantity + fee))
        × (s'.positions
            ≡ insert order.symbol
                (bought day order price (holding order.symbol s.positions))
                s.positions)
        × (s'.realized_pnl ≡ s.realized_pnl)
  unfolding execute
  execute_buy-fields order day price fee s e = ground arith

  pub execute_sell-fields :
      (order : OrderRequest D) (day : ℕ) (price fee : D) (s : Simulator D)
      → (execute OrderSide.sell order day price fee s).0 ≡ ok tt
      → let s' = (execute OrderSide.sell order day price fee s).1 in
        (p : Position D) × (lookup order.symbol s.positions ≡ some p)
        × (s'.cash ≡ s.cash + (price * of_int order.quantity - fee))
        × (s'.positions ≡ insert order.symbol (sold order price p) s.positions)
        × (s'.realized_pnl ≡ s.realized_pnl + (price - p.average_cost) * of_int order.quantity)
  unfolding execute holding
  execute_sell-fields order day price fee s e =
      elim (Option-cases (lookup order.symbol s.positions)) [
        | inl gone ↦ ground arith
        | inr (p, found) ↦ (p, found, ground arith, ground arith, ground arith)
      ]

  pub place_order-cash :
      (order : OrderRequest D) (s : Simulator D) {r : OrderResult D}
      → (place_order order s).0 ≡ ok r
      → (place_order order s).1.cash
        ≡ (execute order.side order r.timestamp.day r.price r.commission s).1.cash
  unfolding place_order place_on
  place_order-cash order s e = ground arith

  module _ (laws : IsExact D) where
    cost_value-insert :
        (k : String) (p old : Position D) (ps : Dict (Position D))
        → lookup k ps ≡ some old
        → cost_value (insert k p ps) + basis old ≡ cost_value ps + basis p
    unfolding lookup insert
    cost_value-insert k p old [] e = cc
    cost_value-insert k p old ((j, q) ∷ ps) e = elim (Bool-cases (str_eq j k)) [
      | inl same ↦
          let found : q ≡ old = ground arith in
          rw (same, found) (simp (laws.plus_assoc, laws.plus_comm, plus_left_comm laws))
      | inr other ↦
          let rest = cost_value-insert k p old ps (ground arith) in
          rw other
            (laws.plus_assoc _ _ _ ∙ ap (λ t. basis q + t) rest ∙ sym (laws.plus_assoc _ _ _))
    ]

    cost_value-insert_new :
        (k : String) (p : Position D) (ps : Dict (Position D))
        → lookup k ps ≡ none
        → cost_value (insert k p ps) ≡ cost_value ps + basis p
    unfolding lookup insert
    cost_value-insert_new k p [] e = laws.plus_comm _ _
    cost_value-insert_new k p ((j, q) ∷ ps) e = elim (Bool-cases (str_eq j k)) [
      | inl same ↦ ground arith
      | inr other ↦
          let rest = cost_value-insert_new k p ps (ground arith) in
          rw other (ap (λ t. basis q + t) rest ∙ sym (laws.plus_assoc _ _ _))
    ]

    -- The average of a buy into a position is exact: it loses nothing of the total cost.
    abbrev pub AveragesExactly : OrderRequest D → D → Dict (Position D) → Type 0
    AveragesExactly order price ps =
        (p : Position D)
        → holding order.symbol ps ≡ some p
        → let total = basis p + price * of_int order.quantity in
          (total / of_int (p.quantity +ℤ order.quantity)) * of_int (p.quantity +ℤ order.quantity)
          ≡ total

    -- Where an entry's cost grows by `x`, so does the sum.
    cost_value-insert_by :
        (k : String) (p old : Position D) (x : D) (ps : Dict (Position D))
        → lookup k ps ≡ some old
        → basis p ≡ basis old + x
        → cost_value (insert k p ps) ≡ cost_value ps + x
    cost_value-insert_by k p old x ps e more =
        let after : cost_value (insert k p ps) + basis old ≡ (cost_value ps + x) + basis old =
          cost_value-insert k p old ps e
          ∙ rw more (simp (laws.plus_assoc, laws.plus_comm, plus_left_comm laws)) in
        plus_cancel laws _ _ (basis old) after

    basis_of_empty : (p : Position D) → p.quantity ≡ pos 0 → basis p ≡ dec 0
    basis_of_empty p e = ap (λ n. p.average_cost * of_int n) e ∙ times_zero laws p.average_cost

    pub cost_value-bought :
        (day : ℕ) (order : OrderRequest D) (price : D) (ps : Dict (Position D))
        → AllEntries IsSound ps
        → AveragesExactly order price ps
        → cost_value (insert order.symbol (bought day order price (holding order.symbol ps)) ps)
          ≡ cost_value ps + price * of_int order.quantity
    unfolding bought
    cost_value-bought day order price ps h exact = elim (Option-cases (lookup order.symbol ps)) [
      | inl e ↦ rw (holding-none order.symbol ps e) (cost_value-insert_new order.symbol _ ps e)
      | inr (p, e) ↦
          elim (holding-cases order.symbol p ps e
            (lookup-AllEntries IsSound order.symbol p ps h e)) [
              | inl held ↦ rw held (cost_value-insert_by order.symbol _ p _ ps e (exact p held))
              | inr (gone, empty) ↦ rw gone (
                  cost_value-insert_by order.symbol _ p _ ps e (
                    sym (laws.plus_zero _)
                    ∙ laws.plus_comm _ _
                    ∙ ap (λ t. t + price * of_int order.quantity) (sym (basis_of_empty p empty))))
            ]
    ]

    -- Selling `q` shares takes their cost out of the sum.
    pub cost_value-sold :
        (order : OrderRequest D) (price : D) (p : Position D) (ps : Dict (Position D))
        → lookup order.symbol ps ≡ some p
        → cost_value (insert order.symbol (sold order price p) ps)
            + p.average_cost * of_int order.quantity
          ≡ cost_value ps
    cost_value-sold order price p ps e =
        let after = sold order price p in
        let part = p.average_cost * of_int order.quantity in
        let shrinks : basis after ≡ basis p - part =
          rw ((sold-basis order price p).0, (sold-basis order price p).1, laws.of_int-minus)
            (laws.times-minus p.average_cost (of_int p.quantity) (of_int order.quantity)) in
        take_part laws _ part (basis p) _
          (cost_value-insert order.symbol after p ps e ∙ ap (λ t. cost_value ps + t) shrinks)
