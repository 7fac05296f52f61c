-- ===== src/Backtest/Simulator/Moves.antt =====
-- How an accepted order moves the holdings: its own symbol by its quantity, and no other.
use stock_trading_agent.Base.{
  ◌≡◌, ◌≢◌, refl, arith, none, some, inl, inr, String, str_eq_iff, Option-cases, ℕ,
}
use stock_trading_agent.Base.Int.{ℤ, pos, ◌+ℤ◌, ◌-ℤ◌, ◌≤ℤ◌, zero-+ℤ, eq_of_parts}
use stock_trading_agent.Base.Dict.{Dict, lookup, insert, lookup-insert}
use stock_trading_agent.Base.Dict.Entries.{AllEntries, lookup-AllEntries}
use stock_trading_agent.Base.Effects.{ok}
use stock_trading_agent.Decimal.{Decimal}
use stock_trading_agent.Core.Enums.{OrderSide}
use stock_trading_agent.Core.Models.{OrderRequest, OrderResult, Position}
use stock_trading_agent.Backtest.Simulator.State.{Simulator, holding, bought, sold}
use stock_trading_agent.Backtest.Simulator.Orders.{place_order, execute}
use stock_trading_agent.Backtest.Simulator.Books.{place_order-execute}
use stock_trading_agent.Backtest.Simulator.Holdings.{IsSound, AllSound}

-- The shares of a symbol that are held.
abbrev pub held_quantity : {D : Type 0} → String → Dict (Position D) → ℤ
held_quantity symbol ps = elim (lookup symbol ps) [ none ↦ pos 0 | some p ↦ p.quantity ]

abbrev pub moved : OrderSide → ℤ → ℤ → ℤ
moved OrderSide.buy held quantity = held +ℤ quantity
moved OrderSide.sell held quantity = held -ℤ quantity

-- What an order does to the positions `ps`, which become `ps'`.
pub record Moves {D : Type 0} (order : OrderRequest D) (ps ps' : Dict (Position D)) : Type 0 where
  pub own :
      held_quantity order.symbol ps'
      ≡ moved order.side (held_quantity order.symbol ps) order.quantity
  pub covered : order.side ≡ OrderSide.sell → order.quantity ≤ℤ held_quantity order.symbol ps
  pub others : (k : String) → k ≢ order.symbol → lookup k ps' ≡ lookup k ps

module _ {D : Type 0} ⦃d : Decimal D⦄ where
  lookup-insert_self :
      (k : String) (p : Position D) (ps : Dict (Position D)) → lookup k (insert k p ps) ≡ some p
  lookup-insert_self k p ps = ground (arith, lookup-insert k k p ps, str_eq_iff k k)

  lookup-insert_ne :
      (k j : String) (p : Position D) (ps : Dict (Position D))
      → j ≢ k
      → lookup j (insert k p ps) ≡ lookup j ps
  lookup-insert_ne k j p ps ne = ground (arith, lookup-insert k j p ps, str_eq_iff k j)

  bought-quantity :
      (day : ℕ) (order : OrderRequest D) (price : D) (ps : Dict (Position D))
      → AllEntries IsSound ps
      → (bought day order price (holding order.symbol ps)).quantity
        ≡ held_quantity order.symbol ps +ℤ order.quantity
  unfolding bought holding
  bought-quantity day order price ps h = elim (Option-cases (lookup order.symbol ps)) [
    | inl e ↦ ground (arith, zero-+ℤ order.quantity)
    | inr (p, e) ↦
        let sound = lookup-AllEntries IsSound order.symbol p ps h e in
        ground (arith, zero-+ℤ order.quantity, eq_of_parts p.quantity (pos 0), sound.not_short)
  ]

  execute-Moves :
      (side : OrderSide) (order : OrderRequest D) (day : ℕ) (price commission : D) (s : Simulator D)
      → side ≡ order.side
      → AllSound s
      → (execute side order day price commission s).0 ≡ ok tt
      → Moves order s.positions (execute side order day price commission s).1.positions
  unfolding execute holding sold
  execute-Moves OrderSide.buy order day price commission s side h e =
      let p = bought day order price (holding order.symbol s.positions) in
      record {
        own = ground (
          arith,
          bought-quantity day order price s.positions h,
          lookup-insert_self order.symbol p s.positions,
        );
        covered = λ sells. ground arith;
        others = λ k ne. ground (arith, lookup-insert_ne order.symbol k p s.positions ne);
      }
  execute-Moves OrderSide.sell order day price commission s side h e =
      elim (Option-cases (lookup order.symbol s.positions)) [
        | inl none_held ↦ ground arith
        | inr (p, found) ↦ record {
          own = ground (arith, lookup-insert_self order.symbol (sold order price p) s.positions);
          covered = λ sells. ground arith;
          others = λ k ne.
              ground (arith, lookup-insert_ne order.symbol k (sold order price p) s.positions ne);
        }
      ]

  -- From sound positions, an accepted order changes the holding of its symbol by its quantity and
  -- no other position, and a sale is never of more than is held.
  pub place_order-Moves :
      (order : OrderRequest D) (s : Simulator D) {r : OrderResult D}
      → AllSound s
      → (place_order order s).0 ≡ ok r
      → Moves order s.positions (place_order order s).1.positions
  place_order-Moves order s {r} h e =
      let through = place_order-execute order s e in
      rw (through.1)
        (execute-Moves order.side order r.timestamp.day r.price r.commission s refl h through.0)
