-- ===== src/Backtest/Simulator/Holdings.antt =====
-- The invariant of the positions, and how an order moves a holding.
use stock_trading_agent.Base.{◌≡◌, arith, inl, inr, String, Option-cases, [], ◌∷◌, ℕ}
use stock_trading_agent.Base.Int.{pos, ◌+ℤ◌, ◌-ℤ◌, ◌≤ℤ◌, ◌<ℤ◌}
use stock_trading_agent.Base.Dict.{Dict, lookup}
use stock_trading_agent.Base.Dict.Entries.{AllEntries, lookup-AllEntries, insert-AllEntries}
use stock_trading_agent.Base.Effects.{Outcome-cases}
use stock_trading_agent.Decimal.{Decimal}
use stock_trading_agent.Core.Enums.{OrderSide, PositionStatus}
use stock_trading_agent.Core.Models.{OrderRequest, Position}
use stock_trading_agent.Backtest.Loader.{Loader}
use stock_trading_agent.Backtest.Simulator.State.{Simulator, holding, bought, sold}
use stock_trading_agent.Backtest.Simulator.Orders.{place_order, execute}
use stock_trading_agent.Backtest.Simulator.Market.{valued, valuations, set_current_date}
use stock_trading_agent.Backtest.Simulator.Books.{place_order_atomic, place_order-execute}

module _ {D : Type 0} where
  -- A position stands under its own symbol, never short, and is closed exactly when it is empty.
  pub record IsSound (symbol : String) (p : Position D) : Type 0 where
    pub named : p.symbol ≡ symbol
    pub not_short : pos 0 ≤ℤ p.quantity
    pub closed_empty : p.status ≡ PositionStatus.closed → p.quantity ≡ pos 0
    pub empty_closed : p.quantity ≡ pos 0 → p.status ≡ PositionStatus.closed

  abbrev pub AllSound : Simulator D → Type 0
  AllSound s = AllEntries IsSound s.positions

module _ {D : Type 0} ⦃d : Decimal D⦄ where
  bought-IsSound :
      (day : ℕ) (order : OrderRequest D) (price : D) (positions : Dict (Position D))
      → AllEntries IsSound positions
      → pos 0 <ℤ order.quantity
      → IsSound order.symbol (bought day order price (holding order.symbol positions))
  unfolding bought holding ◌+ℤ◌
  bought-IsSound day order price positions h q =
      elim (Option-cases (lookup order.symbol positions)) [
        | inl e ↦ ground arith
        | inr (p, e) ↦ ground (arith, lookup-AllEntries IsSound order.symbol p positions h e)
      ]

  sold-IsSound :
      (symbol : String) (order : OrderRequest D) (price : D) (p : Position D)
      → IsSound symbol p
      → order.quantity ≤ℤ p.quantity
      → pos 0 <ℤ order.quantity
      → IsSound symbol (sold order price p)
  unfolding sold ◌-ℤ◌
  sold-IsSound symbol order price p h le q = ground arith

  execute-AllSound :
      (side : OrderSide) (order : OrderRequest D) (day : ℕ) (price commission : D) (s : Simulator D)
      → pos 0 <ℤ order.quantity
      → AllSound s
      → AllSound (execute side order day price commission s).1
  unfolding execute holding
  execute-AllSound OrderSide.buy order day price commission s q h =
      let p = bought day order price (holding order.symbol s.positions) in
      ground (
        arith,
        insert-AllEntries IsSound order.symbol p s.positions h
            (bought-IsSound day order price s.positions h q),
      )
  execute-AllSound OrderSide.sell order day price commission s q h =
      elim (Option-cases (lookup order.symbol s.positions)) [
        | inl e ↦ ground arith
        | inr (p, e) ↦
            let here = lookup-AllEntries IsSound order.symbol p s.positions h e in
            ground (
              arith,
              sold-IsSound order.symbol order price p here,
              insert-AllEntries IsSound order.symbol (sold order price p) s.positions h,
            )
      ]

  -- Orders of at least one share keep every position sound, accepted or refused.
  pub place_order-AllSound :
      (order : OrderRequest D) (s : Simulator D)
      → pos 0 <ℤ order.quantity
      → AllSound s
      → AllSound (place_order order s).1
  place_order-AllSound order s q h = elim (Outcome-cases (place_order order s).0) [
    | inl (r, e) ↦
        rw ((place_order-execute order s e).1)
          (execute-AllSound order.side order r.timestamp.day r.price r.commission s q h)
    | inr (x, e) ↦ rw (place_order_atomic order s e) h
  ]

  valuations-AllSound :
      (loader : Loader D) (day : ℕ) (ps : Dict (Position D))
      → AllEntries IsSound ps
      → AllEntries IsSound (valuations loader day ps)
  unfolding valuations valued
  valuations-AllSound loader day [] h = tt
  valuations-AllSound loader day ((k, p) ∷ ps) h =
      ground (arith, valuations-AllSound loader day ps h.1)

  -- A new day's valuation keeps every position sound.
  pub set_current_date-AllSound :
      (day : ℕ) (s : Simulator D) → AllSound s → AllSound (set_current_date day s).1
  unfolding set_current_date
  set_current_date-AllSound day s h = valuations-AllSound s.data_loader day s.positions h
