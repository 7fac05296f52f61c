-- ===== src/Backtest/Engine/Closing.antt =====
-- Exits of coupled tables: the broker never refuses one, and the forced exits at the end of a run
-- fail on the reason that they give.
use stock_trading_agent.Base.{
  ℕ, none, some, Option, List, [], ◌∷◌, String, ◌≡◌, ◌≢◌, refl, arith, inl, inr, ◌⊎◌, Option-cases,
  str_eq, str_eq_iff, any, true,
}
use stock_trading_agent.Base.Int.{pos, ◌<ℤ◌, ◌≤ℤ◌}
use stock_trading_agent.Base.Dict.{Dict, lookup, keys, lookup-remove}
use stock_trading_agent.Base.Effects.{Outcome, ok, err, for_each, Outcome-cases}
use stock_trading_agent.Decimal.{Decimal}
use stock_trading_agent.Core.Enums.{ExitReason, OrderSide, OrderType, reason_of_value}
use stock_trading_agent.Core.Models.{OrderRequest, OrderResult}
use stock_trading_agent.Backtest.Loader.{get_close_price}
use stock_trading_agent.Backtest.Simulator.Orders.{place_order, place_on}
use stock_trading_agent.Backtest.Simulator.State.{Simulator, BrokerError, holding}
use stock_trading_agent.Backtest.Simulator.Moves.{held_quantity}
use stock_trading_agent.Backtest.Engine.State.{Engine, Act, EngineError, unknown_exit_reason}
use stock_trading_agent.Backtest.Engine.Exits.{
  exit_order, move_out, note_exit, record_exit, exit_at, execute_exit, force_close_all,
}
use stock_trading_agent.Backtest.Engine.Coupling.{IsCoupled}
use stock_trading_agent.Strategy.PositionManager.{PositionRecord}

-- How an exit ends for what its reason names.
abbrev pub ends_with : Option ExitReason → Outcome EngineError (Unit {0})
ends_with none = err unknown_exit_reason
ends_with (some reason) = ok tt

module _ {D : Type 0} ⦃d : Decimal D⦄ where
  sale_not_refused :
      (order : OrderRequest D) (s : Simulator D) (day : ℕ) (price : D) (x : BrokerError)
      → s.current_date ≡ some day
      → order.side ≡ OrderSide.sell
      → order.order_type ≡ OrderType.limit
      → order.price ≡ some price
      → pos 0 <ℤ order.quantity
      → order.quantity ≤ℤ held_quantity order.symbol s.positions
      → (place_order order s).0 ≢ err x
  unfolding place_order place_on holding
  sale_not_refused order s day price x dated sell limit priced q covered refused =
      elim (Option-cases (lookup order.symbol s.positions)) [
        | inl e ↦ ground arith
        | inr (p, e) ↦ ground arith
      ]

  -- A broker with a date fills a sale at a limit of no more than it holds.
  place_order-sells :
      (order : OrderRequest D) (s : Simulator D) (day : ℕ) (price : D)
      → s.current_date ≡ some day
      → order.side ≡ OrderSide.sell
      → order.order_type ≡ OrderType.limit
      → order.price ≡ some price
      → pos 0 <ℤ order.quantity
      → order.quantity ≤ℤ held_quantity order.symbol s.positions
      → (r : OrderResult D) × ((place_order order s).0 ≡ ok r)
  place_order-sells order s day price dated sell limit priced q covered =
      elim (Outcome-cases (place_order order s).0) [
        | inl found ↦ found
        | inr (x, refused) ↦
            absurd (sale_not_refused order s day price x dated sell limit priced q covered refused)
      ]

  record_exit-ends :
      (today : ℕ) (symbol : String) (p : PositionRecord D) (close : D) (reason : String)
      (r : OrderResult D) (e : Engine D)
      → ((record_exit today symbol p close reason r e).0 ≡ ends_with (reason_of_value reason))
        × (lookup symbol (record_exit today symbol p close reason r e).1.positions ≡ none)
  unfolding record_exit note_exit move_out
  record_exit-ends today symbol p close reason r e = elim (Option-cases (reason_of_value reason)) [
    | inl found ↦ ground (arith, lookup-remove symbol symbol e.positions, str_eq_iff symbol symbol)
    | inr (known, found) ↦
        ground (arith, lookup-remove symbol symbol e.positions, str_eq_iff symbol symbol)
  ]

  -- Where the two tables agree and the broker has its date, the exit of a position with a close is
  -- not refused: the position is gone after it, and it ends well if its reason is the value of an
  -- `ExitReason`, or else with the error of the model that refuses the reason.
  pub execute_exit-ends :
      (today day : ℕ) (symbol reason : String) (p : PositionRecord D) (close : D) (e : Engine D)
      → IsCoupled e
      → lookup symbol e.positions ≡ some p
      → get_close_price e.data_loader symbol today ≡ some close
      → e.broker.current_date ≡ some day
      → ((execute_exit today symbol reason e).0 ≡ ends_with (reason_of_value reason))
        × (lookup symbol (execute_exit today symbol reason e).1.positions ≡ none)
  unfolding execute_exit exit_at
  execute_exit-ends today day symbol reason p close e h held priced dated =
      let order = exit_order symbol p close reason in
      let (r, accepted) =
        place_order-sells order e.broker day close dated refl refl refl (h.positive symbol p held)
          (ground (arith, h.same symbol)) in
      let e' : Engine D = record e { broker = (place_order order e.broker).1 } in
      ground (arith, h.positive symbol p held, record_exit-ends today symbol p close reason r e')

  -- Without a position or a close nothing happens.
  execute_exit-skips :
      (today : ℕ) (symbol reason : String) (e : Engine D)
      → (lookup symbol e.positions ≡ none) ⊎ (get_close_price e.data_loader symbol today ≡ none)
      → execute_exit today symbol reason e ≡ (ok tt, e)
  unfolding execute_exit
  execute_exit-skips today symbol reason e (inl h) = ground arith
  execute_exit-skips today symbol reason e (inr h) =
      elim (Option-cases (lookup symbol e.positions)) [
        | inl gone ↦ ground arith
        | inr (p, held) ↦ ground arith
      ]

  keys-lookup :
      (symbol : String) (p : PositionRecord D) (ps : Dict (PositionRecord D))
      → lookup symbol ps ≡ some p
      → any (λ k. str_eq k symbol) (keys ps) ≡ true
  unfolding lookup keys
  keys-lookup symbol p [] held = cc
  keys-lookup symbol p ((k, q) ∷ ps) held = ground (arith, keys-lookup symbol p ps)

  module _ (last_date day : ℕ) (e : Engine D) (h : IsCoupled e)
      (dated : e.broker.current_date ≡ some day) where
    abbrev close_last : String → Act D (Unit {0})
    close_last symbol = execute_exit last_date symbol "backtest_end"

    close_last-cases :
        (symbol : String)
        → (close_last symbol e ≡ (ok tt, e)) ⊎ ((close_last symbol e).0 ≡ err unknown_exit_reason)
    unfolding reason_of_value
    close_last-cases symbol = elim (Option-cases (lookup symbol e.positions)) [
      | inl gone ↦ inl (execute_exit-skips last_date symbol "backtest_end" e (inl gone))
      | inr (p, held) ↦ elim (Option-cases (get_close_price e.data_loader symbol last_date)) [
        | inl unpriced ↦ inl (execute_exit-skips last_date symbol "backtest_end" e (inr unpriced))
        | inr (close, priced) ↦ inr (
            (execute_exit-ends last_date day symbol "backtest_end" p close e h held priced dated).0)
      ]
    ]

    close_each-fails :
        (symbol : String) (p : PositionRecord D) (close : D) (symbols : List String)
        → lookup symbol e.positions ≡ some p
        → get_close_price e.data_loader symbol last_date ≡ some close
        → any (λ k. str_eq k symbol) symbols ≡ true
        → (for_each symbols close_last e).0 ≡ err unknown_exit_reason
    unfolding for_each reason_of_value
    close_each-fails symbol p close [] held priced among = cc
    close_each-fails symbol p close (k ∷ ks) held priced among = elim (close_last-cases k) [
      | inr failed ↦ ground arith
      | inl skipped ↦
          let rest = close_each-fails symbol p close ks held priced in
          let ends =
            execute_exit-ends last_date day symbol "backtest_end" p close e h held priced dated in
          ground (arith, str_eq_iff k symbol, ends.0, rest)
    ]

  -- Where the two tables agree and the broker has its date, the closing of all positions at the end
  -- of a run fails as soon as one of them has a close on the last date: the reason it gives, a text
  -- `backtest_end`, is the value of no `ExitReason`.
  pub force_close_all-fails :
      (last_date day : ℕ) (symbol : String) (p : PositionRecord D) (close : D) (e : Engine D)
      → IsCoupled e
      → e.broker.current_date ≡ some day
      → lookup symbol e.positions ≡ some p
      → get_close_price e.data_loader symbol last_date ≡ some close
      → (force_close_all last_date e).0 ≡ err unknown_exit_reason
  unfolding force_close_all
  force_close_all-fails last_date day symbol p close e h dated held priced =
      close_each-fails last_date day e h dated symbol p close (keys e.positions) held priced
        (keys-lookup symbol p e.positions held)
