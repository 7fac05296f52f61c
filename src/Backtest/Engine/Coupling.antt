-- ===== src/Backtest/Engine/Coupling.antt =====
-- The engine's own table of positions agrees with the broker's holdings, whatever a run meets.
use stock_trading_agent.Base.{
  ℕ, suc, true, false, none, some, [], ◌∷◌, String, ◌≡◌, refl, ◌∙◌, arith, inl, inr, Bool-cases,
  str_eq, str_eq_iff, if◌then◌else◌, ◌≢◌,
}
use stock_trading_agent.Base.Int.{ℤ, pos, ◌<ℤ◌, ◌-ℤ◌, zero-+ℤ, int_laws}
use stock_trading_agent.Base.Dict.{Dict, lookup, remove, insert, lookup-remove, lookup-insert, has}
use stock_trading_agent.Base.Effects.{ok, Outcome}
use stock_trading_agent.Base.Effects.Traces.{Trace-keeps}
use stock_trading_agent.Decimal.{Decimal}
use stock_trading_agent.Core.Models.{BacktestConfig, Position, OrderResult}
use stock_trading_agent.Backtest.Loader.{Loader}
use stock_trading_agent.Backtest.Simulator.Orders.{place_order}
use stock_trading_agent.Backtest.Simulator.State.{Simulator}
use stock_trading_agent.Backtest.Simulator.Market.{valued, valuations, set_current_date}
use stock_trading_agent.Backtest.Simulator.Holdings.{
  AllSound, place_order-AllSound, set_current_date-AllSound,
}
use stock_trading_agent.Backtest.Simulator.Moves.{held_quantity, place_order-Moves}
use stock_trading_agent.Backtest.Engine.State.{Engine, EngineError, reset_state}
use stock_trading_agent.Backtest.Engine.Exits.{exit_order, move_out}
use stock_trading_agent.Backtest.Engine.Entries.{
  entry_order, exit_rules_of, record_entry, record_snapshot, risk_check, entered, fill_price_or,
}
use stock_trading_agent.Backtest.Engine.Indicators.{Indicators}
use stock_trading_agent.Backtest.Engine.Run.{run, started}
use stock_trading_agent.Backtest.Engine.Moves.{Move, Moves}
use stock_trading_agent.Backtest.Engine.Refines.{run-Moves}
use stock_trading_agent.Strategy.PositionManager.{PositionRecord}

-- The shares of a symbol that the engine's table holds.
abbrev pub tracked_quantity : {D : Type 0} → String → Dict (PositionRecord D) → ℤ
tracked_quantity symbol ps = elim (lookup symbol ps) [ none ↦ pos 0 | some p ↦ p.quantity ]

minus_self : (a : ℤ) → a -ℤ a ≡ pos 0
minus_self a = omega int_laws

module _ {D : Type 0} where
  -- Both tables hold the same shares of every symbol, and each position of the engine has some.
  pub record AreCoupled (broker : Simulator D) (ps : Dict (PositionRecord D)) : Type 0 where
    pub sound : AllSound broker
    pub same : (k : String) → held_quantity k broker.positions ≡ tracked_quantity k ps
    pub positive : (k : String) (p : PositionRecord D) → lookup k ps ≡ some p → pos 0 <ℤ p.quantity

  abbrev pub IsCoupled : Engine D → Type 0
  IsCoupled e = AreCoupled e.broker e.positions

module _ {D : Type 0} ⦃d : Decimal D⦄ where
  -- The parameters that are read once an order has been filled convert.
  abbrev pub Reads : BacktestConfig D → Type 0
  Reads config = exit_rules_of config ≢ none

  valuations-quantity :
      (loader : Loader D) (day : ℕ) (k : String) (ps : Dict (Position D))
      → held_quantity k (valuations loader day ps) ≡ held_quantity k ps
  unfolding valuations lookup valued
  valuations-quantity loader day k [] = refl
  valuations-quantity loader day k ((j, p) ∷ ps) =
      ground (arith, valuations-quantity loader day k ps)

  tracked-remove :
      (symbol k : String) (ps : Dict (PositionRecord D))
      → tracked_quantity k (remove symbol ps)
        ≡ (if str_eq symbol k then pos 0 else tracked_quantity k ps)
  tracked-remove symbol k ps = ground (arith, lookup-remove symbol k ps)

  tracked-insert :
      (symbol k : String) (p : PositionRecord D) (ps : Dict (PositionRecord D))
      → tracked_quantity k (insert symbol p ps)
        ≡ (if str_eq symbol k then p.quantity else tracked_quantity k ps)
  tracked-insert symbol k p ps = ground (arith, lookup-insert symbol k p ps)

  set_current_date-coupled :
      (today : ℕ) (broker : Simulator D) (ps : Dict (PositionRecord D))
      → AreCoupled broker ps
      → AreCoupled (set_current_date today broker).1 ps
  unfolding set_current_date
  set_current_date-coupled today broker ps h = record {
    sound = set_current_date-AllSound today broker h.sound;
    same = λ k. valuations-quantity broker.data_loader today k broker.positions ∙ h.same k;
    positive = h.positive;
  }

  -- A sale of a position takes it out of both tables.
  sold-coupled :
      (symbol : String) (p : PositionRecord D) (close : D) (reason : String) (r : OrderResult D)
      (broker : Simulator D) (ps : Dict (PositionRecord D))
      → lookup symbol ps ≡ some p
      → (place_order (exit_order symbol p close reason) broker).0 ≡ ok r
      → AreCoupled broker ps
      → AreCoupled (place_order (exit_order symbol p close reason) broker).1 (remove symbol ps)
  sold-coupled symbol p close reason r broker ps held accepted h =
      let order = exit_order symbol p close reason in
      let moves = place_order-Moves order broker h.sound accepted in
      record {
        sound = place_order-AllSound order broker (h.positive symbol p held) h.sound;
        same = λ k. elim (Bool-cases (str_eq symbol k)) [
          | inl own ↦
              let e : symbol ≡ k = ground (arith, str_eq_iff symbol k) in
              ground
                (arith, moves.own, h.same symbol, minus_self p.quantity, tracked-remove symbol k ps)
          | inr other ↦
              ground
                (arith, str_eq_iff symbol k, moves.others k, h.same k, tracked-remove symbol k ps)
        ];
        positive = λ k q found. ground (arith, lookup-remove symbol k ps, h.positive k q);
      }

  -- A purchase of a symbol that is not held puts it into both tables.
  entered-coupled :
      (symbol : String) (quantity : ℤ) (p : PositionRecord D) (r : OrderResult D)
      (broker : Simulator D) (ps : Dict (PositionRecord D))
      → has symbol ps ≡ false
      → pos 0 <ℤ quantity
      → p.quantity ≡ quantity
      → (place_order (entry_order symbol quantity) broker).0 ≡ ok r
      → AreCoupled broker ps
      → AreCoupled (place_order (entry_order symbol quantity) broker).1 (insert symbol p ps)
  entered-coupled symbol quantity p r broker ps free bought q accepted h =
      let order = entry_order symbol quantity in
      let moves = place_order-Moves order broker h.sound accepted in
      record {
        sound = place_order-AllSound order broker bought h.sound;
        same = λ k. elim (Bool-cases (str_eq symbol k)) [
          | inl own ↦
              let e : symbol ≡ k = ground (arith, str_eq_iff symbol k) in
              ground
                (arith, moves.own, h.same symbol, zero-+ℤ quantity, tracked-insert symbol k p ps)
          | inr other ↦
              ground
                (arith, str_eq_iff symbol k, moves.others k, h.same k, tracked-insert symbol k p ps)
        ];
        positive = λ k x found. ground (arith, lookup-insert symbol k p ps, h.positive k x);
      }

  -- What the risk check lets pass: a positive quantity of a symbol that is not held.
  pub risk_check-passed :
      (symbol : String) (quantity q : ℤ) (price : D) (e : Engine D)
      → risk_check symbol quantity price e ≡ (true, q)
      → (has symbol e.positions ≡ false) × (pos 0 <ℤ q)
  unfolding risk_check
  risk_check-passed symbol quantity q price e passed = ground arith

  Move-IsCoupled :
      (config : BacktestConfig D)
      → Reads config
      → (e e' : Engine D) → Move config e e'
      → IsCoupled e
      → IsCoupled e'
  unfolding move_out record_entry record_snapshot entered
  Move-IsCoupled config reads e e' (Move.replay_loaded r) h = h
  Move-IsCoupled config reads e e' Move.day_started h = h
  Move-IsCoupled config reads e e' (Move.date_set today) h =
      set_current_date-coupled today e.broker e.positions h
  Move-IsCoupled config reads e e' (Move.high_noted highs) h = h
  Move-IsCoupled config reads e e' (Move.sold today symbol p close reason r held positive accepted)
        h =
      sold-coupled symbol p close reason r e.broker e.positions held accepted h
  Move-IsCoupled config reads e e' (Move.trade_noted trades) h = h
  Move-IsCoupled config reads e e' Move.signals_taken h = h
  Move-IsCoupled config reads e e'
        (Move.entered today signal quantity price r rules read passed accepted) h =
      let checked = risk_check-passed signal.symbol signal.quantity quantity price e passed in
      let paid = fill_price_or price r.filled_price in
      entered-coupled signal.symbol quantity
        (entered today config signal quantity paid rules (suc e.position_id_counter)) r e.broker
        e.positions checked.0 checked.1 refl accepted h
  Move-IsCoupled config reads e e' (Move.unrecorded signal quantity price r unread passed accepted)
        h =
      absurd (reads unread)
  Move-IsCoupled config reads e e' (Move.signalled s free entry) h = h
  Move-IsCoupled config reads e e' (Move.snapshot_taken today) h = h

  -- With parameters that convert, moves keep the engine's table and the broker's holdings the same.
  pub Moves-IsCoupled :
      (config : BacktestConfig D)
      → Reads config
      → (e e' : Engine D) → Moves config e e'
      → IsCoupled e
      → IsCoupled e'
  Moves-IsCoupled config reads e e' r h =
      Trace-keeps (Move config) IsCoupled (Move-IsCoupled config reads) r h

  -- Where the parameters that a purchase reads once it is filled convert, and the broker's positions
  -- are sound and it holds no shares when a run begins, the run ends,
  -- completed or failed, with the same shares of every symbol in the engine's table and with the
  -- broker, and with some of each position of the engine.
  pub run-IsCoupled :
      {M : Type 0} (ind : Indicators D)
      (calculator : Engine D → BacktestConfig D → Outcome EngineError M) (config : BacktestConfig D)
      (e : Engine D)
      → Reads config
      → AllSound e.broker
      → ((k : String) → held_quantity k e.broker.positions ≡ pos 0)
      → IsCoupled (run ind calculator config e).1
  unfolding reset_state lookup
  run-IsCoupled ind calculator config e reads sound flat =
      Moves-IsCoupled config reads (started config e) (run ind calculator config e).1
        (run-Moves ind config calculator e)
        (record { sound = sound; same = flat; positive = λ k p found. cc })
