-- ===== src/Backtest/Engine/Limits.antt =====
-- The limits of a run: how many positions are held, and what waits.
use stock_trading_agent.Base.{
  ℕ, suc, false, List, [], ◌∷◌, ◌++◌, String, ◌≡◌, refl, arith, str_eq, str_eq_iff, length, any,
  ◌≤◌,
}
use stock_trading_agent.Base.Int.{ℤ, pos, ◌≤ℤ◌}
use stock_trading_agent.Base.Dict.{Dict, remove, insert}
use stock_trading_agent.Base.Effects.{Outcome, for_each}
use stock_trading_agent.Base.Effects.Traces.{Trace-keeps, joined, for_each-Along}
use stock_trading_agent.Decimal.{Decimal}
use stock_trading_agent.Core.Models.{BacktestConfig, Signal}
use stock_trading_agent.Backtest.Engine.State.{Engine, EngineError, reset_state}
use stock_trading_agent.Backtest.Engine.Caps.{risk_check-Passed}
use stock_trading_agent.Backtest.Engine.Exits.{move_out}
use stock_trading_agent.Backtest.Engine.Entries.{record_entry, record_snapshot}
use stock_trading_agent.Backtest.Engine.Indicators.{Indicators}
use stock_trading_agent.Backtest.Engine.Signals.{is_taken}
use stock_trading_agent.Backtest.Engine.Run.{run, run_day, prepare, started}
use stock_trading_agent.Backtest.Engine.Moves.{Move}
use stock_trading_agent.Backtest.Engine.Refines.{run-Moves, run_day-Along, prepare-Along}

length-remove : {V : Type 0} (k : String) (ps : Dict V) → length (remove k ps) ≤ length ps
unfolding remove
length-remove k [] = omega arith
length-remove k ((j, v) ∷ ps) = ground (arith, length-remove k ps)

length-insert :
    {V : Type 0} (k : String) (v : V) (ps : Dict V) → length (insert k v ps) ≤ suc (length ps)
unfolding insert
length-insert k v [] = omega arith
length-insert k v ((j, w) ∷ ps) = ground (arith, length-insert k v ps)

-- Each signal is for another symbol.
abbrev pub AllDistinct : {D : Type 0} → List (Signal D) → Type 0
AllDistinct [] = Unit {0}
AllDistinct (s ∷ ss) = (any (λ t. str_eq t.symbol s.symbol) ss ≡ false) × AllDistinct ss

module _ {D : Type 0} ⦃d : Decimal D⦄ where
  any-append :
      (t s : Signal D) (ss : List (Signal D))
      → any (λ x. str_eq x.symbol t.symbol) ss ≡ false
      → str_eq s.symbol t.symbol ≡ false
      → any (λ x. str_eq x.symbol t.symbol) (ss ++ (s ∷ [])) ≡ false
  any-append t s [] h fresh = ground arith
  any-append t s (x ∷ ss) h fresh = ground (arith, any-append t s ss)

  append-AllDistinct :
      (s : Signal D) (ss : List (Signal D))
      → any (λ t. str_eq t.symbol s.symbol) ss ≡ false
      → AllDistinct ss
      → AllDistinct (ss ++ (s ∷ []))
  append-AllDistinct s [] fresh h = (refl, tt)
  append-AllDistinct s (t ∷ ss) fresh (h, hs) = (
    any-append t s ss h
        (ground (arith, str_eq_iff t.symbol s.symbol, str_eq_iff s.symbol t.symbol)),
    append-AllDistinct s ss (ground arith) hs,
  )

  -- What a run keeps to: no more positions than allowed, and one signal for a symbol at most.
  pub record Orderly (limit : ℤ) (held : ℕ) (waiting : List (Signal D)) : Type 0 where
    pub room : pos held ≤ℤ limit
    pub distinct : AllDistinct waiting

  abbrev pub IsOrderly : Engine D → Type 0
  IsOrderly e = Orderly e.settings.max_portfolio_positions (length e.positions) e.pending_signals

  Move-IsOrderly :
      (config : BacktestConfig D) (e e' : Engine D) → Move config e e' → IsOrderly e → IsOrderly e'
  unfolding move_out record_entry record_snapshot is_taken
  Move-IsOrderly config e e' (Move.replay_loaded r) h = h
  Move-IsOrderly config e e' Move.day_started h = h
  Move-IsOrderly config e e' (Move.date_set today) h = h
  Move-IsOrderly config e e' (Move.high_noted highs) h = h
  Move-IsOrderly config e e' (Move.sold today symbol p close reason r held positive accepted) h =
      record {
        room = omega (arith, h.room, length-remove symbol e.positions);
        distinct = h.distinct;
      }
  Move-IsOrderly config e e' (Move.trade_noted trades) h = h
  Move-IsOrderly config e e' Move.signals_taken h = record { room = h.room; distinct = tt }
  Move-IsOrderly config e e' (Move.entered today signal quantity price r rules read passed accepted)
        h =
      let allowed = risk_check-Passed signal.symbol signal.quantity quantity price e passed in
      record {
        room = omega (arith, allowed.room, length-insert signal.symbol _ e.positions);
        distinct = h.distinct;
      }
  Move-IsOrderly config e e' (Move.unrecorded signal quantity price r unread passed accepted) h = h
  Move-IsOrderly config e e' (Move.signalled s free entry) h = record {
    room = h.room;
    distinct = append-AllDistinct s e.pending_signals (ground arith) h.distinct;
  }
  Move-IsOrderly config e e' (Move.snapshot_taken today) h = h

  -- From the state in which the loop over the days starts, after any days, whether or not one of them
  -- fails, no more positions are held than the settings allow (which is not negative), and no two
  -- waiting signals are for one symbol; and the same holds at the end of the run.
  pub run-IsOrderly :
      {M : Type 0} (ind : Indicators D)
      (calculator : Engine D → BacktestConfig D → Outcome EngineError M) (config : BacktestConfig D)
      (e : Engine D)
      → pos 0 ≤ℤ e.settings.max_portfolio_positions
      → ((days : List ℕ)
          → IsOrderly
              (for_each days
                (run_day ind config)
                (prepare config config.mode (started config e)).1).1)
        × IsOrderly (run ind calculator config e).1
  unfolding reset_state
  run-IsOrderly ind calculator config e h =
      let orderly : IsOrderly (started config e) = record { room = h; distinct = tt } in
      let prepared = prepare-Along ind config config.mode (started config e) in
      (
        λ days.
            Trace-keeps (Move config) IsOrderly (Move-IsOrderly config)
              (joined (Move config) prepared (
                for_each-Along days (run_day ind config) (run_day-Along ind config)
                  (prepare config config.mode (started config e)).1))
              orderly,
        Trace-keeps (Move config) IsOrderly (Move-IsOrderly config)
            (run-Moves ind config calculator e) orderly,
      )
