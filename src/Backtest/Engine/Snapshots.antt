-- ===== src/Backtest/Engine/Snapshots.antt =====
-- The daily snapshots of a run: the peak is never under a value, and the drawdown never negative.
use stock_trading_agent.Base.{ℕ, suc, List, [], ◌∷◌, ◌++◌, ◌≡◌, refl, arith, length}
use stock_trading_agent.Base.All.{All}
use stock_trading_agent.Base.Int.{pos}
use stock_trading_agent.Base.Effects.{Outcome}
use stock_trading_agent.Base.Effects.Traces.{Trace-keeps}
use stock_trading_agent.Decimal.{Decimal, ◌≤◌, max, dec, ◌-◌, ◌*◌, ◌/◌}
use stock_trading_agent.Decimal.Laws.{IsOrdered}
use stock_trading_agent.Core.Models.{BacktestConfig}
use stock_trading_agent.Backtest.Simulator.Market.{get_total_value}
use stock_trading_agent.Backtest.Engine.State.{Engine, EngineError, PortfolioSnapshot, reset_state}
use stock_trading_agent.Backtest.Engine.Exits.{move_out}
use stock_trading_agent.Backtest.Engine.Entries.{record_entry, record_snapshot, drawdown_of}
use stock_trading_agent.Backtest.Engine.Indicators.{Indicators}
use stock_trading_agent.Backtest.Engine.Run.{run}
use stock_trading_agent.Backtest.Engine.Moves.{Move}
use stock_trading_agent.Backtest.Engine.Refines.{run-Moves}

module _ {D : Type 0} ⦃d : Decimal D⦄ where
  -- A snapshot of a run that began with `capital`, and has reached `peak`.
  pub record IsCharted (capital peak : D) (s : PortfolioSnapshot D) : Type 0 where
    pub from_start : capital ≤ s.peak_value
    pub over_value : s.total_value ≤ s.peak_value
    pub so_far : s.peak_value ≤ peak
    pub drawdown : dec 0 ≤ s.drawdown_pct

  -- The snapshots are numbered from 1, and each is charted.
  pub record Chart (capital peak : D) (count : ℕ) (ss : List (PortfolioSnapshot D)) : Type 0 where
    pub charted : All (IsCharted capital peak) ss
    pub reached : capital ≤ peak
    pub numbered : count ≡ length ss

  abbrev pub AreCharted : D → Engine D → Type 0
  AreCharted capital e = Chart capital e.peak_value e.snapshot_id_counter e.snapshots

  module _ (o : IsOrdered D) where
    drawdown_of-nonneg : (peak value : D) → value ≤ peak → dec 0 ≤ drawdown_of peak value
    unfolding drawdown_of
    drawdown_of-nonneg peak value h = ground (
      arith,
      o.le_refl (dec 0),
      o.minus_nonneg value peak,
      o.over_nonneg (peak - value) peak,
      o.of_int_mono (pos 0) (pos 100),
      o.times_nonneg ((peak - value) / peak) (dec 100),
      o.quantize_nonneg 2 ((peak - value) / peak * dec 100),
    )

    max_upper : (x y : D) → (x ≤ max x y) × (y ≤ max x y)
    max_upper x y = ground (arith, o.le_of_lt x y, o.le_refl x, o.le_refl y)

    raised :
        (capital peak peak' : D) (ss : List (PortfolioSnapshot D))
        → peak ≤ peak'
        → All (IsCharted capital peak) ss
        → All (IsCharted capital peak') ss
    raised capital peak peak' [] up h = tt
    raised capital peak peak' (s ∷ ss) up (h, hs) = (
      record {
        from_start = h.from_start;
        over_value = h.over_value;
        so_far = o.le_trans s.peak_value peak peak' h.so_far up;
        drawdown = h.drawdown;
      },
      raised capital peak peak' ss up hs,
    )

    append-All :
        (P : PortfolioSnapshot D → Type 0) (ss : List (PortfolioSnapshot D))
        (s : PortfolioSnapshot D)
        → All P ss
        → P s
        → All P (ss ++ (s ∷ []))
    append-All P [] s hs h = (h, tt)
    append-All P (t ∷ ss) s (g, hs) h = (g, append-All P ss s hs h)

    append-length :
        (ss : List (PortfolioSnapshot D)) (s : PortfolioSnapshot D)
        → length (ss ++ (s ∷ [])) ≡ suc (length ss)
    append-length [] s = refl
    append-length (t ∷ ss) s = omega (arith, append-length ss s)

    record_snapshot-AreCharted :
        (capital : D) (today : ℕ) (e : Engine D)
        → AreCharted capital e
        → AreCharted capital (record_snapshot today e)
    unfolding record_snapshot
    record_snapshot-AreCharted capital today e h =
        let value = get_total_value e.broker in
        let peak = max e.peak_value value in
        let upper = max_upper e.peak_value value in
        let reached : capital ≤ peak = o.le_trans capital e.peak_value peak h.reached upper.0 in
        record {
          charted =
              append-All (IsCharted capital peak) e.snapshots _
                (raised capital e.peak_value peak e.snapshots upper.0 h.charted)
                (record {
                  from_start = reached;
                  over_value = upper.1;
                  so_far = o.le_refl peak;
                  drawdown = drawdown_of-nonneg peak value upper.1;
                });
          reached = reached;
          numbered = omega (arith, append-length e.snapshots _, h.numbered);
        }

    Move-AreCharted :
        (config : BacktestConfig D) (capital : D) (e e' : Engine D)
        → Move config e e'
        → AreCharted capital e
        → AreCharted capital e'
    unfolding move_out record_entry
    Move-AreCharted config capital e e' (Move.replay_loaded r) h = h
    Move-AreCharted config capital e e' Move.day_started h = h
    Move-AreCharted config capital e e' (Move.date_set today) h = h
    Move-AreCharted config capital e e' (Move.high_noted highs) h = h
    Move-AreCharted config capital e e'
          (Move.sold today symbol p close reason r held positive accepted) h =
        h
    Move-AreCharted config capital e e' (Move.trade_noted trades) h = h
    Move-AreCharted config capital e e' Move.signals_taken h = h
    Move-AreCharted config capital e e'
          (Move.entered today signal quantity price r rules read passed accepted) h =
        h
    Move-AreCharted config capital e e'
          (Move.unrecorded signal quantity price r unread passed accepted) h =
        h
    Move-AreCharted config capital e e' (Move.signalled s free entry) h = h
    Move-AreCharted config capital e e' (Move.snapshot_taken today) h =
        record_snapshot-AreCharted capital today e h

    -- At the end of a run, completed or failed, every snapshot's peak is at least the initial capital
    -- and the snapshot's own value, and at most the peak that the run ends with; no drawdown is
    -- negative; and as many snapshots are numbered as there are. For decimals that round correctly.
    pub run-AreCharted :
        {M : Type 0} (ind : Indicators D)
        (calculator : Engine D → BacktestConfig D → Outcome EngineError M)
        (config : BacktestConfig D) (e : Engine D)
        → AreCharted config.initial_capital (run ind calculator config e).1
    unfolding reset_state
    run-AreCharted ind calculator config e =
        Trace-keeps (Move config) (AreCharted config.initial_capital)
          (Move-AreCharted config config.initial_capital) (run-Moves ind config calculator e)
          (record { charted = tt; reached = o.le_refl config.initial_capital; numbered = refl })
