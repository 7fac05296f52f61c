-- ===== src/Backtest/WalkForward.antt =====
-- `WalkForwardAnalyzer` (src/backtest/walk_forward.py). A date is the number of a day, and adding
-- months to one by `relativedelta` is a parameter.
pub mod Windows
pub mod Tiling
use stock_trading_agent.Base.{
  ℕ, suc, ◌+◌, Bool, Option, none, some, List, [], ◌∷◌, ◌++◌, map, somes, length, keep, ltb,
  if◌then◌else◌,
}
use stock_trading_agent.Base.Int.{pos}
use stock_trading_agent.Base.Effects.{Outcome}
use stock_trading_agent.Decimal.{Decimal, ◌*◌, ◌/◌, dec, lt, le, quantize, sum_from}
use stock_trading_agent.Core.Models.{
  BacktestConfig, PerformanceMetrics, WalkForwardResult, WalkForwardWindow,
}
use stock_trading_agent.Backtest.Engine.State.{Engine, EngineError}
use stock_trading_agent.Backtest.Engine.Indicators.{Indicators}
use stock_trading_agent.Backtest.Engine.Run.{BacktestResult, run}
use stock_trading_agent.Backtest.WalkForward.Windows.{Window, generate_windows}

-- `sum(x for x in ns)`
abbrev pub total : List ℕ → ℕ
total [] = 0
total (n ∷ ns) = n + total ns

module _ {D : Type 0} ⦃d : Decimal D⦄ where
  unfoldable pub empty_metrics : ℕ → ℕ → PerformanceMetrics D
  empty_metrics period_start period_end = record {
    period_start = period_start;
    period_end = period_end;
    total_return_pct = dec 0;
    annualized_return_pct = none;
    sharpe_ratio = none;
    sortino_ratio = none;
    max_drawdown_pct = dec 0;
    win_rate_pct = dec 0;
    avg_win_pct = dec 0;
    avg_loss_pct = dec 0;
    profit_factor = none;
    total_trades = 0;
    winning_trades = 0;
    losing_trades = 0;
  }

  abbrev pub metrics_or : ℕ → ℕ → Option (PerformanceMetrics D) → PerformanceMetrics D
  metrics_or first last none = empty_metrics first last
  metrics_or first last (some metrics) = metrics

  -- `(sum(xs) / n).quantize(_Q2)`
  abbrev pub mean : List D → ℕ → D
  mean xs n = quantize 2 (sum_from (dec 0) xs / dec n)

  -- The mean of the values that are there.
  unfoldable pub mean_of_known : List (Option D) → Option D
  mean_of_known xs = elim (somes xs) [ [] ↦ none | y ∷ ys ↦ some (mean (y ∷ ys) (length (y ∷ ys))) ]

  abbrev pub last_end : WalkForwardWindow D → List (WalkForwardWindow D) → ℕ
  last_end w [] = w.oos_end
  last_end w (v ∷ vs) = last_end v vs

  unfoldable pub aggregate_oos_metrics : List (WalkForwardWindow D) → ℕ → ℕ → PerformanceMetrics D
  unfolding mean_of_known
  aggregate_oos_metrics [] fallback_start fallback_end = empty_metrics fallback_start fallback_end
  aggregate_oos_metrics (w ∷ ws) fallback_start fallback_end =
      let all = w ∷ ws in
      let n = length all in
      let total_trades = total (map (λ v. v.oos_metrics.total_trades) all) in
      let winning = total (map (λ v. v.oos_metrics.winning_trades) all) in
      let losing = total (map (λ v. v.oos_metrics.losing_trades) all) in
      record {
        period_start = w.oos_start;
        period_end = last_end w ws;
        total_return_pct = mean (map (λ v. v.oos_metrics.total_return_pct) all) n;
        annualized_return_pct = none;
        sharpe_ratio = mean_of_known (map (λ v. v.oos_metrics.sharpe_ratio) all);
        sortino_ratio = mean_of_known (map (λ v. v.oos_metrics.sortino_ratio) all);
        max_drawdown_pct = mean (map (λ v. v.oos_metrics.max_drawdown_pct) all) n;
        win_rate_pct =
            if ltb 0 total_trades
            then quantize 2 (dec winning / dec total_trades * dec 100)
            else dec 0;
        avg_win_pct = mean (map (λ v. v.oos_metrics.avg_win_pct) all) n;
        avg_loss_pct = mean (map (λ v. v.oos_metrics.avg_loss_pct) all) n;
        profit_factor = mean_of_known (map (λ v. v.oos_metrics.profit_factor) all);
        total_trades = total_trades;
        winning_trades = winning;
        losing_trades = losing;
      }

  unfoldable pub consistency_ratio : List (WalkForwardWindow D) → D
  consistency_ratio [] = dec 0
  consistency_ratio (w ∷ ws) =
      let positive = keep (λ v. lt (dec 0) v.oos_metrics.total_return_pct) (w ∷ ws) in
      quantize 2 (dec (length positive) / dec (length (w ∷ ws)))

  unfoldable pub avg_oos_return : List (WalkForwardWindow D) → D
  avg_oos_return [] = dec 0
  avg_oos_return (w ∷ ws) =
      mean (map (λ v. v.oos_metrics.total_return_pct) (w ∷ ws)) (length (w ∷ ws))

  module _ (ind : Indicators D)
      (calculator : Engine D → BacktestConfig D → Outcome EngineError (PerformanceMetrics D)) where
    abbrev pub run_between :
        BacktestConfig D → ℕ → ℕ → Engine D → BacktestResult D (PerformanceMetrics D) × Engine D
    run_between config first last e =
        run ind calculator (record config { start_date = first; end_date = last }) e

    -- One window: the run inside the sample, then the run outside it, on the same engine.
    unfoldable pub run_window :
        BacktestConfig D → ℕ → Window → Engine D → WalkForwardWindow D × Engine D
    run_window config idx w e =
        let (is_result, e') = run_between config w.is_start w.is_end e in
        let (oos_result, e'') = run_between config w.oos_start w.oos_end e' in
        (
          record {
            window_index = idx;
            is_start = w.is_start;
            is_end = w.is_end;
            oos_start = w.oos_start;
            oos_end = w.oos_end;
            is_metrics = metrics_or w.is_start w.is_end is_result.metrics;
            oos_metrics = metrics_or w.oos_start w.oos_end oos_result.metrics;
            oos_trade_count = oos_result.total_trades;
          },
          e'',
        )

    -- The loop from index `idx` on.
    unfoldable pub run_windows :
        BacktestConfig D → ℕ → List Window → Engine D → List (WalkForwardWindow D) × Engine D
    unfolding run_window
    run_windows config idx [] e = ([], e)
    run_windows config idx (w ∷ ws) e =
        let (done, e') = run_window config idx w e in
        let (rest, e'') = run_windows config (suc idx) ws e' in (done ∷ rest, e'')

    -- `WalkForwardAnalyzer.run` on the windows that it generates. What it collects of positions and
    -- snapshots on the way is never read.
    unfoldable pub analyze :
        BacktestConfig D → ℕ → ℕ → List Window → Engine D → WalkForwardResult D × Engine D
    unfolding run_windows
    analyze config window_months oos_months windows_dates e =
        let (windows, e') = run_windows config 0 windows_dates e in
        let ratio = consistency_ratio windows in
        (
          record {
            window_months = window_months;
            oos_months = oos_months;
            windows = windows;
            aggregated_oos_metrics =
                aggregate_oos_metrics windows config.start_date config.end_date;
            consistency_ratio = ratio;
            avg_oos_return_pct = avg_oos_return windows;
            is_robust = le (dec 6 / dec 10) ratio;
          },
          e',
        )
