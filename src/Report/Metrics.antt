-- ===== src/Report/Metrics.antt =====
-- `PerformanceCalculator` (src/report/metrics.py). Powers and roots of decimals are a parameter.
pub mod Drawdown
pub mod Trades
use stock_trading_agent.Base.{
  ℕ, suc, ◌+◌, ◌-◌, ◌&&◌, Bool, true, false, not, Option, none, some, List, [], ◌∷◌, map, keep,
  length, ltb, ◌==◌, if◌then◌else◌,
}
use stock_trading_agent.Base.Effects.{Outcome, ok, err}
use stock_trading_agent.Base.Sorting.{sorted}
use stock_trading_agent.Decimal.{
  Decimal, ◌+◌ as ◌⊕◌, ◌-◌ as ◌⊖◌, ◌*◌, ◌/◌, dec, lt, eq, abs, quantize, sum_from,
}
use stock_trading_agent.Core.Models.{PerformanceMetrics}
use stock_trading_agent.Backtest.Engine.State.{PortfolioSnapshot}
use stock_trading_agent.Strategy.PositionManager.{PositionRecord}

-- `x ** y`, which refuses a fractional power of a negative number, and `x.sqrt()`, which is asked for
-- means of squares and for numbers of days only.
pub record Powers (D : Type 0) : Type 0 where
  pub pow : D → D → Option D
  pub sqrt : D → D

-- `decimal.InvalidOperation`
pub data MetricsError : Type 0 where
  invalid_operation : MetricsError

module _ {D : Type 0} ⦃d : Decimal D⦄ where
  -- The mean of a list that is not empty.
  abbrev pub mean_of : List D → D
  mean_of xs = sum_from (dec 0) xs / dec (length xs)

  -- `(sum(xs) / len(xs)).quantize(_Q2) if xs else 0`
  unfoldable pub rounded_mean : List D → D
  rounded_mean [] = dec 0
  rounded_mean (x ∷ xs) = quantize 2 (mean_of (x ∷ xs))

  abbrev pub by_date : List (PortfolioSnapshot D) → List (PortfolioSnapshot D)
  by_date snapshots = sorted (λ s. s.snapshot_date) snapshots

  -- The returns in percent from value to value; a value of zero gives none.
  unfoldable pub returns_from : D → List D → List D
  returns_from prev_val [] = []
  returns_from prev_val (curr_val ∷ vs) =
      let rest = returns_from curr_val vs in
      if eq prev_val (dec 0) then rest else ((curr_val ⊖ prev_val) / prev_val * dec 100) ∷ rest

  abbrev pub returns_of : List D → List D
  returns_of [] = []
  returns_of (v ∷ vs) = returns_from v vs

  unfoldable pub daily_returns_from_snapshots : List (PortfolioSnapshot D) → List D
  unfolding returns_from
  daily_returns_from_snapshots snapshots = returns_of (map (λ s. s.total_value) (by_date snapshots))

  -- The loop of `calculate_max_drawdown`: the peak so far, and the deepest fall from it.
  unfoldable pub drawdown_step : D → D → D → D
  drawdown_step peak max_dd value =
      let dd = (peak ⊖ value) / peak * dec 100 in
      if lt (dec 0) peak && lt max_dd dd then dd else max_dd

  abbrev pub raised_peak : D → D → D
  raised_peak peak value = if lt peak value then value else peak

  unfoldable pub drawdown_loop : D → D → List D → D
  unfolding drawdown_step
  drawdown_loop peak max_dd [] = max_dd
  drawdown_loop peak max_dd (v ∷ vs) =
      drawdown_loop (raised_peak peak v) (drawdown_step (raised_peak peak v) max_dd v) vs

  abbrev pub deepest : List D → D
  deepest [] = dec 0
  deepest (v ∷ vs) = drawdown_loop v (dec 0) (v ∷ vs)

  unfoldable pub calculate_max_drawdown : List (PortfolioSnapshot D) → D
  unfolding drawdown_loop
  calculate_max_drawdown [] = dec 0
  calculate_max_drawdown (s ∷ ss) =
      quantize 2 (deepest (map (λ t. t.total_value) (by_date (s ∷ ss))))

  -- The two branches of the loops over the closed positions.
  abbrev pub is_win : PositionRecord D → Bool
  is_win p = elim p.realized_pnl [ none ↦ false | some pnl ↦ lt (dec 0) pnl ]

  abbrev pub is_loss : PositionRecord D → Bool
  is_loss p = elim p.realized_pnl [ none ↦ false | some pnl ↦ not (lt (dec 0) pnl) ]

  -- The counts of the loop of `calculate_win_rate`.
  unfoldable pub count_trades : ℕ → ℕ → List (PositionRecord D) → ℕ × ℕ
  count_trades wins losses [] = (wins, losses)
  count_trades wins losses (p ∷ ps) =
      let won = count_trades (suc wins) losses ps in
      let lost = count_trades wins (suc losses) ps in
      let passed = count_trades wins losses ps in
      if is_win p then won else if is_loss p then lost else passed

  unfoldable pub calculate_win_rate : List (PositionRecord D) → D × ℕ × ℕ
  unfolding count_trades
  calculate_win_rate ps =
      let (wins, losses) = count_trades 0 0 ps in
      if wins + losses == 0
      then (dec 0, 0, 0)
      else (quantize 2 (dec wins / dec (wins + losses) * dec 100), wins, losses)

  -- The profits and the losses of the loop of `calculate_profit_factor`.
  unfoldable pub profits_and_losses : D → D → List (PositionRecord D) → D × D
  profits_and_losses total_profit total_loss [] = (total_profit, total_loss)
  profits_and_losses total_profit total_loss (p ∷ ps) = elim p.realized_pnl [
    | none ↦ profits_and_losses total_profit total_loss ps
    | some pnl ↦
        let gained = profits_and_losses (total_profit ⊕ pnl) total_loss ps in
        let lost = profits_and_losses total_profit (total_loss ⊕ abs pnl) ps in
        let even = profits_and_losses total_profit total_loss ps in
        if lt (dec 0) pnl then gained else if lt pnl (dec 0) then lost else even
  ]

  unfoldable pub calculate_profit_factor : List (PositionRecord D) → Option D
  unfolding profits_and_losses
  calculate_profit_factor ps =
      let (total_profit, total_loss) = profits_and_losses (dec 0) (dec 0) ps in
      if eq total_loss (dec 0)
      then none
      else if eq total_profit (dec 0)
      then some (dec 0)
      else some (quantize 2 (total_profit / total_loss))

  -- The gain of a closed position in percent of its entry.
  unfoldable pub trade_pct : PositionRecord D → Option D
  trade_pct p = elim p.exit_price [
    | none ↦ none
    | some exit_price ↦
        if eq p.entry_price (dec 0)
        then none
        else some ((exit_price ⊖ p.entry_price) / p.entry_price * dec 100)
  ]

  unfoldable pub win_pcts : List (PositionRecord D) → List D
  unfolding trade_pct
  win_pcts [] = []
  win_pcts (p ∷ ps) = elim (trade_pct p) [
    | none ↦ win_pcts ps
    | some pct ↦ let rest = win_pcts ps in if is_win p then pct ∷ rest else rest
  ]

  unfoldable pub loss_pcts : List (PositionRecord D) → List D
  unfolding trade_pct
  loss_pcts [] = []
  loss_pcts (p ∷ ps) = elim (trade_pct p) [
    | none ↦ loss_pcts ps
    | some pct ↦ let rest = loss_pcts ps in if is_loss p then abs pct ∷ rest else rest
  ]

  unfoldable pub calculate_avg_win_loss : List (PositionRecord D) → D × D
  unfolding rounded_mean win_pcts loss_pcts
  calculate_avg_win_loss ps = (rounded_mean (win_pcts ps), rounded_mean (loss_pcts ps))

  -- The return of the period, from the first value to the last.
  abbrev pub last_value : D → List D → D
  last_value v [] = v
  last_value v (w ∷ ws) = last_value w ws

  unfoldable pub total_return_of : List D → D
  total_return_of [] = dec 0
  total_return_of (v ∷ []) = dec 0
  total_return_of (v ∷ w ∷ ws) =
      if eq v (dec 0) then dec 0 else quantize 2 ((last_value w ws ⊖ v) / v * dec 100)

  module _ (powers : Powers D) where
    unfoldable pub rf_daily_pct : D → ℕ → Option D
    rf_daily_pct risk_free_rate trading_days =
        elim (powers.pow (dec 1 ⊕ risk_free_rate / dec 100) (dec 1 / dec trading_days)) [
          | none ↦ none
          | some growth ↦ some ((growth ⊖ dec 1) * dec 100)
        ]

    -- A ratio over a deviation that is not zero, for a year of `trading_days`.
    abbrev pub ratio_over : D → D → D → ℕ → Option D
    ratio_over mean_ret rf_daily deviation trading_days =
        if eq deviation (dec 0)
        then none
        else some (quantize 4 ((mean_ret ⊖ rf_daily) / deviation * powers.sqrt (dec trading_days)))

    -- `sum((x - center) ** 2 for x in xs) / len(xs)`, and its root.
    abbrev pub deviation_from : D → List D → D
    deviation_from center xs = powers.sqrt (mean_of (map (λ x. (x ⊖ center) * (x ⊖ center)) xs))

    -- The ratios are `ok none` where the code returns `None`.
    unfoldable pub calculate_sharpe_ratio : List D → D → ℕ → Outcome MetricsError (Option D)
    unfolding rf_daily_pct
    calculate_sharpe_ratio daily_returns risk_free_rate trading_days =
        if ltb (length daily_returns) 2
        then ok none
        else elim (rf_daily_pct risk_free_rate trading_days) [
          | none ↦ err invalid_operation
          | some rf_daily ↦
              let mean_ret = mean_of daily_returns in
              ok (ratio_over mean_ret rf_daily (deviation_from mean_ret daily_returns) trading_days)
        ]

    abbrev pub sortino_over : List D → D → ℕ → List D → Option D
    sortino_over daily_returns rf_daily trading_days [] = none
    sortino_over daily_returns rf_daily trading_days (r ∷ downside) =
        ratio_over (mean_of daily_returns) rf_daily (deviation_from rf_daily (r ∷ downside))
          trading_days

    unfoldable pub calculate_sortino_ratio : List D → D → ℕ → Outcome MetricsError (Option D)
    unfolding rf_daily_pct
    calculate_sortino_ratio daily_returns risk_free_rate trading_days =
        if ltb (length daily_returns) 2
        then ok none
        else elim (rf_daily_pct risk_free_rate trading_days) [
          | none ↦ err invalid_operation
          | some rf_daily ↦ ok (
              sortino_over daily_returns rf_daily trading_days
                (keep (λ r. lt r rf_daily) daily_returns))
        ]

    -- The return of a year, where the period has days and a return.
    unfoldable pub annualized_of : D → ℕ → Outcome MetricsError (Option D)
    annualized_of total_return days =
        if eq total_return (dec 0)
        then ok none
        else if days == 0
        then ok none
        else elim (powers.pow (dec 1 ⊕ total_return / dec 100) (dec 365 / dec days)) [
          | none ↦ err invalid_operation
          | some growth ↦ ok (some (quantize 2 ((growth ⊖ dec 1) * dec 100)))
        ]

    -- `PerformanceCalculator.calculate`, with the three results that may raise. A period that ends
    -- before it begins has no days here, as the code treats it.
    unfoldable pub collected :
        List (PositionRecord D)
        → List (PortfolioSnapshot D)
        → ℕ
        → ℕ
        → Option D
        → Option D
        → Option D
        → PerformanceMetrics D
    collected ps snapshots period_start period_end sharpe sortino annualized =
        let (win_rate, wins, losses) = calculate_win_rate ps in
        let (avg_win, avg_loss) = calculate_avg_win_loss ps in
        record {
          period_start = period_start;
          period_end = period_end;
          total_return_pct = total_return_of (map (λ s. s.total_value) (by_date snapshots));
          annualized_return_pct = annualized;
          sharpe_ratio = sharpe;
          sortino_ratio = sortino;
          max_drawdown_pct = calculate_max_drawdown snapshots;
          win_rate_pct = win_rate;
          avg_win_pct = avg_win;
          avg_loss_pct = avg_loss;
          profit_factor = calculate_profit_factor ps;
          total_trades = wins + losses;
          winning_trades = wins;
          losing_trades = losses;
        }

    unfoldable pub calculate_performance :
        List (PositionRecord D)
        → List (PortfolioSnapshot D)
        → ℕ
        → ℕ
        → D
        → Outcome MetricsError (PerformanceMetrics D)
    unfolding calculate_sharpe_ratio calculate_sortino_ratio annualized_of collected
    calculate_performance ps snapshots period_start period_end risk_free_rate =
        let returns = daily_returns_from_snapshots snapshots in
        let total_return = total_return_of (map (λ s. s.total_value) (by_date snapshots)) in
        elim (calculate_sharpe_ratio returns risk_free_rate 252) [
          | err x ↦ err x
          | ok sharpe ↦ elim (calculate_sortino_ratio returns risk_free_rate 252) [
            | err x ↦ err x
            | ok sortino ↦ elim (annualized_of total_return (period_end - period_start)) [
              | err x ↦ err x
              | ok annualized ↦
                  ok (collected ps snapshots period_start period_end sharpe sortino annualized)
            ]
          ]
        ]
