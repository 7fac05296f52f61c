-- ===== src/Report/Metrics/Trades.antt =====
-- The counts of winning and losing trades.
use stock_trading_agent.Base.{
  ℕ, suc, ◌+◌, ◌≡◌, arith, Bool, true, false, List, [], ◌∷◌, keep, length, none, some, Option-cases,
  inl, inr,
}
use stock_trading_agent.Decimal.{Decimal}
use stock_trading_agent.Strategy.PositionManager.{PositionRecord}
use stock_trading_agent.Report.Metrics.{is_win, count_trades, calculate_win_rate}

module _ {D : Type 0} ⦃d : Decimal D⦄ where
  -- The positions with a realized gain or loss.
  abbrev pub is_realized : PositionRecord D → Bool
  is_realized p = elim p.realized_pnl [ none ↦ false | some pnl ↦ true ]

  count_trades-keep :
      (wins losses : ℕ) (ps : List (PositionRecord D))
      → ((count_trades wins losses ps).0 ≡ wins + length (keep is_win ps))
        × ((count_trades wins losses ps).0 + (count_trades wins losses ps).1
            ≡ wins + losses + length (keep is_realized ps))
  unfolding count_trades
  count_trades-keep wins losses [] = (omega arith, omega arith)
  count_trades-keep wins losses (p ∷ ps) = elim (Option-cases p.realized_pnl) [
    | inl unknown ↦ ground (arith, count_trades-keep wins losses ps)
    | inr (pnl, known) ↦
        ground
          (arith, count_trades-keep (suc wins) losses ps, count_trades-keep wins (suc losses) ps)
  ]

  -- The calculator counts as won the closed positions with a gain, and as lost the other ones whose
  -- gain or loss is known.
  calculate_win_rate-counts :
      (ps : List (PositionRecord D))
      → let (rate, wins, losses) = calculate_win_rate ps in
        (wins ≡ length (keep is_win ps)) × (wins + losses ≡ length (keep is_realized ps))
  unfolding calculate_win_rate
  calculate_win_rate-counts ps = ground (arith, count_trades-keep 0 0 ps)
