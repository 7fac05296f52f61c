-- ===== src/Strategy/PortfolioState/Peak.antt =====
-- The peak that the drawdown is measured from.
use stock_trading_agent.Base.{
  ℕ, ◌≡◌, refl, arith, some, none, List, [], ◌∷◌, map, keep, str_eq, Bool-cases, ◌⊎◌, inl, inr,
}
use stock_trading_agent.Base.All.{All, Among}
use stock_trading_agent.Base.Int.{pos}
use stock_trading_agent.Decimal.{Decimal, dec, lt, le, max, ◌≤◌, ◌-◌, ◌/◌}
use stock_trading_agent.Decimal.Laws.{IsOrdered}
use stock_trading_agent.Core.Models.{AccountBalance, DateTime, Position}
use stock_trading_agent.Strategy.PortfolioState.{
  PortfolioStateService, get_sector_allocations, get_peak_value, highest, current_drawdown,
  get_current_state,
}

module _ {D : Type 0} ⦃d : Decimal D⦄ where
  -- `peak` is the greatest of `best` and the values.
  record IsHighest (best : D) (vs : List D) (peak : D) : Type 0 where
    over_best : best ≤ peak
    over_all : All (λ v. v ≤ peak) vs
    reached : (peak ≡ best) ⊎ Among peak vs

  -- The totals of the account's rows.
  abbrev pub saved_totals : PortfolioStateService D → List D
  saved_totals s =
      map (λ r. r.total_value) (keep (λ r. str_eq r.account_id s.account_id) s.snapshots)

  -- `peak` is the greatest of `total` and the totals that were saved, or of `total` and zero where none
  -- was.
  pub record IsPeak (total : D) (saved : List D) (peak : D) : Type 0 where
    pub over_total : total ≤ peak
    pub over_saved : All (λ v. v ≤ peak) saved
    pub reached : (peak ≡ total) ⊎ (Among peak saved ⊎ ((saved ≡ []) × (peak ≡ dec 0)))

  -- The allocations change nothing but the cache.
  get_peak_value-allocations :
      (ps : List (Position D)) (total : D) (s : PortfolioStateService D)
      → get_peak_value (get_sector_allocations ps total s).1 ≡ highest none (saved_totals s)
  unfolding get_peak_value get_sector_allocations
  get_peak_value-allocations [] total s = refl
  get_peak_value-allocations (p ∷ ps) total s = elim (Bool-cases (le total (dec 0))) [
    | inl worthless ↦ rw worthless refl
    | inr valued ↦ rw valued refl
  ]

  module _ (o : IsOrdered D) where
    highest-IsHighest : (best : D) (vs : List D) → IsHighest best vs (highest (some best) vs)
    unfolding highest
    highest-IsHighest best [] = record {
      over_best = o.le_refl best;
      over_all = tt;
      reached = inl refl;
    }
    highest-IsHighest best (v ∷ vs) = elim (Bool-cases (lt best v)) [
      | inl higher ↦
          let h = highest-IsHighest v vs in
          rw higher (record {
            over_best =
                o.le_trans best v (highest (some v) vs) (o.le_of_lt best v higher) h.over_best;
            over_all = (h.over_best, h.over_all);
            reached = inr h.reached;
          })
      | inr lower ↦
          let h = highest-IsHighest best vs in
          rw lower (record {
            over_best = h.over_best;
            over_all = (o.le_trans v best (highest (some best) vs) lower h.over_best, h.over_all);
            reached = elim h.reached [ inl same ↦ inl same | inr among ↦ inr (inr among) ];
          })
    ]

    over_trans :
        (low high : D) (vs : List D) → low ≤ high → All (λ v. v ≤ low) vs → All (λ v. v ≤ high) vs
    over_trans low high [] h all = tt
    over_trans low high (v ∷ vs) h (first, rest) =
        (o.le_trans v low high first h, over_trans low high vs h rest)

    max-IsPeak : (total : D) (saved : List D) → IsPeak total saved (max (highest none saved) total)
    unfolding highest
    max-IsPeak total [] = elim (Bool-cases (lt (dec 0) total)) [
      | inl higher ↦
          rw higher (record { over_total = o.le_refl total; over_saved = tt; reached = inl refl })
      | inr lower ↦
          rw lower
            (record { over_total = lower; over_saved = tt; reached = inr (inr (refl, refl)) })
    ]
    max-IsPeak total (v ∷ vs) =
        let top = highest (some v) vs in
        let h = highest-IsHighest v vs in
        elim (Bool-cases (lt top total)) [
          | inl higher ↦ rw higher (record {
            over_total = o.le_refl total;
            over_saved =
                over_trans top total (v ∷ vs) (o.le_of_lt top total higher)
                  (h.over_best, h.over_all);
            reached = inl refl;
          })
          | inr lower ↦ rw lower (record {
            over_total = lower;
            over_saved = (h.over_best, h.over_all);
            reached = inr (inl h.reached);
          })
        ]

    current_drawdown-nonneg : (peak total : D) → total ≤ peak → dec 0 ≤ current_drawdown peak total
    unfolding current_drawdown
    current_drawdown-nonneg peak total h = elim (Bool-cases (lt (dec 0) peak)) [
      | inl positive ↦ rw positive (
          o.times_nonneg ((peak - total) / peak) (dec 100)
            (o.over_nonneg (peak - total) peak (o.minus_nonneg total peak h) positive)
            (o.of_int_mono (pos 0) (pos 100) (omega arith)))
      | inr worthless ↦ rw worthless (o.le_refl (dec 0))
    ]

    -- With correctly rounded arithmetic, the state's peak is the greatest of the present total and all
    -- totals in the account's rows, or of the present total and zero where there are no rows, and the
    -- drawdown from it is not negative.
    pub get_current_state-IsPeak :
        (balance : AccountBalance D) (ps : List (Position D)) (today : ℕ) (now : DateTime)
        (s : PortfolioStateService D)
        → let state = (get_current_state balance ps today now s).0 in
          IsPeak balance.total_assets (saved_totals s) state.peak_value
          × (dec 0 ≤ state.drawdown_pct)
    unfolding get_current_state
    get_current_state-IsPeak balance ps today now s =
        let h = max-IsPeak balance.total_assets (saved_totals s) in
        let same = get_peak_value-allocations ps balance.total_assets s in
        let peak = max (highest none (saved_totals s)) balance.total_assets in
        (rw same h, rw same (current_drawdown-nonneg peak balance.total_assets h.over_total))
