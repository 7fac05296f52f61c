-- ===== src/Report/Metrics/Drawdown.antt =====
-- The maximum drawdown, against the list of all drawdowns.
use stock_trading_agent.Base.{
  ◌≡◌, refl, Bool, true, false, List, [], ◌∷◌, map, ◌⊎◌, inl, inr, ◌&&◌, if◌then◌else◌,
}
use stock_trading_agent.Base.All.{All, Among}
use stock_trading_agent.Decimal.{Decimal, ◌-◌, ◌*◌, ◌/◌, dec, lt, max, quantize, ◌≤◌}
use stock_trading_agent.Decimal.Laws.{IsOrdered}
use stock_trading_agent.Backtest.Engine.State.{PortfolioSnapshot}
use stock_trading_agent.Report.Metrics.{
  by_date, drawdown_step, drawdown_loop, deepest, calculate_max_drawdown,
}

module _ {D : Type 0} ⦃d : Decimal D⦄ where
  abbrev pub fall_of : D → D → D
  fall_of peak value = (peak - value) / peak * dec 100

  -- The fall of each value from the highest one so far, where that is positive.
  abbrev pub falls : D → List D → List D
  falls peak [] = []
  falls peak (v ∷ vs) =
      let rest = falls (max peak v) vs in
      if lt (dec 0) (max peak v) then fall_of (max peak v) v ∷ rest else rest

  abbrev pub falls_of : List D → List D
  falls_of [] = []
  falls_of (v ∷ vs) = falls v (v ∷ vs)

  -- `worst` is the greatest of `first` and the falls.
  pub record IsWorst (first : D) (xs : List D) (worst : D) : Type 0 where
    pub over_first : first ≤ worst
    pub over_all : All (λ x. x ≤ worst) xs
    pub reached : (worst ≡ first) ⊎ Among worst xs

  module _ (o : IsOrdered D) where
    -- One more fall in front, which the step takes where it is deeper.
    step-IsWorst :
        (above deeper : Bool) (max_dd fall worst : D) (xs : List D)
        → lt max_dd fall ≡ deeper
        → IsWorst (if above && deeper then fall else max_dd) xs worst
        → IsWorst max_dd (if above then fall ∷ xs else xs) worst
    step-IsWorst false deeper max_dd fall worst xs e h = h
    step-IsWorst true true max_dd fall worst xs e h = record {
      over_first = o.le_trans max_dd fall worst (o.le_of_lt max_dd fall e) h.over_first;
      over_all = (h.over_first, h.over_all);
      reached = elim h.reached [ inl same ↦ inr (inl same) | inr among ↦ inr (inr among) ];
    }
    step-IsWorst true false max_dd fall worst xs e h = record {
      over_first = h.over_first;
      over_all = (o.le_trans fall max_dd worst e h.over_first, h.over_all);
      reached = elim h.reached [ inl same ↦ inl same | inr among ↦ inr (inr among) ];
    }

    drawdown_loop-IsWorst :
        (peak max_dd : D) (vs : List D)
        → IsWorst max_dd (falls peak vs) (drawdown_loop peak max_dd vs)
    unfolding drawdown_loop drawdown_step
    drawdown_loop-IsWorst peak max_dd [] = record {
      over_first = o.le_refl max_dd;
      over_all = tt;
      reached = inl refl;
    }
    drawdown_loop-IsWorst peak max_dd (v ∷ vs) =
        let high = max peak v in
        let fall = fall_of high v in
        step-IsWorst (lt (dec 0) high) (lt max_dd fall) max_dd fall
          (drawdown_loop peak max_dd (v ∷ vs)) (falls high vs) refl
          (drawdown_loop-IsWorst high (drawdown_step high max_dd v) vs)

    deepest-IsWorst : (vs : List D) → IsWorst (dec 0) (falls_of vs) (deepest vs)
    deepest-IsWorst [] = record {
      over_first = o.le_refl (dec 0);
      over_all = tt;
      reached = inl refl;
    }
    deepest-IsWorst (v ∷ vs) = drawdown_loop-IsWorst v (dec 0) (v ∷ vs)

    -- The maximum drawdown is, to two places, the greatest of zero and of the falls of all values, in
    -- the order of their dates, from the highest one so far: none is greater, and it is one of them.
    -- For decimals that round correctly.
    pub calculate_max_drawdown-IsWorst :
        (s : PortfolioSnapshot D) (ss : List (PortfolioSnapshot D))
        → (worst : D) × (calculate_max_drawdown (s ∷ ss) ≡ quantize 2 worst)
          × IsWorst (dec 0) (falls_of (map (λ t. t.total_value) (by_date (s ∷ ss)))) worst
    unfolding calculate_max_drawdown
    calculate_max_drawdown-IsWorst s ss =
        let values = map (λ t. t.total_value) (by_date (s ∷ ss)) in
        (deepest values, refl, deepest-IsWorst values)
