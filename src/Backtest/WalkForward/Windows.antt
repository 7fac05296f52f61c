-- ===== src/Backtest/WalkForward/Windows.antt =====
-- `generate_windows`, on fuel. `add_months` is `date + relativedelta(months=n)`.
use stock_trading_agent.Base.{
  ℕ, zero, suc, ◌+◌, ◌-◌, Option, none, some, List, [], ◌∷◌, ltb, if◌then◌else◌,
}

pub record Window : Type 0 where
  pub is_start : ℕ
  pub is_end : ℕ
  pub oos_start : ℕ
  pub oos_end : ℕ

module _ (add_months : ℕ → ℕ → ℕ) (end_date window_months oos_months : ℕ) where
  -- The window at a cursor. A date is at least 1, so the days before it are numbers too.
  unfoldable pub window_at : ℕ → Window
  window_at cursor =
      let is_end = add_months cursor window_months - 1 in
      let oos_start = is_end + 1 in
      record {
        is_start = cursor;
        is_end = is_end;
        oos_start = oos_start;
        oos_end = add_months oos_start oos_months - 1;
      }

  abbrev pub put : Window → Option (List Window) → Option (List Window)
  put w none = none
  put w (some ws) = some (w ∷ ws)

  -- The rounds of the `while` loop; nothing where the fuel runs out.
  unfoldable pub windows_from : ℕ → ℕ → Option (List Window)
  unfolding window_at
  windows_from zero cursor = none
  windows_from (suc fuel) cursor =
      let rest = windows_from fuel (window_at cursor).oos_start in
      if ltb end_date (window_at cursor).oos_end then some [] else put (window_at cursor) rest

  -- A round for each day up to the end, and one more, is enough; see Tiling.
  unfoldable pub generate_windows : ℕ → Option (List Window)
  unfolding windows_from
  generate_windows start_date = windows_from (suc (suc (end_date - start_date))) start_date
