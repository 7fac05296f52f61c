-- ===== src/Backtest/WalkForward/Tiling.antt =====
-- The loop over the windows ends, and how the windows lie.
use stock_trading_agent.Base.{
  ℕ, zero, suc, ◌+◌, ◌-◌, ◌≤◌, ◌<◌, ◌≡◌, some, List, [], ◌∷◌, arith, ap, ◌∙◌, ltb, Bool-cases, inl,
  inr,
}
use stock_trading_agent.Backtest.WalkForward.Windows.{
  Window, window_at, windows_from, generate_windows,
}

-- What `relativedelta` documents: months lead to a later date, and more months not to an earlier one.
pub record IsCalendar (add_months : ℕ → ℕ → ℕ) : Type 0 where
  pub no_earlier : (date : ℕ) → date ≤ add_months date 0
  pub later : (date n : ℕ) → date < add_months date (suc n)
  pub mono : (date m n : ℕ) → m ≤ n → add_months date m ≤ add_months date n

module _ (add_months : ℕ → ℕ → ℕ) (end_date window_months oos_months : ℕ) where
  -- The windows from a date on: each span inside the sample begins where the one before ended, and
  -- takes the months of a window; the span outside it begins the day after, takes its own months and
  -- ends by the last date. There is no further window only where the next one would end after that.
  pub data Tiles : ℕ → List Window → Type 0 where
    done :
        {cursor : ℕ}
        → suc end_date < add_months (add_months cursor window_months) oos_months
        → Tiles cursor []
    tile :
        {ws : List Window} (w : Window)
        → suc w.is_end ≡ add_months w.is_start window_months
        → w.oos_start ≡ suc w.is_end
        → suc w.oos_end ≡ add_months w.oos_start oos_months
        → w.is_start ≤ w.is_end
        → w.oos_end ≤ end_date
        → Tiles w.oos_start ws
        → Tiles w.is_start (w ∷ ws)

module _ (add_months : ℕ → ℕ → ℕ) (cal : IsCalendar add_months)
    (end_date months oos_months : ℕ) where
  later_start :
      (cursor : ℕ)
      → (cursor < (window_at add_months end_date (suc months) oos_months cursor).oos_start)
        × ((window_at add_months end_date (suc months) oos_months cursor).oos_start
            ≤ suc (window_at add_months end_date (suc months) oos_months cursor).oos_end)
  unfolding window_at
  later_start cursor =
      let start = add_months cursor (suc months) - 1 + 1 in
      (
        omega (arith, cal.later cursor months),
        omega (arith, cal.no_earlier start, cal.mono start 0 oos_months),
      )

  -- The spans of a window, from its start.
  abbrev window : ℕ → Window
  window = window_at add_months end_date (suc months) oos_months

  window-is_end : (cursor : ℕ) → suc (window cursor).is_end ≡ add_months cursor (suc months)
  unfolding window_at
  window-is_end cursor = omega (arith, cal.later cursor months)

  window-oos_start : (cursor : ℕ) → (window cursor).oos_start ≡ suc (window cursor).is_end
  unfolding window_at
  window-oos_start cursor = omega arith

  window-oos_end :
      (cursor : ℕ) → suc (window cursor).oos_end ≡ add_months (window cursor).oos_start oos_months
  unfolding window_at
  window-oos_end cursor =
      let start = add_months cursor (suc months) - 1 + 1 in
      omega (arith, cal.no_earlier start, cal.mono start 0 oos_months)

  window-spans : (cursor : ℕ) → cursor ≤ (window cursor).is_end
  unfolding window_at
  window-spans cursor = omega (arith, cal.later cursor months)

  -- A window that ends too late, in months from its start.
  window-over :
      (cursor : ℕ)
      → end_date < (window cursor).oos_end
      → suc end_date < add_months (add_months cursor (suc months)) oos_months
  window-over cursor over =
      let start : (window cursor).oos_start ≡ add_months cursor (suc months) =
        window-oos_start cursor ∙ window-is_end cursor in
      let ends : suc (window cursor).oos_end
          ≡ add_months (add_months cursor (suc months)) oos_months =
        window-oos_end cursor ∙ ap (λ day. add_months day oos_months) start in
      omega (arith, over, ends)

  windows_from-Tiles :
      (fuel cursor : ℕ)
      → suc end_date - cursor < fuel
      → (ws : List Window) × (windows_from add_months end_date (suc months) oos_months fuel cursor
          ≡ some ws)
        × Tiles add_months end_date (suc months) oos_months cursor ws
  unfolding windows_from
  windows_from-Tiles zero cursor enough = absurd (omega arith)
  windows_from-Tiles (suc fuel) cursor enough =
      let w = window cursor in
      let ahead = later_start cursor in
      elim (Bool-cases (ltb end_date w.oos_end)) [
        | inl over ↦
            let past : end_date < w.oos_end = ground arith in
            ([], ground arith, done (window-over cursor past))
        | inr within ↦
            let inside : w.oos_end ≤ end_date = ground arith in
            let (ws, found, tiles) =
              windows_from-Tiles fuel w.oos_start (omega (arith, ahead, inside)) in
            (
              w ∷ ws,
              ground arith,
              tile w (window-is_end cursor) (window-oos_start cursor) (window-oos_end cursor)
                  (window-spans cursor) inside tiles,
            )
      ]

  -- With a window of a month at least the loop ends, and what it returns is all the windows from the
  -- first date on that fit: their spans inside the sample follow each other without a gap or an
  -- overlap and take the window's months; each is followed by its span outside the sample the day
  -- after, which takes its own months and ends by the last date; and the next window would end after
  -- the last date.
  pub generate_windows-Tiles :
      (start_date : ℕ)
      → (ws : List Window) × (generate_windows add_months end_date
            (suc months)
            oos_months
            start_date
          ≡ some ws)
        × Tiles add_months end_date (suc months) oos_months start_date ws
  unfolding generate_windows
  generate_windows-Tiles start_date =
      windows_from-Tiles (suc (suc (end_date - start_date))) start_date (omega arith)
