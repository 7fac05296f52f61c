-- ===== src/Backtest/Loader.antt =====
-- `HistoricalDataLoader` once it is loaded (src/backtest/data_loader.py): a table of daily rows for
-- each symbol. A data frame is the list of its rows in the order of its index.
use stock_trading_agent.Base.{
  ℕ, ◌+◌, ◌-◌, ◌&&◌, Option, none, some, List, [], ◌∷◌, leb, ◌==◌, if◌then◌else◌, keep, String,
}
use stock_trading_agent.Base.Dict.{Dict, lookup}
use stock_trading_agent.Core.Models.{Ohlcv}

pub record Loader (D : Type 0) : Type 0 where
  pub frames : Dict (List (Ohlcv D))
  pub trading_dates : List ℕ

-- `max(0, idx - period_days + 1)`
unfoldable pub window_start : ℕ → ℕ → ℕ
window_start idx period_days = idx + 1 - period_days

module _ {D : Type 0} where
  -- `df.loc[target_date]`, or nothing where the index does not have the date.
  unfoldable pub row_at : ℕ → List (Ohlcv D) → Option (Ohlcv D)
  row_at day [] = none
  row_at day (r ∷ rs) = if r.date == day then some r else row_at day rs

  unfoldable pub get_ohlcv : Loader D → String → ℕ → Option (Ohlcv D)
  unfolding row_at
  get_ohlcv l symbol day = elim (lookup symbol l.frames) [ none ↦ none | some df ↦ row_at day df ]

  unfoldable pub get_ohlcv_range : Loader D → String → ℕ → ℕ → List (Ohlcv D)
  get_ohlcv_range l symbol first last = elim (lookup symbol l.frames) [
    | none ↦ []
    | some df ↦ keep (λ r. leb first r.date && leb r.date last) df
  ]

  unfoldable pub get_close_price : Loader D → String → ℕ → Option D
  unfolding get_ohlcv
  get_close_price l symbol day = elim (get_ohlcv l symbol day) [
    | none ↦ none
    | some r ↦ some r.closing
  ]

  unfoldable pub get_open_price : Loader D → String → ℕ → Option D
  unfolding get_ohlcv
  get_open_price l symbol day = elim (get_ohlcv l symbol day) [
    | none ↦ none
    | some r ↦ some r.opening
  ]
