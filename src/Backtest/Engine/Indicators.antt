-- ===== src/Backtest/Engine/Indicators.antt =====
-- The indicators that the signals read. They are the series that the library `ta` and the thin
-- functions over it give, and their values are floats: parameters of the model.
use stock_trading_agent.Base.{
  ℕ, suc, Bool, true, false, not, ◌&&◌, Option, none, some, List, [], ◌∷◌, any, map, ltb,
}
use stock_trading_agent.Decimal.{Decimal, dec}
use stock_trading_agent.Core.Models.{BacktestParameters, Ohlcv}
use stock_trading_agent.Backtest.Engine.Entries.{given}

-- Each series has a value for each row, or none where the library refuses the rows.
pub record Indicators (D : Type 0) : Type 1 where
  pub Float : Type 0
  pub is_nan : Float → Bool
  -- `<`
  pub below : Float → Float → Bool
  -- `float(x)` and `Decimal(str(x))`
  pub float : D → Float
  pub decimal : Float → D
  -- `calculate_sma(close, [period])[period]` and `calculate_rsi(close, 14)`
  pub sma : ℕ → List D → List Float
  pub rsi : List D → List Float
  -- The first two results of `calculate_macd(close)`
  pub macd_line : List D → List Float
  pub macd_signal : List D → List Float
  -- The lower band of `calculate_bollinger_bands(close, 20)`
  pub bb_lower : List D → List Float
  -- `AverageTrueRange(..., window=14).average_true_range()`
  pub atr : List (Ohlcv D) → List Float

-- `s.iloc[-1]` and `s.iloc[-2]`
abbrev pub last {ℓ} : {A : Type ℓ} → List A → Option A
last [] = none
last (x ∷ xs) = elim (last xs) [ none ↦ some x | some y ↦ some y ]

abbrev pub second_last {ℓ} : {A : Type ℓ} → List A → Option A
second_last [] = none
second_last (x ∷ xs) = elim (second_last xs) [
  | some y ↦ some y
  | none ↦ elim xs [ [] ↦ none | y ∷ ys ↦ some x ]
]

abbrev pub counted : Bool → ℕ → ℕ
counted true n = suc n
counted false n = n

-- An index past the end of a series ends the calculation.
infixl 5 ◌>>=◌
abbrev pub ◌>>=◌ : {A B : Type 0} → Option A → (A → Option B) → Option B
o >>= f = elim o [ none ↦ none | some a ↦ f a ]

-- The last values that the two strategies look at.
pub record PositionValues (F : Type 0) : Type 0 where
  pub sma_s : F
  pub sma_l : F
  pub rsi_val : F
  pub atr_val : F

pub record SwingValues (F : Type 0) : Type 0 where
  pub rsi_prev : F
  pub rsi_curr : F
  pub macd_prev : F
  pub macd_curr : F
  pub sig_prev : F
  pub sig_curr : F
  pub close_prev : F
  pub close_curr : F
  pub bbl_prev : F
  pub bbl_curr : F

module _ {D : Type 0} ⦃d : Decimal D⦄ (ind : Indicators D) where
  abbrev pub closes : List (Ohlcv D) → List D
  closes rows = map (λ r. r.closing) rows

  unfoldable pub position_values :
      BacktestParameters D → List (Ohlcv D) → Option (PositionValues ind.Float)
  position_values params rows = do
    sma_s ← last (ind.sma (given 20 params.sma_short) (closes rows))
    sma_l ← last (ind.sma (given 60 params.sma_long) (closes rows))
    rsi_val ← last (ind.rsi (closes rows))
    atr_val ← last (ind.atr rows)
    some (record { sma_s = sma_s; sma_l = sma_l; rsi_val = rsi_val; atr_val = atr_val })

  -- The test for an entry of the position strategy.
  unfoldable pub position_entry : BacktestParameters D → PositionValues ind.Float → Bool
  position_entry params v =
      not (any ind.is_nan (v.sma_s ∷ v.sma_l ∷ v.rsi_val ∷ v.atr_val ∷ []))
      && (ind.below v.sma_l v.sma_s
          && ind.below v.rsi_val (ind.float (given (dec 40) params.rsi_threshold)))

  unfoldable pub swing_values : List (Ohlcv D) → Option (SwingValues ind.Float)
  swing_values rows = do
    rsi_prev ← second_last (ind.rsi (closes rows))
    rsi_curr ← last (ind.rsi (closes rows))
    macd_prev ← second_last (ind.macd_line (closes rows))
    macd_curr ← last (ind.macd_line (closes rows))
    sig_prev ← second_last (ind.macd_signal (closes rows))
    sig_curr ← last (ind.macd_signal (closes rows))
    close_prev ← second_last (closes rows)
    close_curr ← last (closes rows)
    bbl_prev ← second_last (ind.bb_lower (closes rows))
    bbl_curr ← last (ind.bb_lower (closes rows))
    some (record {
      rsi_prev = rsi_prev;
      rsi_curr = rsi_curr;
      macd_prev = macd_prev;
      macd_curr = macd_curr;
      sig_prev = sig_prev;
      sig_curr = sig_curr;
      close_prev = ind.float close_prev;
      close_curr = ind.float close_curr;
      bbl_prev = bbl_prev;
      bbl_curr = bbl_curr;
    })

  -- The three conditions of the swing strategy: the index comes back over 30, the line crosses its
  -- signal, and the close comes back over the band.
  abbrev pub rsi_rebound : ind.Float → ind.Float → Bool
  rsi_rebound prev curr =
      ind.below prev (ind.float (dec 30)) && not (ind.below curr (ind.float (dec 30)))

  abbrev pub crosses : ind.Float → ind.Float → ind.Float → ind.Float → Bool
  crosses prev level_prev curr level_curr =
      not (ind.below level_prev prev) && ind.below level_curr curr

  unfoldable pub signal_count : SwingValues ind.Float → ℕ
  signal_count v = counted (rsi_rebound v.rsi_prev v.rsi_curr) (
      counted (crosses v.macd_prev v.sig_prev v.macd_curr v.sig_curr)
        (counted (crosses v.close_prev v.bbl_prev v.close_curr v.bbl_curr) 0))

  unfoldable pub swing_entry : BacktestParameters D → SwingValues ind.Float → Bool
  unfolding signal_count
  swing_entry params v =
      not (
        any ind.is_nan (
          v.rsi_prev ∷ v.rsi_curr ∷ v.macd_prev ∷ v.macd_curr ∷ v.sig_prev ∷ v.sig_curr ∷ v.bbl_prev
          ∷ v.bbl_curr ∷ []))
      && not (ltb (signal_count v) (given 2 params.min_signals))
