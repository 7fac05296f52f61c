-- ===== src/Strategy/RiskManager/Rules.antt =====
-- The eight rules. The settings' percentages are decimals already, and the correlation of two price
-- series is left to a parameter: pandas computes it from rows of the database.
use stock_trading_agent.Base.{
  ℕ, Bool, ◌||◌, Option, none, some, List, [], ◌∷◌, ltb, length, keep, map, contains_text, distinct,
  if◌then◌else◌, String, str_eq, not,
}
use stock_trading_agent.Base.Int.{ℤ, pos, leb_ℤ}
use stock_trading_agent.Base.Dict.{lookup}
use stock_trading_agent.Decimal.{
  Decimal, ◌+◌, ◌-◌, ◌*◌, ◌/◌, of_int, to_int, dec, lt, le, eq, abs, min, sum_from,
}
use stock_trading_agent.Core.Models.{PortfolioState}

pub record RiskSettings (D : Type 0) : Type 0 where
  pub risk_per_trade_pct : D
  pub max_position_pct : D
  pub max_position_size_krw : ℤ
  pub max_portfolio_positions : ℤ
  pub sector_concentration_pct : D
  pub max_drawdown_pct : D
  pub daily_loss_limit_pct : D
  pub daily_loss_limit_krw : ℤ
  pub max_daily_trades : ℤ

-- The returns of a symbol over the last days, if they can be read; how many there are; the
-- correlation of two series, if enough days are common; and the test against the threshold.
pub record Correlations : Type 1 where
  pub Series : Type 0
  pub Corr : Type 0
  pub daily_returns : String → Option Series
  pub days : Series → ℕ
  pub pearson : Series → Series → Option Corr
  pub reaches : Corr → Bool

-- The warnings, for their texts.
pub data Warning (C : Type 0) : Type 0 where
  no_stop_loss stop_equals_entry zero_portfolio : Warning C
  short_history : String → ℕ → Warning C
  correlated : List (String × C) → Warning C

pub record RuleResult (C : Type 0) : Type 0 where
  pub violation : Option String
  pub warning : Option (Warning C)
  pub max_quantity : Option ℤ

module _ {D : Type 0} ⦃d : Decimal D⦄ where
  -- The value that is held of a symbol.
  unfoldable pub existing_value : PortfolioState D → String → D
  existing_value state symbol =
      sum_from (dec 0)
        (map (λ p. p.market_value) (keep (λ p. str_eq p.symbol symbol) state.positions))

  unfoldable pub effective_limit : RiskSettings D → PortfolioState D → D
  effective_limit t state =
      min (state.total_value * t.max_position_pct / dec 100) (of_int t.max_position_size_krw)

  unfoldable pub sector_pct : PortfolioState D → String → D
  sector_pct state sector = elim (lookup sector state.sector_allocations) [
    | none ↦ dec 0
    | some pct ↦ pct
  ]

module _ {C : Type 0} where
  -- `_RuleResult()` and the forms of it that the rules return.
  abbrev pub passes : RuleResult C
  passes = record { violation = none; warning = none; max_quantity = none }

  abbrev pub warns : Warning C → RuleResult C
  warns w = record { violation = none; warning = some w; max_quantity = none }

  abbrev pub violates : String → ℤ → RuleResult C
  violates rule n = record { violation = some rule; warning = none; max_quantity = some n }

  abbrev pub caps : ℤ → RuleResult C
  caps n = record { violation = none; warning = none; max_quantity = some n }

  module _ {D : Type 0} ⦃d : Decimal D⦄ (t : RiskSettings D) where
    -- Rule 1
    unfoldable pub check_position_sizing : PortfolioState D → ℤ → D → Option D → RuleResult C
    check_position_sizing state quantity price none = warns Warning.no_stop_loss
    check_position_sizing state quantity price (some stop_loss_price) =
        let risk_per_share = abs (price - stop_loss_price) in
        let max_risk = state.total_value * t.risk_per_trade_pct / dec 100 in
        let risk_amount = of_int quantity * risk_per_share in
        let max_qty = to_int (max_risk / risk_per_share) in
        if eq risk_per_share (dec 0)
        then warns Warning.stop_equals_entry
        else if lt max_risk risk_amount
        then violates "RISK_PER_TRADE" max_qty
        else caps max_qty

    -- Rule 2
    unfoldable pub check_max_position : PortfolioState D → String → ℤ → D → RuleResult C
    check_max_position state symbol quantity price =
        let new_total = existing_value state symbol + of_int quantity * price in
        let remaining = effective_limit t state - existing_value state symbol in
        let max_qty = if le remaining (dec 0) then pos 0 else to_int (remaining / price) in
        if lt (effective_limit t state) new_total
        then violates "MAX_POSITION" max_qty
        else caps max_qty

    -- Rule 3
    unfoldable pub check_max_holdings : PortfolioState D → String → RuleResult C
    check_max_holdings state symbol =
        let current_symbols = distinct (map (λ p. p.symbol) state.positions) in
        if contains_text symbol current_symbols
        then passes
        else if leb_ℤ t.max_portfolio_positions (pos (length current_symbols))
        then violates "MAX_HOLDINGS" (pos 0)
        else passes

    -- Rule 4
    unfoldable pub check_sector_concentration : PortfolioState D → ℤ → D → String → RuleResult C
    check_sector_concentration state quantity price sector =
        let current_pct = sector_pct state sector in
        let additional_pct = of_int quantity * price / state.total_value * dec 100 in
        let allowed_pct = t.sector_concentration_pct - current_pct in
        let max_qty =
          if le allowed_pct (dec 0)
          then pos 0
          else to_int (allowed_pct / dec 100 * state.total_value / price) in
        if lt t.sector_concentration_pct (current_pct + additional_pct)
        then violates "SECTOR_CONCENTRATION" max_qty
        else caps max_qty

    -- Rule 5
    unfoldable pub check_max_drawdown : PortfolioState D → RuleResult C
    check_max_drawdown state =
        if le t.max_drawdown_pct state.drawdown_pct then violates "MAX_DRAWDOWN" (pos 0) else passes

    -- Rule 6
    unfoldable pub check_daily_loss_limit : PortfolioState D → RuleResult C
    check_daily_loss_limit state =
        if lt state.daily_pnl_pct (dec 0 - t.daily_loss_limit_pct)
          || lt state.daily_pnl (dec 0 - of_int t.daily_loss_limit_krw)
        then violates "DAILY_LOSS_LIMIT" (pos 0)
        else passes

    -- Rule 8
    unfoldable pub check_daily_trades : PortfolioState D → RuleResult C
    check_daily_trades state =
        if leb_ℤ t.max_daily_trades state.daily_trade_count
        then violates "MAX_DAILY_TRADES" (pos 0)
        else passes

-- `_MIN_CORRELATION_DAYS`
abbrev min_correlation_days : ℕ
min_correlation_days = 20

module _ (c : Correlations) where
  open c use {Series, Corr, daily_returns, days, pearson, reaches}

  -- One holding against the candidate; a holding with too short a history is skipped.
  unfoldable pub high_correlation : Series → String → Option (String × Corr)
  high_correlation candidate symbol = elim (daily_returns symbol) [
    | none ↦ none
    | some returns ↦
        if ltb (days returns) min_correlation_days then none else elim (pearson candidate returns) [
          | none ↦ none
          | some corr ↦ if reaches corr then some (symbol, corr) else none
        ]
  ]

  unfoldable pub high_correlations : Series → List String → List (String × Corr)
  high_correlations candidate [] = []
  high_correlations candidate (h ∷ hs) =
      let rest = high_correlations candidate hs in
      elim (high_correlation candidate h) [ none ↦ rest | some pair ↦ pair ∷ rest ]

  unfoldable pub pairs_warning : List (String × Corr) → RuleResult Corr
  pairs_warning [] = passes
  pairs_warning (pair ∷ pairs) = warns (Warning.correlated (pair ∷ pairs))

  unfoldable pub compare_holdings : String → List String → RuleResult Corr
  compare_holdings symbol [] = passes
  compare_holdings symbol (h ∷ hs) = elim (daily_returns symbol) [
    | none ↦ warns (Warning.short_history symbol 0)
    | some candidate ↦
        if ltb (days candidate) min_correlation_days
        then warns (Warning.short_history symbol (days candidate))
        else pairs_warning (high_correlations candidate (h ∷ hs))
  ]

  -- Rule 7: a warning only. The symbol itself is taken out of the holdings.
  unfoldable pub check_correlation : {D : Type 0} → PortfolioState D → String → RuleResult Corr
  check_correlation state symbol =
      compare_holdings symbol
        (keep (λ h. not (str_eq h symbol)) (distinct (map (λ p. p.symbol) state.positions)))
