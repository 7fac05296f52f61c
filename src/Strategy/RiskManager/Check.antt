-- ===== src/Strategy/RiskManager/Check.antt =====
-- `AlgoRiskManager.check`: the early returns, the rules in order, and the adjusted quantity.
use stock_trading_agent.Base.{
  Bool, true, false, Option, none, some, List, [], ◌∷◌, map, any, somes, String, if◌then◌else◌,
}
use stock_trading_agent.Base.Int.{ℤ, pos, eqb_ℤ, min_ℤ, max_ℤ}
use stock_trading_agent.Base.Effects.{Outcome, ok, err}
use stock_trading_agent.Decimal.{Decimal, ◌*◌, of_int, dec, le}
use stock_trading_agent.Core.Enums.{SignalAction}
use stock_trading_agent.Core.Models.{PortfolioState}
use stock_trading_agent.Strategy.RiskManager.Rules.{
  RiskSettings, Correlations, Warning, RuleResult, check_position_sizing, check_max_position,
  check_max_holdings, check_sector_concentration, check_max_drawdown, check_daily_loss_limit,
  check_correlation, check_daily_trades,
}

-- The `reasoning` text, for what it says.
pub data Reasoning (C : Type 0) : Type 0 where
  exempt_action invalid_price zero_total : Reasoning C
  summary : Bool → List String → List (Warning C) → Option (ℤ × ℤ) → Reasoning C

pub record RiskCheckResult (D C : Type 0) : Type 0 where
  pub passed : Bool
  pub symbol : String
  pub violations : List String
  pub warnings : List (Warning C)
  pub adjusted_quantity : ℤ
  pub adjusted_amount_krw : D
  pub max_allowed_quantity : ℤ
  pub reasoning : Reasoning C

-- `min(qty_caps)`, for a list with a first element.
unfoldable pub least : ℤ → List ℤ → ℤ
least n [] = n
least n (m ∷ ms) = least (min_ℤ n m) ms

-- `min(qty_caps) if qty_caps else quantity`
unfoldable pub cap_of : List ℤ → ℤ → ℤ
unfolding least
cap_of [] quantity = quantity
cap_of (n ∷ ns) quantity = least n ns

abbrev pub is_empty : {A : Type 0} → List A → Bool
is_empty [] = true
is_empty (x ∷ xs) = false

-- The quantity under the caps, if there are any.
unfoldable pub within_caps : List ℤ → ℤ → ℤ
unfolding least
within_caps [] quantity = quantity
within_caps (n ∷ ns) quantity = max_ℤ (pos 0) (min_ℤ quantity (least n ns))

module _ {C : Type 0} where
  -- A violation that allows no share at all.
  abbrev pub blocks : RuleResult C → Bool
  blocks r = elim r.violation [
    | none ↦ false
    | some rule ↦ elim r.max_quantity [ none ↦ false | some n ↦ eqb_ℤ n (pos 0) ]
  ]

  unfoldable pub adjust : List (RuleResult C) → ℤ → ℤ
  adjust results quantity =
      if any blocks results
      then pos 0
      else within_caps (somes (map (λ r. r.max_quantity) results)) quantity

  unfoldable pub build_reasoning : Bool → List String → List (Warning C) → ℤ → ℤ → Reasoning C
  build_reasoning passed violations warnings original_qty adjusted_qty =
      Reasoning.summary passed violations warnings
        (if eqb_ℤ adjusted_qty original_qty then none else some (original_qty, adjusted_qty))

  -- The end of `check`, from the results of the rules.
  unfoldable pub conclude :
      {D : Type 0} ⦃d : Decimal D⦄ → List (RuleResult C) → String → ℤ → D → RiskCheckResult D C
  unfolding build_reasoning
  conclude results symbol quantity price =
      let violations = somes (map (λ r. r.violation) results) in
      let warnings = somes (map (λ r. r.warning) results) in
      let adjusted = adjust results quantity in
      let passed = is_empty violations in
      record {
        passed = passed;
        symbol = symbol;
        violations = violations;
        warnings = warnings;
        adjusted_quantity = adjusted;
        adjusted_amount_krw = of_int adjusted * price;
        max_allowed_quantity =
            max_ℤ (pos 0) (cap_of (somes (map (λ r. r.max_quantity) results)) quantity);
        reasoning = build_reasoning passed violations warnings quantity adjusted;
      }

  -- A refusal before any rule.
  abbrev pub refusal :
      {D : Type 0} ⦃d : Decimal D⦄
      → String
      → String
      → List (Warning C)
      → Reasoning C
      → RiskCheckResult D C
  refusal symbol rule warnings reasoning = record {
    passed = false;
    symbol = symbol;
    violations = rule ∷ [];
    warnings = warnings;
    adjusted_quantity = pos 0;
    adjusted_amount_krw = dec 0;
    max_allowed_quantity = pos 0;
    reasoning = reasoning;
  }

module _ {D : Type 0} ⦃d : Decimal D⦄ (t : RiskSettings D) (c : Correlations) where
  unfoldable pub run_rules :
      PortfolioState D → String → ℤ → D → Option D → String → List (RuleResult c.Corr)
  run_rules state symbol quantity price stop_loss_price sector =
      check_position_sizing t state quantity price stop_loss_price
      ∷ check_max_position t state symbol quantity price
      ∷ check_max_holdings t state symbol
      ∷ check_sector_concentration t state quantity price sector
      ∷ check_max_drawdown t state
      ∷ check_daily_loss_limit t state
      ∷ check_correlation c state symbol
      ∷ check_daily_trades t state
      ∷ []

  abbrev exempt : String → ℤ → D → RiskCheckResult D c.Corr
  exempt symbol quantity price = record {
    passed = true;
    symbol = symbol;
    violations = [];
    warnings = [];
    adjusted_quantity = quantity;
    adjusted_amount_krw = of_int quantity * price;
    max_allowed_quantity = quantity;
    reasoning = Reasoning.exempt_action;
  }

  -- A buy, once the price is known to be positive.
  unfoldable pub check_state :
      PortfolioState D → String → ℤ → D → Option D → String → RiskCheckResult D c.Corr
  check_state state symbol quantity price stop_loss_price sector =
      if le state.total_value (dec 0)
      then refusal symbol "ZERO_PORTFOLIO" (Warning.zero_portfolio ∷ []) Reasoning.zero_total
      else conclude (run_rules state symbol quantity price stop_loss_price sector) symbol quantity
          price

  unfoldable pub check_buy :
      {E : Type 0}
      → Outcome E (PortfolioState D)
      → String
      → ℤ
      → D
      → Option D
      → String
      → Outcome E (RiskCheckResult D c.Corr)
  unfolding check_state
  check_buy current_state symbol quantity price stop_loss_price sector =
      if le price (dec 0)
      then ok (refusal symbol "INVALID_PRICE" [] Reasoning.invalid_price)
      else elim current_state [
        | err e ↦ err e
        | ok state ↦ ok (check_state state symbol quantity price stop_loss_price sector)
      ]

  -- `current_state` is what `get_current_state` returns or raises; only a buy asks for it.
  unfoldable pub check :
      {E : Type 0}
      → Outcome E (PortfolioState D)
      → String
      → SignalAction
      → ℤ
      → D
      → Option D
      → String
      → Outcome E (RiskCheckResult D c.Corr)
  unfolding check_buy
  check current_state symbol SignalAction.sell quantity price stop_loss_price sector =
      ok (exempt symbol quantity price)
  check current_state symbol SignalAction.hold quantity price stop_loss_price sector =
      ok (exempt symbol quantity price)
  check current_state symbol SignalAction.buy quantity price stop_loss_price sector =
      check_buy current_state symbol quantity price stop_loss_price sector
