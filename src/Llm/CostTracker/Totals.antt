-- ===== src/Llm/CostTracker/Totals.antt =====
-- The table of daily totals against the log of all calls.
use stock_trading_agent.Base.{
  ℕ, ◌+◌ as plus, ◌≡◌, refl, ap, ◌∙◌, arith, true, false, List, [], ◌∷◌, leb, any, length,
  str_eq_iff, Bool-cases, inl, inr, if◌then◌else◌,
}
use stock_trading_agent.Decimal.{Decimal, ◌+◌, dec}
use stock_trading_agent.Base.Int.{ℤ}
use stock_trading_agent.Decimal.Algebra.{plus_left_comm}
use stock_trading_agent.Decimal.Laws.{IsExact}
use stock_trading_agent.Llm.CostTracker.{
  LlmUsage, Usage, same_usage, usage_row, add_usage, record_usage, cost_since, get_budget_status,
}

module _ {D : Type 0} ⦃d : Decimal D⦄ where
  -- The log of calls, the last one first, and the table it leaves.
  unfoldable pub recorded : List (Usage D) → List (LlmUsage D)
  recorded [] = []
  recorded (u ∷ us) = record_usage u (recorded us)

  -- What the calls from a day on cost together.
  unfoldable pub spent_since : ℕ → List (Usage D) → D
  spent_since first [] = dec 0
  spent_since first (u ∷ us) =
      let rest = spent_since first us in if leb first u.today then u.cost_usd + rest else rest

  unfoldable pub calls_in : List (LlmUsage D) → ℕ
  calls_in [] = 0
  calls_in (r ∷ rs) = plus r.call_count (calls_in rs)

  -- No two rows with the key of one day.
  abbrev pub AreDaily : List (LlmUsage D) → Type 0
  AreDaily [] = Unit {0}
  AreDaily (r ∷ rs) = (any (λ t. same_usage t r) rs ≡ false) × AreDaily rs

  module _ (laws : IsExact D) where
    add_usage-cost :
        (first : ℕ) (new : LlmUsage D) (rows : List (LlmUsage D))
        → cost_since first (add_usage new rows) ≡ (
            if leb first new.date
            then new.cost_usd + cost_since first rows
            else cost_since first rows)
    unfolding add_usage cost_since
    add_usage-cost first new [] = refl
    add_usage-cost first new (r ∷ rs) =
        let ih = add_usage-cost first new rs in
        let rest = cost_since first rs in
        let swap = plus_left_comm laws new.cost_usd r.cost_usd rest in
        let join =
          ap (λ t. t + rest) (laws.plus_comm r.cost_usd new.cost_usd)
          ∙ laws.plus_assoc new.cost_usd r.cost_usd rest in
        ground (arith, ih, swap, join)

  add_usage-calls :
      (new : LlmUsage D) (rows : List (LlmUsage D))
      → calls_in (add_usage new rows) ≡ plus new.call_count (calls_in rows)
  unfolding add_usage calls_in
  add_usage-calls new [] = refl
  add_usage-calls new (r ∷ rs) = ground (arith, add_usage-calls new rs)

  any-add_usage :
      (new r : LlmUsage D) (rows : List (LlmUsage D))
      → any (λ t. same_usage t r) rows ≡ false
      → same_usage r new ≡ false
      → any (λ t. same_usage t r) (add_usage new rows) ≡ false
  unfolding add_usage
  any-add_usage new r [] fresh other = ground (
    arith,
    str_eq_iff new.provider r.provider,
    str_eq_iff r.provider new.provider,
    str_eq_iff new.model r.model,
    str_eq_iff r.model new.model,
    str_eq_iff new.agent_type r.agent_type,
    str_eq_iff r.agent_type new.agent_type,
  )
  any-add_usage new r (t ∷ rs) fresh other = elim (Bool-cases (same_usage t new)) [
    | inl same ↦ rw same fresh
    | inr apart ↦ elim (Bool-cases (same_usage t r)) [
      | inl taken ↦ let clash : true ≡ false = rw taken at fresh in absurd cc
      | inr free ↦
          let rest = any-add_usage new r rs (rw free at fresh) other in rw (apart, free) rest
    ]
  ]

  add_usage-AreDaily :
      (new : LlmUsage D) (rows : List (LlmUsage D)) → AreDaily rows → AreDaily (add_usage new rows)
  unfolding add_usage
  add_usage-AreDaily new [] h = (refl, tt)
  add_usage-AreDaily new (r ∷ rs) (fresh, h) = elim (Bool-cases (same_usage r new)) [
    | inl same ↦ rw same (fresh, h)
    | inr other ↦ rw other (any-add_usage new r rs fresh other, add_usage-AreDaily new rs h)
  ]

  recorded-AreDaily : (us : List (Usage D)) → AreDaily (recorded us)
  unfolding recorded record_usage
  recorded-AreDaily [] = tt
  recorded-AreDaily (u ∷ us) = add_usage-AreDaily (usage_row u) (recorded us) (recorded-AreDaily us)

  recorded-calls : (us : List (Usage D)) → calls_in (recorded us) ≡ length us
  unfolding recorded record_usage calls_in usage_row
  recorded-calls [] = refl
  recorded-calls (u ∷ us) =
      let one = add_usage-calls (usage_row u) (recorded us) in
      let ih = recorded-calls us in omega (arith, one, ih)

  recorded-cost :
      IsExact D
      → (first : ℕ) (us : List (Usage D)) → cost_since first (recorded us) ≡ spent_since first us
  unfolding recorded record_usage spent_since usage_row cost_since
  recorded-cost laws first [] = refl
  recorded-cost laws first (u ∷ us) =
      let ih = recorded-cost laws first us in
      rw (add_usage-cost laws first (usage_row u) (recorded us), ih) refl

  -- With exact arithmetic, after any calls recorded in an empty table, the month's cost that the budget
  -- is tested with is what the calls from the first of the month on cost together; the rows count all
  -- calls, and there is one row at most for a day, a provider, a model and an agent.
  pub get_budget_status-recorded :
      IsExact D
      → (first_of_month : ℕ) (budget : D) (warning_pct : ℤ) (us : List (Usage D))
      → ((get_budget_status first_of_month budget warning_pct (recorded us)).current_month_cost_usd
          ≡ spent_since first_of_month us)
        × (calls_in (recorded us) ≡ length us)
        × AreDaily (recorded us)
  unfolding get_budget_status
  get_budget_status-recorded laws first_of_month budget warning_pct us =
      (recorded-cost laws first_of_month us, recorded-calls us, recorded-AreDaily us)
