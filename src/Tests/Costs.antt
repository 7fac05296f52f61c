-- ===== src/Tests/Costs.antt =====
-- Three calls of language models, two of them of one agent on one day.
use stock_trading_agent.Base.{ℕ, ◌≡◌, refl, some, List, [], ◌∷◌, length, true, false}
use stock_trading_agent.Base.Int.{ℤ, pos, ◌+ℤ◌, ◌*ℤ◌}
use stock_trading_agent.Decimal.Won.{won, quot, Won-IsExact}
use stock_trading_agent.Llm.CostTracker.{Usage, get_budget_status, record_usage, usage_row}
use stock_trading_agent.Llm.CostTracker.Totals.{
  recorded, spent_since, calls_in, AreDaily, get_budget_status-recorded,
}

abbrev call_on : ℕ → ℤ → Usage ℤ
call_on day cost = record {
  today = day;
  provider = "openai";
  model = "mini";
  agent_type = some "technical";
  tokens_in = pos 10;
  tokens_out = pos 5;
  cost_usd = cost;
  is_escalation = false;
}

-- The last call first; the first one belongs to the month before.
abbrev calls : List (Usage ℤ)
calls = call_on 32 (pos 40) ∷ call_on 32 (pos 70) ∷ call_on 30 (pos 900) ∷ []

two_rows : length (recorded calls) ≡ 2
unfolding recorded usage_row record_usage
two_rows = refl

over_budget : (get_budget_status 31 (pos 100) (pos 80) (recorded calls)).escalation_disabled ≡ true
unfolding get_budget_status recorded usage_row ◌+ℤ◌ ◌*ℤ◌ quot record_usage
over_budget = refl

get_budget_status-recorded_example :
    ((get_budget_status 31 (pos 100) (pos 80) (recorded calls)).current_month_cost_usd
      ≡ spent_since 31 calls)
    × (calls_in (recorded calls) ≡ 3)
    × AreDaily (recorded calls)
get_budget_status-recorded_example =
    get_budget_status-recorded Won-IsExact 31 (pos 100) (pos 80) calls
