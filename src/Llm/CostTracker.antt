-- ===== src/Llm/CostTracker.antt =====
-- `CostTracker` (src/llm/cost_tracker.py) on the rows of `llm_usage`. The day, the first day of its
-- month and the settings are arguments; a database that fails, and what it rounds, are left out.
pub mod Totals
use stock_trading_agent.Base.{
  ℕ, ◌+◌ as plus, ◌&&◌, Bool, Option, none, some, List, [], ◌∷◌, map, keep, ◌==◌, leb,
  if◌then◌else◌, String, str_eq,
}
use stock_trading_agent.Base.Int.{ℤ, ◌+ℤ◌}
use stock_trading_agent.Decimal.{Decimal, ◌+◌, ◌-◌, ◌*◌, ◌/◌, dec, of_int, lt, le, max}

pub record LlmUsage (D : Type 0) : Type 0 where
  pub date : ℕ
  pub provider : String
  pub model : String
  pub agent_type : String
  pub tokens_in : ℤ
  pub tokens_out : ℤ
  pub cost_usd : D
  pub call_count : ℕ
  pub escalation_count : ℕ

pub record BudgetStatus (D : Type 0) : Type 0 where
  pub current_month_cost_usd : D
  pub budget_usd : D
  pub remaining_usd : D
  pub usage_percent : D
  pub warning_triggered : Bool
  pub budget_exceeded : Bool
  pub escalation_disabled : Bool

-- What a call of `record_usage` is given, and the day it is made on.
pub record Usage (D : Type 0) : Type 0 where
  pub today : ℕ
  pub provider : String
  pub model : String
  pub agent_type : Option String
  pub tokens_in : ℤ
  pub tokens_out : ℤ
  pub cost_usd : D
  pub is_escalation : Bool

abbrev pub system_sentinel : String
system_sentinel = "__system__"

-- `agent_type or _SYSTEM_SENTINEL`
abbrev pub effective_agent : Option String → String
effective_agent none = system_sentinel
effective_agent (some agent) = if str_eq agent "" then system_sentinel else agent

-- The columns of `uq_llm_usage_daily`.
abbrev pub same_usage : {D : Type 0} → LlmUsage D → LlmUsage D → Bool
same_usage r t =
    r.date == t.date
    && (str_eq r.provider t.provider
        && (str_eq r.model t.model && str_eq r.agent_type t.agent_type))

unfoldable pub usage_row : {D : Type 0} → Usage D → LlmUsage D
usage_row u = record {
  date = u.today;
  provider = u.provider;
  model = u.model;
  agent_type = effective_agent u.agent_type;
  tokens_in = u.tokens_in;
  tokens_out = u.tokens_out;
  cost_usd = u.cost_usd;
  call_count = 1;
  escalation_count = if u.is_escalation then 1 else 0;
}

module _ {D : Type 0} ⦃d : Decimal D⦄ where
  abbrev pub added : LlmUsage D → LlmUsage D → LlmUsage D
  added r new = record r {
    tokens_in = r.tokens_in +ℤ new.tokens_in;
    tokens_out = r.tokens_out +ℤ new.tokens_out;
    cost_usd = r.cost_usd + new.cost_usd;
    call_count = plus r.call_count new.call_count;
    escalation_count = plus r.escalation_count new.escalation_count;
  }

  -- The insert that adds to the row with the same key instead, where there is one.
  unfoldable pub add_usage : LlmUsage D → List (LlmUsage D) → List (LlmUsage D)
  add_usage new [] = new ∷ []
  add_usage new (r ∷ rs) =
      let rest = add_usage new rs in if same_usage r new then added r new ∷ rs else r ∷ rest

  unfoldable pub record_usage : Usage D → List (LlmUsage D) → List (LlmUsage D)
  unfolding usage_row add_usage
  record_usage u rows = add_usage (usage_row u) rows

  -- `sum(cost_usd)` over the rows from a day on, zero for none.
  unfoldable pub cost_since : ℕ → List (LlmUsage D) → D
  cost_since first [] = dec 0
  cost_since first (r ∷ rs) =
      let rest = cost_since first rs in if leb first r.date then r.cost_usd + rest else rest

  unfoldable pub usage_pct_of : D → D → D
  usage_pct_of budget current_cost =
      if lt (dec 0) budget then current_cost / budget * dec 100 else dec 0

  unfoldable pub get_budget_status : ℕ → D → ℤ → List (LlmUsage D) → BudgetStatus D
  unfolding cost_since usage_pct_of
  get_budget_status first_of_month budget warning_pct rows =
      let current_cost = cost_since first_of_month rows in
      let usage_pct = usage_pct_of budget current_cost in
      record {
        current_month_cost_usd = current_cost;
        budget_usd = budget;
        remaining_usd = max (budget - current_cost) (dec 0);
        usage_percent = usage_pct;
        warning_triggered = le (of_int warning_pct) usage_pct;
        budget_exceeded = le (dec 100) usage_pct;
        escalation_disabled = le (dec 100) usage_pct;
      }
