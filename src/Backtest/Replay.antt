-- ===== src/Backtest/Replay.antt =====
-- `LLMReplayProvider` (src/backtest/llm_replay.py): the decisions of a log, by date and symbol. A
-- time is in minutes of UTC; the query's rows are those of the table, and texts are left out.
pub mod Cache
pub mod Selection
use stock_trading_agent.Base.{
  ℕ, ◌+◌, ◌*◌, ◌/◌, Bool, true, false, ◌&&◌, Option, none, some, List, [], ◌∷◌, ◌++◌, ◌==◌, leb,
  ltb, any, if◌then◌else◌, String, str_eq,
}
use stock_trading_agent.Base.Int.{pos}
use stock_trading_agent.Base.Sorting.{sorted}
use stock_trading_agent.Decimal.{Decimal, ◌/◌ as ◌÷◌, dec, lt}
use stock_trading_agent.Core.Enums.{SignalAction}
use stock_trading_agent.Core.Models.{Signal}

-- A row of the table `decision_log`.
pub record DecisionLog (D : Type 0) : Type 0 where
  pub symbol : Option String
  pub stage : String
  pub decision : String
  pub confidence : Option D
  pub llm_model : Option String
  pub created_at : ℕ

pub record ReplayDecision (D : Type 0) : Type 0 where
  pub symbol : String
  pub stage : String
  pub decision : String
  pub confidence : D
  pub created_at : ℕ

abbrev pub Replay : Type 0 → Type 0
Replay D = List ((ℕ × String) × List (ReplayDecision D))

-- `created_at.astimezone(_KST).date()`: nine hours ahead.
abbrev pub kst_date : ℕ → ℕ
kst_date created_at = (created_at + 540) / 1440

abbrev pub contains : String → List String → Bool
contains text texts = any (λ t. str_eq t text) texts

abbrev pub default_stage_filter : List String
default_stage_filter = "trade_decision" ∷ "stock_analysis" ∷ []

abbrev pub actionable_decisions : List String
actionable_decisions = "buy" ∷ "sell" ∷ "hold" ∷ []

-- The part of the query on the model that answered.
abbrev pub model_matches : Option String → Option String → Bool
model_matches none model = true
model_matches (some wanted) none = false
model_matches (some wanted) (some model) = str_eq model wanted

abbrev pub same_key : ℕ × String → ℕ × String → Bool
same_key (day, symbol) (day', symbol') = day == day' && str_eq symbol symbol'

module _ {D : Type 0} where
  -- What the rest of the query asks: midnight to midnight in Korea, nine hours before UTC's.
  unfoldable pub in_range : ℕ → ℕ → List String → Option String → DecisionLog D → Bool
  in_range start_date end_date symbols llm_model_filter row =
      leb (start_date * 1440) (row.created_at + 540)
      && (ltb (row.created_at + 540) ((end_date + 1) * 1440)
          && (contains row.stage default_stage_filter
              && (contains row.decision actionable_decisions
                  && model_matches llm_model_filter row.llm_model)))

  -- A selected row, with the fields that the query asks to be there.
  unfoldable pub selected :
      ℕ → ℕ → List String → Option String → DecisionLog D → Option (ReplayDecision D)
  unfolding in_range
  selected start_date end_date symbols llm_model_filter row = elim row.symbol [
    | none ↦ none
    | some symbol ↦ elim row.confidence [
      | none ↦ none
      | some confidence ↦
          if in_range start_date end_date symbols llm_model_filter row && contains symbol symbols
          then some (record {
            symbol = symbol;
            stage = row.stage;
            decision = row.decision;
            confidence = confidence;
            created_at = row.created_at;
          })
          else none
    ]
  ]

  -- `self._cache.setdefault(key, []).append(decision)`
  unfoldable pub cached : Replay D → ℕ × String → ReplayDecision D → Replay D
  cached [] key decision = (key, decision ∷ []) ∷ []
  cached ((k, ds) ∷ cache) key decision =
      let rest = cached cache key decision in
      if same_key k key then (k, ds ++ (decision ∷ [])) ∷ cache else (k, ds) ∷ rest

  unfoldable pub cache_all : Replay D → List (ReplayDecision D) → Replay D
  unfolding cached
  cache_all cache [] = cache
  cache_all cache (r ∷ rs) = cache_all (cached cache (kst_date r.created_at, r.symbol) r) rs

  unfoldable pub select_all :
      ℕ → ℕ → List String → Option String → List (DecisionLog D) → List (ReplayDecision D)
  unfolding selected
  select_all start_date end_date symbols llm_model_filter [] = []
  select_all start_date end_date symbols llm_model_filter (row ∷ rows) =
      let rest = select_all start_date end_date symbols llm_model_filter rows in
      elim (selected start_date end_date symbols llm_model_filter row) [
        | none ↦ rest
        | some decision ↦ decision ∷ rest
      ]

  -- The new cache; the count that the method returns only goes to a log.
  unfoldable pub load : ℕ → ℕ → List String → Option String → List (DecisionLog D) → Replay D
  unfolding select_all cache_all
  load start_date end_date symbols llm_model_filter rows =
      cache_all []
        (sorted (λ r. r.created_at) (select_all start_date end_date symbols llm_model_filter rows))

  unfoldable pub get_decisions : ℕ → String → Replay D → List (ReplayDecision D)
  get_decisions target_date symbol [] = []
  get_decisions target_date symbol ((k, ds) ∷ cache) =
      let rest = get_decisions target_date symbol cache in
      if same_key k (target_date, symbol) then ds else rest

-- `_DECISION_TO_SIGNAL.get(decision)`
abbrev pub decision_to_signal : String → Option SignalAction
decision_to_signal decision =
    if str_eq decision "buy"
    then some SignalAction.buy
    else if str_eq decision "sell"
    then some SignalAction.sell
    else none

module _ {D : Type 0} ⦃d : Decimal D⦄ where
  unfoldable pub to_signal : ReplayDecision D → D → Option (Signal D)
  to_signal decision current_price =
      if lt decision.confidence (dec 5 ÷ dec 10)
      then none
      else elim (decision_to_signal decision.decision) [
        | none ↦ none
        | some action ↦ some (record {
          symbol = decision.symbol;
          action = action;
          confidence = decision.confidence;
          target_price = none;
          stop_loss_price = none;
          quantity = pos 0;
          position_value_krw = dec 0;
        })
      ]
