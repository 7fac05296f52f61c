-- ===== src/Tests/Backtest.antt =====
-- The replay of two decisions, and the windows of a year.
use stock_trading_agent.Base.{true, refl, ℕ, ◌+◌, ◌*◌, none, some, List, [], ◌∷◌, ◌≡◌, arith}
use stock_trading_agent.Base.Int.{ℤ, pos}
use stock_trading_agent.Base.Sorting.Order.{IsOrdered, count}
use stock_trading_agent.Backtest.Replay.{DecisionLog, load, get_decisions}
use stock_trading_agent.Backtest.Replay.Selection.{answered, get_decisions-answers}
use stock_trading_agent.Backtest.WalkForward.Windows.{Window, generate_windows}
use stock_trading_agent.Backtest.WalkForward.Tiling.{IsCalendar, Tiles, generate_windows-Tiles}

abbrev decided : ℕ → DecisionLog ℤ
decided created_at = record {
  symbol = some "005930";
  stage = "trade_decision";
  decision = "buy";
  confidence = some (pos 1);
  llm_model = none;
  created_at = created_at;
}

-- The later row is stored first; both are of the second day in Korea.
abbrev log : List (DecisionLog ℤ)
log = decided 2300 ∷ decided 2200 ∷ []

get_decisions-answers_example :
    IsOrdered (λ r. r.created_at) (get_decisions 1 "005930" (load 0 3 ("005930" ∷ []) none log))
    × (count (λ r. true) (get_decisions 1 "005930" (load 0 3 ("005930" ∷ []) none log))
        ≡ count (λ r. true) (answered 0 3 ("005930" ∷ []) none 1 "005930" log))
get_decisions-answers_example =
    get_decisions-answers 0 3 ("005930" ∷ []) none 1 "005930" log (λ r. true)

two_answers : count (λ r. true) (answered 0 3 ("005930" ∷ []) none 1 "005930" log) ≡ 2
unfolding answered
two_answers = refl

-- Months of thirty days.
abbrev add_months : ℕ → ℕ → ℕ
add_months date n = date + 30 * n

add_months-IsCalendar : IsCalendar add_months
add_months-IsCalendar = record {
  no_earlier = λ date. omega arith;
  later = λ date n. omega arith;
  mono = λ date m n le. omega arith;
}

generate_windows-Tiles_example :
    (ws : List Window) × (generate_windows add_months 360 6 2 1 ≡ some ws)
    × Tiles add_months 360 6 2 1 ws
generate_windows-Tiles_example = generate_windows-Tiles add_months add_months-IsCalendar 360 5 2 1
