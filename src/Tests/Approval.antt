-- ===== src/Tests/Approval.antt =====
-- A request that is answered, one that is answered too late, and one that expired.
use stock_trading_agent.Base.{
  true, false, none, some, Option, List, [], ◌∷◌, String, ◌≡◌, refl, str_eq, if◌then◌else◌, any,
  ◌&&◌, ◌==◌,
}
use stock_trading_agent.Base.Int.{ℤ, pos}
use stock_trading_agent.Base.All.{All}
use stock_trading_agent.Base.Dict.{has, lookup}
use stock_trading_agent.Decimal.Won.{won}
use stock_trading_agent.Core.Enums.{ApprovalStatus, DecisionAction}
use stock_trading_agent.Execution.Approval.{
  ApprovalManager, RowStatus, handle_callback, parse_action,
}
use stock_trading_agent.Execution.Approval.Request.{
  ApprovalSettings, AutoReason, Callback, TradeDecision, check_auto_approve, handle_manual_approve,
  handle_timeout, initialize, response_of, is_expired, new_request,
}
use stock_trading_agent.Execution.Approval.Answers.{
  Justifies, check_auto_approve-Justifies, handle_manual_approve-answered, outcome_of, first_answer,
}
use stock_trading_agent.Execution.Approval.Late.{status_of, late_answer-stored}
use stock_trading_agent.Execution.Approval.Expiry.{initialize-settles}

abbrev int_of : String → Option ℤ
int_of text = if str_eq text "5" then some (pos 5) else none

abbrev idle : ApprovalManager
idle = record {
  requests = [];
  orders = record { id = 1; approval_status = none; modified_quantity = none } ∷ [];
  pending_events = [];
  pending_results = [];
  modified_quantities = [];
  pending_account_ids = [];
}

-- A text that says nothing, the answer that counts, and one after it.
abbrev answers : List Callback
answers =
    record { action = "hello"; at = 11; stored = true }
    ∷ record { action = "modify:5"; at = 12; stored = true }
    ∷ record { action = "reject"; at = 13; stored = true }
    ∷ []

handle_manual_approve-answered_example :
    ((handle_manual_approve int_of "r" 1 "default" 0 300 10 answers 300 idle).0
      ≡ outcome_of (first_answer int_of 310 answers))
    × (has "r"
          (handle_manual_approve int_of "r" 1 "default" 0 300 10 answers 300 idle).1.pending_events
        ≡ false)
handle_manual_approve-answered_example =
    handle_manual_approve-answered int_of "r" 1 "default" 0 300 10 answers 300 idle

changed_quantity : first_answer int_of 310 answers ≡ some (ApprovalStatus.approved, some (pos 5))
unfolding parse_action
changed_quantity = refl

abbrev settings : ApprovalSettings ℤ
settings = record {
  human_approval_required = true;
  auto_execute_max_portfolio_pct = pos 5;
  human_approval_timeout_sec = 300;
}

abbrev small_sale : TradeDecision ℤ
small_sale = record { action = DecisionAction.sell; quantity = pos 1; price = some (pos 100) }

small : check_auto_approve settings small_sale (pos 1) ≡ some AutoReason.small_sell
unfolding check_auto_approve
small = refl

check_auto_approve-Justifies_example : Justifies settings small_sale (pos 1) AutoReason.small_sell
check_auto_approve-Justifies_example =
    check_auto_approve-Justifies settings small_sale (pos 1) AutoReason.small_sell small

abbrev waiting : ApprovalManager
waiting = record idle {
  requests = new_request "r" 1 "default" RowStatus.pending 0 none 300 ∷ [];
  pending_events = ("r", false) ∷ [];
}

is_waiting : lookup "r" waiting.pending_events ≡ some false
unfolding lookup
is_waiting = refl

row_pending : status_of "r" waiting.requests ≡ some RowStatus.pending
unfolding status_of
row_pending = refl

says_approve : parse_action int_of "approve" ≡ some (ApprovalStatus.approved, none)
unfolding parse_action
says_approve = refl

late_answer-stored_example :
    (response_of "r" waiting ≡ ApprovalStatus.timeout)
    × (status_of "r" (handle_timeout "r" 1 300 waiting).requests
        ≡ some (RowStatus.settled ApprovalStatus.timeout))
    × (status_of "r"
          (handle_callback int_of "approve" "r" 301 true
            (handle_timeout "r" 1 300 waiting)).requests
        ≡ some (RowStatus.settled ApprovalStatus.approved))
late_answer-stored_example =
    late_answer-stored int_of "approve" "r" 1 300 301 waiting ApprovalStatus.approved none
      RowStatus.pending is_waiting row_pending says_approve

initialize-settles_example :
    All (λ r. is_expired 400 r ≡ false) (initialize 400 waiting).requests
    × All
        (λ o.
          any (λ r. is_expired 400 r && r.order_id == o.id) waiting.requests ≡ true
          → o.approval_status ≡ some ApprovalStatus.timeout)
        (initialize 400 waiting).orders
initialize-settles_example = initialize-settles 400 waiting
