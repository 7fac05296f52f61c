-- ===== src/Execution/Approval.antt =====
-- `ApprovalManager` (src/execution/approval.py): its state, what an answer says, and what it does. A
-- request's identifier is its text, and a time is a number of seconds.
pub mod Request
pub mod Answers
pub mod Late
pub mod Expiry
use Prim.Native.String.{len, slice}
use text.Mathlib.Text.{starts_with}
use stock_trading_agent.Base.{
  ℕ, Bool, true, false, Option, none, some, List, [], ◌∷◌, String, str_eq, ◌==◌, if◌then◌else◌,
}
use stock_trading_agent.Base.Int.{ℤ, pos, leb_ℤ}
use stock_trading_agent.Base.Dict.{Dict, has, insert, remove}
use stock_trading_agent.Base.Effects.{Method, Outcome, ok, err}
use stock_trading_agent.Core.Enums.{ApprovalStatus}

-- The status column: `pending`, or the value of an `ApprovalStatus`.
pub data RowStatus : Type 0 where
  pending : RowStatus
  settled : ApprovalStatus → RowStatus

-- A row of `approval_requests`, and the columns of an order that are read here.
pub record ApprovalRequest : Type 0 where
  pub request_id : String
  pub order_id : ℕ
  pub account_id : String
  pub status : RowStatus
  pub modified_quantity : Option ℤ
  pub requested_at : ℕ
  pub responded_at : Option ℕ
  pub expires_at : ℕ

pub record Order : Type 0 where
  pub id : ℕ
  pub approval_status : Option ApprovalStatus
  pub modified_quantity : Option ℤ

-- The manager with its two tables. An event is whether it is set.
pub record ApprovalManager : Type 0 where
  pub requests : List ApprovalRequest
  pub orders : List Order
  pub pending_events : Dict Bool
  pub pending_results : Dict ApprovalStatus
  pub modified_quantities : Dict ℤ
  pub pending_account_ids : Dict String

-- `update(...).where(...).values(...)`
unfoldable pub update_where : {A : Type 0} → (A → Bool) → (A → A) → List A → List A
update_where test change [] = []
update_where test change (x ∷ xs) = (if test x then change x else x) ∷ update_where test change xs

-- `scalar_one_or_none` of the order of a request; a request's identifier is unique.
unfoldable pub order_of_request : String → List ApprovalRequest → Option ℕ
order_of_request request_id [] = none
order_of_request request_id (r ∷ rs) =
    if str_eq r.request_id request_id then some r.order_id else order_of_request request_id rs

-- What an answer decides: the status, and the new quantity.
abbrev pub Answer : Type 0
Answer = ApprovalStatus × Option ℤ

-- `except`: what is no number, or not positive, is a refusal.
abbrev pub modified : Option ℤ → Answer
modified none = (ApprovalStatus.rejected, none)
modified (some quantity) =
    if leb_ℤ quantity (pos 0)
    then (ApprovalStatus.rejected, none)
    else (ApprovalStatus.approved, some quantity)

-- The parsing of an action, with `int` of a text as a parameter. Nothing for an unknown action.
unfoldable pub parse_action : (String → Option ℤ) → String → Option Answer
parse_action int_of action =
    if str_eq action "approve"
    then some (ApprovalStatus.approved, none)
    else if str_eq action "reject"
    then some (ApprovalStatus.rejected, none)
    else if starts_with action "modify:"
    then some (modified (int_of (slice action 7 (len action))))
    else none

-- A quantity is written only where the answer has one.
abbrev pub new_quantity : Option ℤ → Option ℤ → Option ℤ
new_quantity none old = old
new_quantity (some quantity) old = some quantity

unfoldable pub answer_request : Answer → ℕ → ApprovalRequest → ApprovalRequest
answer_request (status, quantity) now r = record r {
  status = RowStatus.settled status;
  responded_at = some now;
  modified_quantity = new_quantity quantity r.modified_quantity;
}

unfoldable pub answer_order : Answer → Order → Order
answer_order (status, quantity) o = record o {
  approval_status = some status;
  modified_quantity = new_quantity quantity o.modified_quantity;
}

abbrev pub answer_orders : Answer → Option ℕ → List Order → List Order
answer_orders answer none orders = orders
answer_orders answer (some id) orders = update_where (λ o. o.id == id) (answer_order answer) orders

-- The `try` around the database; where it fails, both tables stay.
unfoldable pub store_answer : String → Answer → ℕ → Bool → ApprovalManager → ApprovalManager
unfolding answer_request answer_order update_where order_of_request
store_answer request_id answer now false m = m
store_answer request_id answer now true m = record m {
  requests =
      update_where (λ r. str_eq r.request_id request_id) (answer_request answer now) m.requests;
  orders = answer_orders answer (order_of_request request_id m.requests) m.orders;
}

abbrev pub put_quantity : String → Option ℤ → Dict ℤ → Dict ℤ
put_quantity request_id none quantities = quantities
put_quantity request_id (some quantity) quantities = insert request_id quantity quantities

-- The end of the handler: the result, and the event.
unfoldable pub signal_answer : String → Answer → ApprovalManager → ApprovalManager
signal_answer request_id (status, quantity) m = record m {
  pending_results = insert request_id status m.pending_results;
  modified_quantities = put_quantity request_id quantity m.modified_quantities;
  pending_events = insert request_id true m.pending_events;
}

-- What is done with what the action says; an unknown action is ignored.
unfoldable pub react : String → ℕ → Bool → ApprovalManager → Option Answer → ApprovalManager
unfolding store_answer signal_answer
react request_id now stored m none = m
react request_id now stored m (some answer) =
    signal_answer request_id answer (store_answer request_id answer now stored m)

-- `_handle_callback`; the cache and the messages are left out. Whether the database answers is
-- `stored`.
unfoldable pub handle_callback :
    (String → Option ℤ) → String → String → ℕ → Bool → ApprovalManager → ApprovalManager
unfolding parse_action react
handle_callback int_of action request_id now stored m =
    if has request_id m.pending_events
    then react request_id now stored m (parse_action int_of action)
    else m
