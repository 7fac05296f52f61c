-- ===== src/Execution/Approval/Request.antt =====
-- The life of a request: the test for the automatic approval, the two paths, and the clean-up.
use stock_trading_agent.Base.{
  ℕ, ◌+◌, ◌&&◌, Bool, true, false, not, Option, none, some, List, [], ◌∷◌, ◌++◌, String, str_eq,
  ◌==◌, ltb, any, if◌then◌else◌,
}
use stock_trading_agent.Base.Int.{ℤ}
use stock_trading_agent.Base.Dict.{lookup, insert, remove}
use stock_trading_agent.Decimal.{Decimal, ◌*◌, ◌/◌, of_int, dec, lt, le}
use stock_trading_agent.Core.Enums.{ApprovalStatus, DecisionAction}
use stock_trading_agent.Execution.Approval.{
  ApprovalManager, ApprovalRequest, Order, RowStatus, update_where, handle_callback,
}

-- Why a request needs no answer.
pub data AutoReason : Type 0 where
  human_approval_disabled exit_order small_sell : AutoReason

-- What the test reads of a `TradeDecision`.
pub record TradeDecision (D : Type 0) : Type 0 where
  pub action : DecisionAction
  pub quantity : ℤ
  pub price : Option D

pub record ApprovalSettings (D : Type 0) : Type 0 where
  pub human_approval_required : Bool
  pub auto_execute_max_portfolio_pct : D
  pub human_approval_timeout_sec : ℕ

module _ {D : Type 0} ⦃d : Decimal D⦄ where
  -- `trade_decision.price or Decimal("0")`
  abbrev pub price_or_zero : Option D → D
  price_or_zero none = dec 0
  price_or_zero (some price) = price

  -- The share of the portfolio, in percent.
  unfoldable pub portfolio_pct_of : TradeDecision D → D → D
  portfolio_pct_of t total_value =
      if lt (dec 0) total_value
      then of_int t.quantity * price_or_zero t.price / total_value * dec 100
      else dec 0

  abbrev pub small_sell_of : ApprovalSettings D → Option D → D → Option AutoReason
  small_sell_of settings none portfolio_pct = none
  small_sell_of settings (some price) portfolio_pct =
      if le portfolio_pct settings.auto_execute_max_portfolio_pct
      then some AutoReason.small_sell
      else none

  abbrev pub by_action : ApprovalSettings D → DecisionAction → Option D → D → Option AutoReason
  by_action settings DecisionAction.stop_loss price portfolio_pct = some AutoReason.exit_order
  by_action settings DecisionAction.take_profit price portfolio_pct = some AutoReason.exit_order
  by_action settings DecisionAction.sell price portfolio_pct =
      small_sell_of settings price portfolio_pct
  by_action settings _ price portfolio_pct = none

  unfoldable pub check_auto_approve : ApprovalSettings D → TradeDecision D → D → Option AutoReason
  check_auto_approve settings t portfolio_pct =
      if not settings.human_approval_required
      then some AutoReason.human_approval_disabled
      else by_action settings t.action t.price portfolio_pct

abbrev pub new_request : String → ℕ → String → RowStatus → ℕ → Option ℕ → ℕ → ApprovalRequest
new_request request_id order_id account_id status now responded_at expires_at = record {
  request_id = request_id;
  order_id = order_id;
  account_id = account_id;
  status = status;
  modified_quantity = none;
  requested_at = now;
  responded_at = responded_at;
  expires_at = expires_at;
}

unfoldable pub settle_order : ApprovalStatus → ℕ → List Order → List Order
unfolding update_where
settle_order status id orders =
    update_where (λ o. o.id == id) (λ o. record o { approval_status = some status }) orders

-- `_handle_auto_approve`, without its log and its message.
unfoldable pub handle_auto_approve : String → ℕ → String → ℕ → ApprovalManager → ApprovalManager
unfolding settle_order
handle_auto_approve request_id order_id account_id now m = record m {
  requests =
      m.requests
      ++ (new_request request_id order_id account_id
            (RowStatus.settled ApprovalStatus.auto_approved) now (some now) now
          ∷ []);
  orders = settle_order ApprovalStatus.auto_approved order_id m.orders;
}

-- The row of a request that waits. The message goes out next, before the request is registered.
unfoldable pub open_request : String → ℕ → String → ℕ → ℕ → ApprovalManager → ApprovalManager
open_request request_id order_id account_id now timeout_sec m = record m {
  requests =
      m.requests
      ++ (new_request request_id order_id account_id RowStatus.pending now none (now + timeout_sec)
          ∷ []);
}

unfoldable pub register_request : String → String → ApprovalManager → ApprovalManager
register_request request_id account_id m = record m {
  pending_events = insert request_id false m.pending_events;
  pending_account_ids = insert request_id account_id m.pending_account_ids;
}

-- Whether the event of a request is set.
abbrev pub is_set : String → ApprovalManager → Bool
is_set request_id m = elim (lookup request_id m.pending_events) [ none ↦ false | some set ↦ set ]

-- An answer that comes in: the action, when its handler is through with it, and whether the database
-- stores it. Handlers run one after the other here.
pub record Callback : Type 0 where
  pub action : String
  pub at : ℕ
  pub stored : Bool

-- The handlers that run while the event is awaited: until it is set, or the time is up. What comes
-- later does not count for this wait.
unfoldable pub await_event :
    (String → Option ℤ) → String → ℕ → List Callback → ApprovalManager → ApprovalManager
unfolding handle_callback
await_event int_of request_id deadline [] m = m
await_event int_of request_id deadline (c ∷ cs) m =
    let next =
      await_event int_of request_id deadline cs
        (handle_callback int_of c.action request_id c.at c.stored m) in
    if is_set request_id m then m else if ltb c.at deadline then next else m

-- How the wait ends: a set event with its result, or the timeout.
unfoldable pub response_of : String → ApprovalManager → ApprovalStatus
response_of request_id m =
    if is_set request_id m
    then elim (lookup request_id m.pending_results) [
      | none ↦ ApprovalStatus.timeout
      | some status ↦ status
    ]
    else ApprovalStatus.timeout

-- `_wait_for_response`
unfoldable pub wait_for_response :
    (String → Option ℤ)
    → String
    → ℕ
    → List Callback
    → ApprovalManager
    → ApprovalStatus × ApprovalManager
unfolding await_event response_of
wait_for_response int_of request_id deadline answers m =
    let m' = await_event int_of request_id deadline answers m in (response_of request_id m', m')

abbrev pub time_out : ℕ → ApprovalRequest → ApprovalRequest
time_out now r = record r {
  status = RowStatus.settled ApprovalStatus.timeout;
  responded_at = some now;
}

-- `_handle_timeout`, on the tables.
unfoldable pub handle_timeout : String → ℕ → ℕ → ApprovalManager → ApprovalManager
unfolding update_where settle_order
handle_timeout request_id order_id now m = record m {
  requests = update_where (λ r. str_eq r.request_id request_id) (time_out now) m.requests;
  orders = settle_order ApprovalStatus.timeout order_id m.orders;
}

-- What the manager forgets at the end; the changed quantity stays for the executor.
unfoldable pub clean_up : String → ApprovalManager → ApprovalManager
clean_up request_id m = record m {
  pending_events = remove request_id m.pending_events;
  pending_results = remove request_id m.pending_results;
  pending_account_ids = remove request_id m.pending_account_ids;
}

abbrev pub finish : ApprovalStatus → String → ℕ → ℕ → ApprovalManager → ApprovalManager
finish ApprovalStatus.timeout request_id order_id now m = handle_timeout request_id order_id now m
finish _ request_id order_id now m = m

-- `_handle_manual_approve`: the row is written at `now`, the wait begins at `since`, once the message
-- is out, and a timeout is handled at `ended`. `answers` are those that come in from then on, in order.
unfoldable pub handle_manual_approve :
    (String → Option ℤ)
    → String
    → ℕ
    → String
    → ℕ
    → ℕ
    → ℕ
    → List Callback
    → ℕ
    → ApprovalManager
    → ApprovalStatus × ApprovalManager
unfolding open_request register_request wait_for_response handle_timeout clean_up
handle_manual_approve int_of request_id order_id account_id now timeout_sec since answers ended m =
    let waiting =
      register_request request_id account_id
        (open_request request_id order_id account_id now timeout_sec m) in
    let (status, answered) =
      wait_for_response int_of request_id (since + timeout_sec) answers waiting in
    (status, clean_up request_id (finish status request_id order_id ended answered))

-- `initialize`: the requests that wait past their time, and their orders.
abbrev pub is_pending : RowStatus → Bool
is_pending RowStatus.pending = true
is_pending (RowStatus.settled status) = false

abbrev pub is_expired : ℕ → ApprovalRequest → Bool
is_expired now r = is_pending r.status && ltb r.expires_at now

unfoldable pub initialize : ℕ → ApprovalManager → ApprovalManager
unfolding update_where
initialize now m = record m {
  requests = update_where (is_expired now) (time_out now) m.requests;
  orders =
      update_where (λ o. any (λ r. is_expired now r && r.order_id == o.id) m.requests)
        (λ o. record o { approval_status = some ApprovalStatus.timeout }) m.orders;
}

unfoldable pub get_modified_quantity : String → ApprovalManager → Option ℤ
get_modified_quantity request_id m = lookup request_id m.modified_quantities

-- `request_approval`, with what a request that waits is answered.
unfoldable pub request_approval :
    {D : Type 0} ⦃d : Decimal D⦄
    → ApprovalSettings D
    → (String → Option ℤ)
    → TradeDecision D
    → D
    → String
    → ℕ
    → String
    → ℕ
    → ℕ
    → List Callback
    → ℕ
    → ApprovalManager
    → ApprovalStatus × ApprovalManager
unfolding portfolio_pct_of check_auto_approve handle_auto_approve handle_manual_approve
request_approval settings int_of t total_value request_id order_id account_id now since answers
      ended m =
    elim (check_auto_approve settings t (portfolio_pct_of t total_value)) [
      | some reason ↦
          (ApprovalStatus.auto_approved, handle_auto_approve request_id order_id account_id now m)
      | none ↦
          handle_manual_approve int_of request_id order_id account_id now
            settings.human_approval_timeout_sec since answers ended m
    ]
