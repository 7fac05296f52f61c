-- ===== src/Execution/Approval/Late.antt =====
-- An answer that comes while a timeout is being handled, before the request is forgotten.
use stock_trading_agent.Base.{
  ℕ, true, false, Option, none, some, List, [], ◌∷◌, String, ◌≡◌, refl, arith, inl, inr, Bool-cases,
  str_eq, if◌then◌else◌,
}
use stock_trading_agent.Base.Int.{ℤ}
use stock_trading_agent.Base.Dict.{lookup}
use stock_trading_agent.Core.Enums.{ApprovalStatus}
use stock_trading_agent.Execution.Approval.{
  ApprovalManager, ApprovalRequest, RowStatus, update_where, parse_action, answer_request,
  store_answer, signal_answer, react, handle_callback,
}
use stock_trading_agent.Execution.Approval.Request.{handle_timeout, response_of, time_out}

-- The status of a request's row.
unfoldable pub status_of : String → List ApprovalRequest → Option RowStatus
status_of request_id [] = none
status_of request_id (r ∷ rs) =
    if str_eq r.request_id request_id then some r.status else status_of request_id rs

-- A row that is there has the status that an update of it writes.
status_of-update :
    (request_id : String) (change : ApprovalRequest → ApprovalRequest) (status : RowStatus)
    (rs : List ApprovalRequest) (old : RowStatus)
    → ((r : ApprovalRequest)
        → ((change r).status ≡ status) × ((change r).request_id ≡ r.request_id))
    → status_of request_id rs ≡ some old
    → status_of request_id (update_where (λ r. str_eq r.request_id request_id) change rs)
      ≡ some status
unfolding status_of update_where
status_of-update request_id change status [] old writes h = ground arith
status_of-update request_id change status (r ∷ rs) old writes h =
    let kept = writes r in
    elim (Bool-cases (str_eq r.request_id request_id)) [
      | inl own ↦ ground (arith, kept.0, kept.1)
      | inr other ↦
          let rest = status_of-update request_id change status rs old writes in ground (arith, rest)
    ]

-- A request whose wait ends without an answer returns the timeout, and its row says so; an answer that
-- is handled after that, while the request is still registered, then makes the row say what it decided.
pub late_answer-stored :
    (int_of : String → Option ℤ) (action request_id : String) (order_id ended late : ℕ)
    (m : ApprovalManager) (status : ApprovalStatus) (quantity : Option ℤ) (old : RowStatus)
    → lookup request_id m.pending_events ≡ some false
    → status_of request_id m.requests ≡ some old
    → parse_action int_of action ≡ some (status, quantity)
    → let timed_out = handle_timeout request_id order_id ended m in
      (response_of request_id m ≡ ApprovalStatus.timeout)
      × (status_of request_id timed_out.requests ≡ some (RowStatus.settled ApprovalStatus.timeout))
      × (status_of request_id
            (handle_callback int_of action request_id late true timed_out).requests
          ≡ some (RowStatus.settled status))
unfolding handle_timeout handle_callback react store_answer signal_answer answer_request response_of
late_answer-stored int_of action request_id order_id ended late m status quantity old waits there
      said =
    let settled =
      status_of-update request_id (time_out ended) (RowStatus.settled ApprovalStatus.timeout)
        m.requests old (λ r. (refl, refl)) there in
    (
      ground arith,
      settled,
      ground (
        arith,
        waits,
        said,
        status_of-update request_id (answer_request (status, quantity) late)
            (RowStatus.settled status) (handle_timeout request_id order_id ended m).requests
            (RowStatus.settled ApprovalStatus.timeout) (λ r. (refl, refl)) settled,
      ),
    )
