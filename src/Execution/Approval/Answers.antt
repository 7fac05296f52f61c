-- ===== src/Execution/Approval/Answers.antt =====
-- What a request that waits comes to, from the answers that come in.
use stock_trading_agent.Base.{
  ℕ, Bool, true, false, Option, none, some, List, [], ◌∷◌, String, ◌≡◌, ◌≢◌, ◌⊎◌, refl, sym, ap,
  arith, inl, inr, Bool-cases, Option-cases, str_eq_iff, ltb, ◌+◌, if◌then◌else◌,
}
use mathlib.Core.Path.{subst}
use stock_trading_agent.Base.Int.{ℤ}
use stock_trading_agent.Base.Dict.{has, lookup, lookup-insert, lookup-remove}
use stock_trading_agent.Decimal.{Decimal, ◌≤◌}
use stock_trading_agent.Core.Enums.{ApprovalStatus, DecisionAction}
use stock_trading_agent.Execution.Approval.{
  ApprovalManager, Answer, parse_action, store_answer, signal_answer, handle_callback, react,
}
use stock_trading_agent.Execution.Approval.Request.{
  Callback, ApprovalSettings, TradeDecision, AutoReason, check_auto_approve, by_action, await_event,
  response_of, wait_for_response, register_request, open_request, clean_up, handle_manual_approve,
  finish,
}

-- The first answer in time that says something.
abbrev pub first_answer : (String → Option ℤ) → ℕ → List Callback → Option Answer
first_answer int_of deadline [] = none
first_answer int_of deadline (c ∷ cs) =
    let rest = first_answer int_of deadline cs in
    if ltb c.at deadline
    then elim (parse_action int_of c.action) [ none ↦ rest | some answer ↦ some answer ]
    else none

-- What the request comes to.
abbrev pub outcome_of : Option Answer → ApprovalStatus
outcome_of none = ApprovalStatus.timeout
outcome_of (some (status, quantity)) = status

-- Where the manager stands: what it has heard, or nothing.
abbrev Heard : String → Option Answer → ApprovalManager → Type 0
Heard request_id none m = lookup request_id m.pending_events ≡ some false
Heard request_id (some (status, quantity)) m =
    (lookup request_id m.pending_events ≡ some true)
    × (lookup request_id m.pending_results ≡ some status)

Heard-has :
    (request_id : String) (before : Option Answer) (m : ApprovalManager)
    → Heard request_id before m
    → has request_id m.pending_events ≡ true
Heard-has request_id none m h = ground arith
Heard-has request_id (some (status, quantity)) m h = ground arith

signal_answer-Heard :
    (request_id : String) (answer : Answer) (m : ApprovalManager)
    → Heard request_id (some answer) (signal_answer request_id answer m)
unfolding signal_answer
signal_answer-Heard request_id (status, quantity) m = (
  ground (
    arith,
    lookup-insert request_id request_id true m.pending_events,
    str_eq_iff request_id request_id,
  ),
  ground (
    arith,
    lookup-insert request_id request_id status m.pending_results,
    str_eq_iff request_id request_id,
  ),
)

module _ (int_of : String → Option ℤ) (request_id : String) where
  handle_callback-react :
      (action : String) (now : ℕ) (stored : Bool) (m : ApprovalManager)
      → has request_id m.pending_events ≡ true
      → handle_callback int_of action request_id now stored m
        ≡ react request_id now stored m (parse_action int_of action)
  unfolding handle_callback
  handle_callback-react action now stored m h = rw h refl

  -- Once the event is set, the wait is over.
  await_event-set :
      (deadline : ℕ) (answer : Answer) (cs : List Callback) (m : ApprovalManager)
      → Heard request_id (some answer) m
      → await_event int_of request_id deadline cs m ≡ m
  unfolding await_event
  await_event-set deadline answer [] m h = refl
  await_event-set deadline (status, quantity) (c ∷ cs) m h = ground arith

  -- One more handler, by what its action says.
  handle_callback-Heard :
      (deadline : ℕ) (c : Callback) (cs : List Callback) (said : Option Answer)
      (m : ApprovalManager)
      → Heard request_id none m
      → ((m' : ApprovalManager)
          → Heard request_id none m'
          → Heard request_id
              (first_answer int_of deadline cs)
              (await_event int_of request_id deadline cs m'))
      → Heard request_id
          (elim said [ none ↦ first_answer int_of deadline cs | some answer ↦ some answer ])
          (await_event int_of request_id deadline cs (react request_id c.at c.stored m said))
  unfolding react
  handle_callback-Heard deadline c cs none m h rest = rest m h
  handle_callback-Heard deadline c cs (some answer) m h rest =
      let heard =
        signal_answer-Heard request_id answer (store_answer request_id answer c.at c.stored m) in
      subst (Heard request_id (some answer)) (sym (await_event-set deadline answer cs _ heard))
        heard

  -- One round of the wait, in time or not.
  await_event-next :
      (deadline : ℕ) (c : Callback) (cs : List Callback) (m : ApprovalManager)
      → Heard request_id none m
      → ltb c.at deadline ≡ true
      → await_event int_of request_id deadline (c ∷ cs) m
        ≡ await_event int_of request_id deadline cs
            (react request_id c.at c.stored m (parse_action int_of c.action))
  unfolding await_event
  await_event-next deadline c cs m h early =
      let step = handle_callback-react c.action c.at c.stored m (Heard-has request_id none m h) in
      ground (arith, ap (await_event int_of request_id deadline cs) step)

  await_event-late :
      (deadline : ℕ) (c : Callback) (cs : List Callback) (m : ApprovalManager)
      → ltb c.at deadline ≡ false
      → await_event int_of request_id deadline (c ∷ cs) m ≡ m
  unfolding await_event
  await_event-late deadline c cs m late = ground arith

  await_event-Heard :
      (deadline : ℕ) (cs : List Callback) (m : ApprovalManager)
      → Heard request_id none m
      → Heard request_id
          (first_answer int_of deadline cs)
          (await_event int_of request_id deadline cs m)
  unfolding await_event
  await_event-Heard deadline [] m h = h
  await_event-Heard deadline (c ∷ cs) m h = elim (Bool-cases (ltb c.at deadline)) [
    | inl early ↦
        let heard =
          handle_callback-Heard deadline c cs (parse_action int_of c.action) m h
            (await_event-Heard deadline cs) in
        rw (await_event-next deadline c cs m h early, early) heard
    | inr late ↦ rw (await_event-late deadline c cs m late, late) h
  ]

  -- The wait ends with what was heard.
  response_of-Heard :
      (heard : Option Answer) (m : ApprovalManager)
      → Heard request_id heard m
      → response_of request_id m ≡ outcome_of heard
  unfolding response_of
  response_of-Heard none m h = ground arith
  response_of-Heard (some (status, quantity)) m h = ground arith

  register_request-Heard :
      (account_id : String) (m : ApprovalManager)
      → Heard request_id none (register_request request_id account_id m)
  unfolding register_request
  register_request-Heard account_id m = ground (
    arith,
    lookup-insert request_id request_id false m.pending_events,
    str_eq_iff request_id request_id,
  )

  -- A request for an answer returns what the first answer decided that said something within the time
  -- allowed from the start of the wait, or the timeout where none did; an unknown action says nothing,
  -- and later answers do not count. The request waits no longer after it.
  pub handle_manual_approve-answered :
      (order_id : ℕ) (account_id : String) (now timeout_sec since : ℕ) (answers : List Callback)
      (ended : ℕ) (m : ApprovalManager)
      → let (status, m') =
          handle_manual_approve int_of request_id order_id account_id now timeout_sec since answers
            ended m in
        (status ≡ outcome_of (first_answer int_of (since + timeout_sec) answers))
        × (has request_id m'.pending_events ≡ false)
  unfolding handle_manual_approve wait_for_response clean_up
  handle_manual_approve-answered order_id account_id now timeout_sec since answers ended m =
      let opened = open_request request_id order_id account_id now timeout_sec m in
      let waiting = register_request request_id account_id opened in
      let deadline = since + timeout_sec in
      let answered = await_event int_of request_id deadline answers waiting in
      let heard =
        await_event-Heard deadline answers waiting (register_request-Heard account_id opened) in
      let status = response_of request_id answered in
      (
        response_of-Heard (first_answer int_of deadline answers) answered heard,
        ground (
          arith,
          lookup-remove request_id request_id
              (finish status request_id order_id ended answered).pending_events,
          str_eq_iff request_id request_id,
        ),
      )

-- What each reason for doing without an answer rests on.
abbrev pub Justifies :
    {D : Type 0} ⦃d : Decimal D⦄ → ApprovalSettings D → TradeDecision D → D → AutoReason → Type 0
Justifies settings t portfolio_pct AutoReason.human_approval_disabled =
    settings.human_approval_required ≡ false
Justifies settings t portfolio_pct AutoReason.exit_order =
    (settings.human_approval_required ≡ true)
    × ((t.action ≡ DecisionAction.stop_loss) ⊎ (t.action ≡ DecisionAction.take_profit))
Justifies settings t portfolio_pct AutoReason.small_sell =
    (settings.human_approval_required ≡ true)
    × (t.action ≡ DecisionAction.sell)
    × (t.price ≢ none)
    × (portfolio_pct ≤ settings.auto_execute_max_portfolio_pct)

some_inj : {x y : AutoReason} → some x ≡ some y → x ≡ y
some_inj h = cc

module _ {D : Type 0} ⦃d : Decimal D⦄ where
  by_action-Justifies :
      (settings : ApprovalSettings D) (action : DecisionAction) (t : TradeDecision D) (pct : D)
      (reason : AutoReason)
      → settings.human_approval_required ≡ true
      → t.action ≡ action
      → by_action settings action t.price pct ≡ some reason
      → Justifies settings t pct reason
  by_action-Justifies settings DecisionAction.buy t pct reason on e h = absurd (ground arith)
  by_action-Justifies settings DecisionAction.hold t pct reason on e h = absurd (ground arith)
  by_action-Justifies settings DecisionAction.approve t pct reason on e h = absurd (ground arith)
  by_action-Justifies settings DecisionAction.reject t pct reason on e h = absurd (ground arith)
  by_action-Justifies settings DecisionAction.stop_loss t pct reason on e h =
      subst (Justifies settings t pct) (some_inj h) (on, inl e)
  by_action-Justifies settings DecisionAction.take_profit t pct reason on e h =
      subst (Justifies settings t pct) (some_inj h) (on, inr e)
  by_action-Justifies settings DecisionAction.sell t pct reason on e h =
      let small : (AutoReason.small_sell ≡ reason)
          × (t.price ≢ none)
          × (pct ≤ settings.auto_execute_max_portfolio_pct) =
        elim (Option-cases t.price) [
          | inl gone ↦ absurd (ground arith)
          | inr (price, given) ↦ (ground arith, λ gone. ground arith, ground arith)
        ] in
      subst (Justifies settings t pct) small.0 (on, e, small.1, small.2)

  -- A trade goes without an answer only where answers are not asked for at all, where it stops a loss
  -- or takes a profit, or where it sells at a given price no more than the share of the portfolio
  -- that the settings allow: a purchase never while answers are asked for.
  pub check_auto_approve-Justifies :
      (settings : ApprovalSettings D) (t : TradeDecision D) (pct : D) (reason : AutoReason)
      → check_auto_approve settings t pct ≡ some reason
      → Justifies settings t pct reason
  unfolding check_auto_approve
  check_auto_approve-Justifies settings t pct reason h =
      elim (Bool-cases settings.human_approval_required) [
        | inl on ↦ by_action-Justifies settings t.action t pct reason on refl (ground arith)
        | inr off ↦
            let same : AutoReason.human_approval_disabled ≡ reason = ground arith in
            subst (Justifies settings t pct) same off
      ]
