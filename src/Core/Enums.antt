-- ===== src/Core/Enums.antt =====
-- The enums of src/core/enums.py that the modelled components use. `open` is written `opened`.
use stock_trading_agent.Base.{
  Bool, true, false, Option, none, some, String, str_eq, if◌then◌else◌, ◌≡◌, refl,
}

pub data MarketType : Type 0 where
  kospi kosdaq : MarketType

pub data OrderSide : Type 0 where
  buy sell : OrderSide

pub data OrderType : Type 0 where
  market limit : OrderType

pub data OrderStatus : Type 0 where
  pending submitted filled partially_filled cancelled rejected failed : OrderStatus

pub data PositionStatus : Type 0 where
  opened closed partially_closed : PositionStatus

pub data SignalAction : Type 0 where
  buy sell hold : SignalAction

pub data DecisionAction : Type 0 where
  buy sell hold approve reject stop_loss take_profit : DecisionAction

pub data StrategyType : Type 0 where
  position swing : StrategyType

pub data ExitReason : Type 0 where
  stop_loss take_profit trailing_stop time_based fundamental llm_signal drawdown manual : ExitReason

-- `status in (OrderStatus.PENDING, OrderStatus.SUBMITTED)`
abbrev pub is_cancellable : OrderStatus → Bool
is_cancellable OrderStatus.pending = true
is_cancellable OrderStatus.submitted = true
is_cancellable _ = false

pub data BacktestStatus : Type 0 where
  pending running completed failed : BacktestStatus

pub data BacktestMode : Type 0 where
  technical llm_replay llm_live : BacktestMode

-- `reason.value`
abbrev pub reason_value : ExitReason → String
reason_value ExitReason.stop_loss = "stop_loss"
reason_value ExitReason.take_profit = "take_profit"
reason_value ExitReason.trailing_stop = "trailing_stop"
reason_value ExitReason.time_based = "time_based"
reason_value ExitReason.fundamental = "fundamental"
reason_value ExitReason.llm_signal = "llm_signal"
reason_value ExitReason.drawdown = "drawdown"
reason_value ExitReason.manual = "manual"

-- The member with a value, which a field of type `ExitReason` accepts in place of the member.
unfoldable pub reason_of_value : String → Option ExitReason
reason_of_value text =
    if str_eq text "stop_loss"
    then some ExitReason.stop_loss
    else if str_eq text "take_profit"
    then some ExitReason.take_profit
    else if str_eq text "trailing_stop"
    then some ExitReason.trailing_stop
    else if str_eq text "time_based"
    then some ExitReason.time_based
    else if str_eq text "fundamental"
    then some ExitReason.fundamental
    else if str_eq text "llm_signal"
    then some ExitReason.llm_signal
    else if str_eq text "drawdown"
    then some ExitReason.drawdown
    else if str_eq text "manual"
    then some ExitReason.manual
    else none

pub reason_of_value-reason_value :
    (reason : ExitReason) → reason_of_value (reason_value reason) ≡ some reason
unfolding reason_of_value
reason_of_value-reason_value ExitReason.stop_loss = refl
reason_of_value-reason_value ExitReason.take_profit = refl
reason_of_value-reason_value ExitReason.trailing_stop = refl
reason_of_value-reason_value ExitReason.time_based = refl
reason_of_value-reason_value ExitReason.fundamental = refl
reason_of_value-reason_value ExitReason.llm_signal = refl
reason_of_value-reason_value ExitReason.drawdown = refl
reason_of_value-reason_value ExitReason.manual = refl

pub data ApprovalStatus : Type 0 where
  auto_approved approved rejected timeout : ApprovalStatus
