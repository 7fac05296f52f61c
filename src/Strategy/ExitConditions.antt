-- ===== src/Strategy/ExitConditions.antt =====
-- `ExitConditionChecker` (src/strategy/exit_checker.py): when a stored position is to be sold. The
-- texts of the signals are left out; they repeat the other fields.
pub mod Exclusive
use stock_trading_agent.Base.{ℕ, ◌-◌, Bool, Option, none, some, String, leb, if◌then◌else◌}
use stock_trading_agent.Base.Int.{ℤ, pos, leb_ℤ, sub_ℕ}
use stock_trading_agent.Decimal.{Decimal, le, lt}
use stock_trading_agent.Core.Enums.{ExitReason, DecisionAction}
use stock_trading_agent.Core.Models.{ExitSignal, PortfolioState}
use stock_trading_agent.Strategy.PositionManager.{PositionRecord}

module _ {D : Type 0} ⦃d : Decimal D⦄ where
  unfoldable pub check_stop_loss : PositionRecord D → D → D → Option (ExitSignal D)
  check_stop_loss position current_price unrealized_pnl_pct =
      if le current_price position.stop_loss_price
      then some (record {
        symbol = position.symbol;
        reason = ExitReason.stop_loss;
        urgency = "immediate";
        current_price = current_price;
        trigger_price = some position.stop_loss_price;
        unrealized_pnl_pct = unrealized_pnl_pct;
        recommended_action = DecisionAction.stop_loss;
      })
      else none

  unfoldable pub check_take_profit : PositionRecord D → D → D → Option (ExitSignal D)
  check_take_profit position current_price unrealized_pnl_pct = elim position.take_profit_price [
    | none ↦ none
    | some target ↦
        if le target current_price
        then some (record {
          symbol = position.symbol;
          reason = ExitReason.take_profit;
          urgency = "end_of_day";
          current_price = current_price;
          trigger_price = some target;
          unrealized_pnl_pct = unrealized_pnl_pct;
          recommended_action = DecisionAction.take_profit;
        })
        else none
  ]

  unfoldable pub check_trailing_stop : PositionRecord D → D → D → D → Option (ExitSignal D)
  check_trailing_stop position current_price unrealized_pnl_pct trailing_stop_price =
      if le current_price trailing_stop_price
      then some (record {
        symbol = position.symbol;
        reason = ExitReason.trailing_stop;
        urgency = "immediate";
        current_price = current_price;
        trigger_price = some trailing_stop_price;
        unrealized_pnl_pct = unrealized_pnl_pct;
        recommended_action = DecisionAction.sell;
      })
      else none

  -- `(today - position.entry_date).days`, which may be negative.
  unfoldable pub check_time_based : PositionRecord D → D → D → ℕ → String → Option (ExitSignal D)
  check_time_based position current_price unrealized_pnl_pct today time_urgency =
      elim position.max_holding_days [
        | none ↦ none
        | some days ↦
            if leb_ℤ days (sub_ℕ today position.entry_date)
            then some (record {
              symbol = position.symbol;
              reason = ExitReason.time_based;
              urgency = time_urgency;
              current_price = current_price;
              trigger_price = none;
              unrealized_pnl_pct = unrealized_pnl_pct;
              recommended_action = DecisionAction.sell;
            })
            else none
      ]

  -- Strictly above the limit: every position is to be sold.
  unfoldable pub check_drawdown_exit : D → PortfolioState D → Bool
  check_drawdown_exit max_drawdown_pct state = lt max_drawdown_pct state.drawdown_pct
