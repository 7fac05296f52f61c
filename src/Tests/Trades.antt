-- ===== src/Tests/Trades.antt =====
-- Runs of the sizer, the exit prices and conditions, and the table of positions.
use stock_trading_agent.Base.{length, ◌&&◌, none, some, [], ◌≡◌, ◌≢◌, refl, ◌↔◌, arith, false}
use stock_trading_agent.Base.Int.{ℤ, pos, ◌-ℤ◌, ◌*ℤ◌}
use stock_trading_agent.Base.Effects.{ok, err}
use stock_trading_agent.Decimal.{dec, ◌<◌, eq}
use stock_trading_agent.Decimal.Won.{won, quot, Won-IsOrdered, Won-IsExact}
use stock_trading_agent.Core.Enums.{ExitReason, StrategyType}
use stock_trading_agent.Core.Models.{PositionSizing}
use stock_trading_agent.Strategy.ExitPrices.{atr_based, risk_reward_ratio}
use stock_trading_agent.Strategy.ExitPrices.Order.{AroundEntry, atr_based-AroundEntry}
use stock_trading_agent.Strategy.ExitConditions.{check_stop_loss, check_take_profit}
use stock_trading_agent.Strategy.ExitConditions.Exclusive.{check_stop_loss-excludes}
use stock_trading_agent.Strategy.Sizing.{
  PositionSizer, calculate, sized_quantity, reward_of, share_pct, cap_from_krw, cap_from_pct,
  risk_quantity,
}
use stock_trading_agent.Strategy.Sizing.Caps.{Within, IsSettled, calculate-Within}
use stock_trading_agent.Strategy.Sizing.Total.{calculate-accepts}
use stock_trading_agent.Strategy.PositionManager.{
  get_open, is_opened, PositionRecord, Table, Entry, RecordStatus, DatabaseError, new_record,
  create, find, closing, close,
}
use stock_trading_agent.Strategy.PositionManager.Queries.{
  IsSorted, count, selected, get_open-IsSorted,
}
use stock_trading_agent.Strategy.PositionManager.Lifecycle.{Changed}
use stock_trading_agent.Strategy.PositionManager.Closing.{Step, Reach, close-once, closed-stays}

abbrev sizer : PositionSizer ℤ
sizer = record { risk_pct = pos 2; max_position_pct = pos 20; max_position_krw = pos 5000 }

-- By risk 200 shares, by percentage 200, by amount 50, of which 10 are held.
abbrev size : PositionSizing ℤ
size = record {
  symbol = "005930";
  entry_price = pos 100;
  stop_loss_price = pos 90;
  take_profit_price = some (pos 120);
  risk_per_share = pos 10;
  quantity = pos 40;
  position_value_krw = pos 4000;
  risk_amount_krw = pos 400;
  risk_pct_of_portfolio = pos 0;
  position_pct_of_portfolio = pos 0;
  risk_reward_ratio = some (pos 2);
}

sized :
    calculate sizer "005930" (pos 100) (pos 90) (some (pos 120)) (pos 100000) (pos 1000) ≡ ok size
unfolding calculate reward_of risk_reward_ratio ◌-ℤ◌ sized_quantity ◌*ℤ◌ share_pct quot cap_from_krw
    cap_from_pct risk_quantity
sized = refl

sizer-IsSettled : IsSettled sizer
sizer-IsSettled = record { risk = refl; pct = refl; krw = refl }

calculate-Within_example : Within sizer (pos 100000) (pos 1000) size
calculate-Within_example =
    calculate-Within Won-IsOrdered Won-IsExact sizer sizer-IsSettled "005930" (pos 100) (pos 90)
      (some (pos 120)) (pos 100000) (pos 1000) sized

calculate-accepts_example :
    ((dec 0 < pos 100) × (dec 0 < pos 90) × (eq (pos 100) (pos 90) ≡ false) × (dec 0 < pos 100000))
    ↔ ((r : PositionSizing ℤ) × (calculate sizer "005930"
            (pos 100)
            (pos 90)
            (some (pos 120))
            (pos 100000)
            (pos 1000)
          ≡ ok r))
calculate-accepts_example =
    calculate-accepts Won-IsOrdered sizer "005930" (pos 100) (pos 90) (some (pos 120)) (pos 100000)
      (pos 1000)

atr_based-AroundEntry_example :
    (stop : ℤ) × (target : ℤ) × (atr_based (pos 100) (pos 4) (pos 2) (pos 3) ≡ ok (stop, target))
    × AroundEntry (pos 100) stop target
atr_based-AroundEntry_example =
    atr_based-AroundEntry Won-IsOrdered Won-IsExact (pos 100) (pos 4) (pos 2) (pos 3) refl refl refl
      refl

abbrev entry : Entry ℤ
entry = record {
  symbol = "005930";
  strategy_type = StrategyType.swing;
  quantity = pos 10;
  entry_price = pos 100;
  stop_loss_price = pos 90;
  take_profit_price = some (pos 120);
  trailing_stop_pct = none;
  max_holding_days = some (pos 5);
  entry_session_id = none;
  account_id = "default";
}

abbrev empty : Table ℤ
empty = record { rows = []; next_id = 1 }

abbrev one_open : Table ℤ
one_open = (create entry 3 empty).1

abbrev opened_row : PositionRecord ℤ
opened_row = new_record entry 3 1

abbrev closed_row : PositionRecord ℤ
closed_row = closing (pos 120) ExitReason.take_profit none 4 opened_row

abbrev one_closed : Table ℤ
one_closed = (close 1 (pos 120) ExitReason.take_profit none 4 one_open).1

open_found : find 1 one_open.rows ≡ some opened_row
unfolding create find new_record
open_found = refl

is_open : opened_row.status ≡ RecordStatus.opened
unfolding new_record
is_open = refl

close-once_example :
    ((close 1 (pos 120) ExitReason.take_profit none 4 one_open).0 ≡ ok closed_row)
    × Changed 1 closed_row one_open one_closed
    × (close 1 (pos 80) ExitReason.stop_loss none 5 one_closed
        ≡ (err DatabaseError.already_closed, one_closed))
close-once_example =
    close-once 1 (pos 120) (pos 80) ExitReason.take_profit ExitReason.stop_loss none none 4 5
      one_open opened_row open_found is_open

closed_found : find 1 one_closed.rows ≡ some closed_row
unfolding close create find new_record closing
closed_found = refl

is_closed : closed_row.status ≡ RecordStatus.closed
unfolding closing
is_closed = refl

abbrev later : Table ℤ
later = (close 1 (pos 70) ExitReason.manual none 7 (create entry 6 one_closed).1).1

to_later : Reach one_closed later
to_later =
    Reach.next (Reach.next Reach.here (Step.created entry 6))
      (Step.closed 1 (pos 70) ExitReason.manual none 7)

closed-stays_example : find 1 later.rows ≡ some closed_row
closed-stays_example = closed-stays 1 closed_row closed_found is_closed to_later

stop_under_target :
    (target : ℤ) → opened_row.take_profit_price ≡ some target → opened_row.stop_loss_price < target
unfolding new_record
stop_under_target target e = ground arith

stopped : check_stop_loss opened_row (pos 85) (pos 0) ≢ none
unfolding check_stop_loss new_record
stopped e = cc

check_stop_loss-excludes_example : check_take_profit opened_row (pos 85) (pos 0) ≡ none
check_stop_loss-excludes_example =
    check_stop_loss-excludes Won-IsOrdered opened_row (pos 85) (pos 0) stop_under_target stopped

-- Of the two rows the later one is open.
get_open-IsSorted_example :
    IsSorted (get_open (some StrategyType.swing) none later)
    × (count (λ r. is_opened r.status) (get_open (some StrategyType.swing) none later)
        ≡ count (λ r. selected (some StrategyType.swing) none r && is_opened r.status) later.rows)
get_open-IsSorted_example =
    get_open-IsSorted (some StrategyType.swing) none later (λ r. is_opened r.status)

one_left : length (get_open (some StrategyType.swing) none later) ≡ 1
unfolding get_open close create new_record closing
one_left = refl
