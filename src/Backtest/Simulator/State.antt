-- ===== src/Backtest/Simulator/State.antt =====
-- The fields of `SimulatedBroker`, its exceptions, and the arithmetic of a position.
use stock_trading_agent.Base.{ℕ, Option, none, some, List, if◌then◌else◌, String}
use stock_trading_agent.Base.Int.{ℤ, pos, ◌+ℤ◌, ◌-ℤ◌, ltb_ℤ, eqb_ℤ}
use stock_trading_agent.Base.Dict.{Dict, lookup}
use stock_trading_agent.Decimal.{Decimal, ◌+◌, ◌-◌, ◌*◌, ◌/◌, of_int, dec, eq}
use stock_trading_agent.Core.Enums.{PositionStatus}
use stock_trading_agent.Core.Models.{DateTime, OrderRequest, OrderResult, Position}
use stock_trading_agent.Backtest.Loader.{Loader}

-- `InsufficientFundsError`, and an `OrderError` for each reason that the code raises it for.
pub data BrokerError : Type 0 where
  insufficient_funds : BrokerError
  no_price_data limit_without_price no_position insufficient_quantity : BrokerError
  date_not_set not_a_trading_date index_error : BrokerError

pub record Simulator (D : Type 0) : Type 0 where
  pub data_loader : Loader D
  pub initial_capital : D
  pub cash : D
  pub slippage_bps : ℤ
  pub commission_buy_rate : D
  pub commission_sell_rate : D
  pub current_date : Option ℕ
  pub positions : Dict (Position D)
  pub orders : List (OrderResult D)
  pub order_counter : ℕ
  pub realized_pnl : D
  pub trading_dates : List ℕ

-- 09:00 and 15:30
abbrev pub krx_open : ℕ → DateTime
krx_open day = record { day = day; minute = 540 }

abbrev pub krx_close : ℕ → DateTime
krx_close day = record { day = day; minute = 930 }

module _ {D : Type 0} ⦃d : Decimal D⦄ where
  -- The gain on a cost, in percent; zero for no cost.
  unfoldable pub pnl_percent : D → D → D
  pnl_percent price cost = if eq cost (dec 0) then dec 0 else (price - cost) / cost * dec 100

  -- The position of a symbol, where there is one with a positive quantity.
  unfoldable pub holding : String → Dict (Position D) → Option (Position D)
  holding symbol positions = elim (lookup symbol positions) [
    | none ↦ none
    | some p ↦ if ltb_ℤ (pos 0) p.quantity then some p else none
  ]

  -- The position after a buy: averaged into the one that is held, or new.
  unfoldable pub bought : ℕ → OrderRequest D → D → Option (Position D) → Position D
  unfolding pnl_percent
  bought day order fill_price (some existing) =
      let old_total = existing.average_cost * of_int existing.quantity in
      let new_total = old_total + fill_price * of_int order.quantity in
      let new_qty = existing.quantity +ℤ order.quantity in
      let new_avg = new_total / of_int new_qty in
      record existing {
        quantity = new_qty;
        average_cost = new_avg;
        current_price = fill_price;
        market_value = fill_price * of_int new_qty;
        unrealized_pnl = (fill_price - new_avg) * of_int new_qty;
        unrealized_pnl_pct = pnl_percent fill_price new_avg;
        status = PositionStatus.opened;
      }
  bought day order fill_price none = record {
    symbol = order.symbol;
    quantity = order.quantity;
    average_cost = fill_price;
    current_price = fill_price;
    market_value = fill_price * of_int order.quantity;
    unrealized_pnl = dec 0;
    unrealized_pnl_pct = dec 0;
    status = PositionStatus.opened;
    entry_date = krx_open day;
  }

  -- The position after a sale: closed if nothing is left of it.
  unfoldable pub sold : OrderRequest D → D → Position D → Position D
  unfolding pnl_percent
  sold order fill_price existing =
      let new_qty = existing.quantity -ℤ order.quantity in
      if eqb_ℤ new_qty (pos 0)
      then record existing {
        quantity = new_qty;
        current_price = fill_price;
        market_value = dec 0;
        unrealized_pnl = dec 0;
        unrealized_pnl_pct = dec 0;
        status = PositionStatus.closed;
      }
      else record existing {
        quantity = new_qty;
        current_price = fill_price;
        market_value = fill_price * of_int new_qty;
        unrealized_pnl = (fill_price - existing.average_cost) * of_int new_qty;
        unrealized_pnl_pct = pnl_percent fill_price existing.average_cost;
        status = PositionStatus.partially_closed;
      }
