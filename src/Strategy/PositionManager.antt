-- ===== src/Strategy/PositionManager.antt =====
-- `PositionManager` (src/strategy/position_manager.py) over the rows of its table, in the order of
-- their ids. A query that the database fails is an error of the model, and changes nothing.
pub mod Lifecycle
pub mod Closing
pub mod Queries
use stock_trading_agent.Base.{
  ℕ, suc, Bool, true, false, ◌&&◌, Option, none, some, List, [], ◌∷◌, ◌++◌, ◌==◌, ltb, keep, length,
  if◌then◌else◌, String, str_eq,
}
use stock_trading_agent.Base.Int.{ℤ, pos}
use stock_trading_agent.Base.Effects.{Method, Outcome, ok, err, pure, ◌>>◌}
use stock_trading_agent.Decimal.{Decimal, ◌-◌, ◌*◌, of_int}
use stock_trading_agent.Core.Enums.{reason_value, ExitReason, StrategyType}

pub data RecordStatus : Type 0 where
  opened closed : RecordStatus

abbrev pub is_opened : RecordStatus → Bool
is_opened RecordStatus.opened = true
is_opened RecordStatus.closed = false

abbrev pub same_status : RecordStatus → RecordStatus → Bool
same_status RecordStatus.opened RecordStatus.opened = true
same_status RecordStatus.closed RecordStatus.closed = true
same_status _ _ = false

abbrev pub same_strategy : StrategyType → StrategyType → Bool
same_strategy StrategyType.position StrategyType.position = true
same_strategy StrategyType.swing StrategyType.swing = true
same_strategy _ _ = false

-- A row of the table `positions`; sessions are numbers. Amounts and percentages are ones that their
-- columns, of two and of four places, hold: the rounding of others by the database is left out, so a
-- row that is written and refreshed is the same row.
pub record PositionRecord (D : Type 0) : Type 0 where
  pub id : ℕ
  pub account_id : String
  pub symbol : String
  pub strategy_type : StrategyType
  pub quantity : ℤ
  pub avg_cost : D
  pub entry_price : D
  pub entry_date : ℕ
  pub stop_loss_price : D
  pub take_profit_price : Option D
  pub trailing_stop_pct : Option D
  pub max_holding_days : Option ℤ
  pub status : RecordStatus
  pub exit_price : Option D
  pub exit_date : Option ℕ
  pub exit_reason : Option String
  pub realized_pnl : Option D
  pub entry_session_id : Option ℕ
  pub exit_session_id : Option ℕ

-- `next_id` is the number that the database gives the next row.
pub record Table (D : Type 0) : Type 0 where
  pub rows : List (PositionRecord D)
  pub next_id : ℕ

-- `DatabaseError`, for each reason that the code raises it for.
pub data DatabaseError : Type 0 where
  position_not_found already_closed : DatabaseError

-- What a caller of `create` passes.
pub record Entry (D : Type 0) : Type 0 where
  pub symbol : String
  pub strategy_type : StrategyType
  pub quantity : ℤ
  pub entry_price : D
  pub stop_loss_price : D
  pub take_profit_price : Option D
  pub trailing_stop_pct : Option D
  pub max_holding_days : Option ℤ
  pub entry_session_id : Option ℕ
  pub account_id : String

-- An optional filter of a query.
abbrev pub matches : {A : Type 0} → (A → A → Bool) → Option A → A → Bool
matches same none value = true
matches same (some wanted) value = same value wanted

module _ {D : Type 0} where
  unfoldable pub new_record : Entry D → ℕ → ℕ → PositionRecord D
  new_record e today id = record {
    id = id;
    account_id = e.account_id;
    symbol = e.symbol;
    strategy_type = e.strategy_type;
    quantity = e.quantity;
    avg_cost = e.entry_price;
    entry_price = e.entry_price;
    entry_date = today;
    stop_loss_price = e.stop_loss_price;
    take_profit_price = e.take_profit_price;
    trailing_stop_pct = e.trailing_stop_pct;
    max_holding_days = e.max_holding_days;
    status = RecordStatus.opened;
    exit_price = none;
    exit_date = none;
    exit_reason = none;
    realized_pnl = none;
    entry_session_id = e.entry_session_id;
    exit_session_id = none;
  }

  -- `session.add(record)`, with the id that the commit gives it.
  unfoldable pub create : Entry D → ℕ → Method (Table D) DatabaseError (PositionRecord D)
  unfolding new_record
  create e today table =
      let row = new_record e today table.next_id in
      (ok row, record { rows = table.rows ++ (row ∷ []); next_id = suc table.next_id })

  -- `select(...).where(PositionRecord.id == position_id)`
  unfoldable pub find : ℕ → List (PositionRecord D) → Option (PositionRecord D)
  find id [] = none
  find id (r ∷ rs) = if r.id == id then some r else find id rs

  -- The row as the session writes it back.
  unfoldable pub write : PositionRecord D → List (PositionRecord D) → List (PositionRecord D)
  write row [] = []
  write row (r ∷ rs) = if r.id == row.id then row ∷ rs else r ∷ write row rs

  -- `close` and `update_stop_loss`: change an open row, or raise.
  unfoldable pub change_open :
      ℕ → (PositionRecord D → PositionRecord D) → Method (Table D) DatabaseError (PositionRecord D)
  unfolding find write
  change_open id change table = elim (find id table.rows) [
    | none ↦ (err position_not_found, table)
    | some row ↦
        if is_opened row.status
        then (ok (change row), record table { rows = write (change row) table.rows })
        else (err already_closed, table)
  ]

  unfoldable pub closing :
      ⦃d : Decimal D⦄ → D → ExitReason → Option ℕ → ℕ → PositionRecord D → PositionRecord D
  closing exit_price exit_reason exit_session_id today row = record row {
    status = RecordStatus.closed;
    exit_price = some exit_price;
    exit_date = some today;
    exit_reason = some (reason_value exit_reason);
    realized_pnl = some ((exit_price - row.avg_cost) * of_int row.quantity);
    exit_session_id = exit_session_id;
  }

  unfoldable pub close :
      ⦃d : Decimal D⦄
      → ℕ
      → D
      → ExitReason
      → Option ℕ
      → ℕ
      → Method (Table D) DatabaseError (PositionRecord D)
  unfolding change_open closing
  close id exit_price exit_reason exit_session_id today =
      change_open id (closing exit_price exit_reason exit_session_id today)

  unfoldable pub update_stop_loss : ℕ → D → Method (Table D) DatabaseError Unit
  unfolding change_open
  update_stop_loss id new_stop_loss =
      change_open id (λ row. record row { stop_loss_price = new_stop_loss }) >> pure tt

  unfoldable pub insert_by_date :
      PositionRecord D → List (PositionRecord D) → List (PositionRecord D)
  insert_by_date r [] = r ∷ []
  insert_by_date r (x ∷ xs) =
      if ltb x.entry_date r.entry_date then x ∷ insert_by_date r xs else r ∷ x ∷ xs

  -- `order_by(PositionRecord.entry_date.asc())`
  unfoldable pub order_by_date : List (PositionRecord D) → List (PositionRecord D)
  unfolding insert_by_date
  order_by_date [] = []
  order_by_date (r ∷ rs) = insert_by_date r (order_by_date rs)

  unfoldable pub get_open : Option StrategyType → Option String → Table D → List (PositionRecord D)
  unfolding order_by_date
  get_open strategy_type account_id table = order_by_date (
      keep
        (λ r.
          is_opened r.status
          && (matches same_strategy strategy_type r.strategy_type
              && matches str_eq account_id r.account_id))
        table.rows)

  -- `limit(1)`
  unfoldable pub first : List (PositionRecord D) → Option (PositionRecord D)
  first [] = none
  first (r ∷ rs) = some r

  unfoldable pub get_by_symbol :
      String → RecordStatus → Option String → Table D → Option (PositionRecord D)
  unfolding first
  get_by_symbol symbol status account_id table = first (
      keep
        (λ r.
          str_eq r.symbol symbol
          && (same_status r.status status && matches str_eq account_id r.account_id))
        table.rows)

  unfoldable pub get_daily_entries : ℕ → Option String → Table D → ℕ
  get_daily_entries target_date account_id table =
      length (
        keep (λ r. r.entry_date == target_date && matches str_eq account_id r.account_id)
          table.rows)
