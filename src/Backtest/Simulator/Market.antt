-- ===== src/Backtest/Simulator/Market.antt =====
-- The rest of `SimulatedBroker`: its construction, the clock, valuations, prices, history, balance.
use stock_trading_agent.Base.{
  ℕ, zero, suc, Bool, not, Option, none, some, List, [], ◌∷◌, ◌==◌, length, if◌then◌else◌, keep,
  map, String,
}
use stock_trading_agent.Backtest.Loader.{window_start}
use stock_trading_agent.Base.Bisect.{bisect_left, get_elem?}
use stock_trading_agent.Base.Int.{ℤ, pos, ltb_ℤ}
use stock_trading_agent.Base.Dict.{Dict, values}
use stock_trading_agent.Base.Effects.{pure, gets, or_raise, ◌>>=◌, ◌>>◌, modify}
use stock_trading_agent.Decimal.{Decimal, ◌+◌, ◌-◌, ◌*◌, ◌/◌, of_int, dec, eq, sum_from}
use stock_trading_agent.Core.Models.{DateTime, Position, PriceInfo, Ohlcv, AccountBalance}
use stock_trading_agent.Backtest.Loader.{
  Loader, get_ohlcv, get_ohlcv_range, get_close_price, get_open_price,
}
use stock_trading_agent.Backtest.Simulator.State.{
  no_price_data, not_a_trading_date, index_error, Simulator, krx_close, pnl_percent,
}
use stock_trading_agent.Backtest.Simulator.Orders.{Call, ensure_date_set}

-- The index of a date, if it is a trading date.
unfoldable pub date_index : List ℕ → ℕ → Option ℕ
unfolding bisect_left
date_index dates day = elim (get_elem? dates (bisect_left dates day)) [
  | none ↦ none
  | some found ↦ if found == day then some (bisect_left dates day) else none
]

module _ {D : Type 0} ⦃d : Decimal D⦄ where
  -- `__init__`; the commissions come in percent.
  unfoldable pub new_simulator : Loader D → D → ℤ → D → D → Simulator D
  new_simulator loader initial_capital slippage_bps buy_pct sell_pct = record {
    data_loader = loader;
    initial_capital = initial_capital;
    cash = initial_capital;
    slippage_bps = slippage_bps;
    commission_buy_rate = buy_pct / dec 100;
    commission_sell_rate = sell_pct / dec 100;
    current_date = none;
    positions = [];
    orders = [];
    order_counter = 0;
    realized_pnl = dec 0;
    trading_dates = loader.trading_dates;
  }

  abbrev pub is_open : Position D → Bool
  is_open p = ltb_ℤ (pos 0) p.quantity

  -- One position at the day's close; without a row for the day the last valuation stays.
  unfoldable pub valued : Loader D → ℕ → String → Position D → Position D
  unfolding pnl_percent
  valued loader day symbol p =
      if not (is_open p) then p else elim (get_close_price loader symbol day) [
        | none ↦ p
        | some close ↦ record p {
          current_price = close;
          market_value = close * of_int p.quantity;
          unrealized_pnl = (close - p.average_cost) * of_int p.quantity;
          unrealized_pnl_pct = pnl_percent close p.average_cost;
        }
      ]

  unfoldable pub valuations : Loader D → ℕ → Dict (Position D) → Dict (Position D)
  valuations loader day [] = []
  valuations loader day ((symbol, p) ∷ ps) =
      (symbol, valued loader day symbol p) ∷ valuations loader day ps

  unfoldable pub update_position_valuations : ℕ → Simulator D → Simulator D
  unfolding valuations
  update_position_valuations day s = record s {
    positions = valuations s.data_loader day s.positions;
  }

  unfoldable pub set_current_date : ℕ → Call D (Unit {0})
  unfolding update_position_valuations
  set_current_date day = do
    modify (λ s. record s { current_date = some day })
    modify (update_position_valuations day)

  unfoldable pub get_positions : Simulator D → List (Position D)
  get_positions s = keep is_open (values s.positions)

  unfoldable pub get_total_value : Simulator D → D
  unfolding get_positions
  get_total_value s = s.cash + sum_from (dec 0) (map (λ p. p.market_value) (get_positions s))

  -- The loop of `get_balance`, over the open positions.
  unfoldable pub add_up : D × D → List (Position D) → D × D
  add_up acc [] = acc
  add_up (invested, unrealized) (p ∷ ps) =
      add_up (invested + p.average_cost * of_int p.quantity, unrealized + p.unrealized_pnl) ps

  -- `now` is the clock's time, for a broker whose date is not set.
  unfoldable pub get_balance : DateTime → Simulator D → AccountBalance D
  unfolding get_positions add_up
  get_balance now s =
      let held = get_positions s in
      let (invested, unrealized) = add_up (dec 0, dec 0) held in
      record {
        total_assets = s.cash + invested + unrealized;
        cash = s.cash;
        invested = invested;
        unrealized_pnl = unrealized;
        realized_pnl = s.realized_pnl;
        daily_pnl = dec 0;
        daily_pnl_pct = dec 0;
        positions_count = pos (length held);
        timestamp = elim s.current_date [ none ↦ now | some day ↦ krx_close day ];
      }

  unfoldable pub find_date_index : ℕ → Call D ℕ
  unfolding date_index
  find_date_index day = do
    index ← gets (λ s. date_index s.trading_dates day)
    or_raise index not_a_trading_date

  -- The opening price of the day, or zero.
  unfoldable pub first_close : Loader D → String → ℕ → D
  first_close loader symbol day = elim (get_open_price loader symbol day) [
    | none ↦ dec 0
    | some opening ↦ opening
  ]

  -- The close of the trading day before index `i`.
  unfoldable pub close_before : Loader D → List ℕ → String → ℕ → Option D
  close_before loader dates symbol zero = none
  close_before loader dates symbol (suc i) = elim (get_elem? dates i) [
    | none ↦ none
    | some day ↦ get_close_price loader symbol day
  ]

  unfoldable pub get_previous_close : String → ℕ → Call D D
  unfolding find_date_index first_close close_before
  get_previous_close symbol day = do
    i ← find_date_index day
    gets (λ s. elim (close_before s.data_loader s.trading_dates symbol i) [
      | some close ↦ close
      | none ↦ first_close s.data_loader symbol day
    ])

  unfoldable pub get_price : String → Call D (PriceInfo D)
  unfolding get_previous_close ensure_date_set
  get_price symbol = do
    day ← ensure_date_set
    row ← gets (λ s. get_ohlcv s.data_loader symbol day)
    ohlcv ← or_raise row no_price_data
    prev_close ← get_previous_close symbol day
    let change_price = ohlcv.closing - prev_close
    pure (record {
      symbol = symbol;
      current_price = ohlcv.closing;
      previous_close = prev_close;
      change_price = change_price;
      change_percent = if eq prev_close (dec 0) then dec 0 else change_price / prev_close * dec 100;
      high = ohlcv.high;
      low = ohlcv.low;
      volume = ohlcv.volume;
      timestamp = krx_close day;
    })

  -- `self._trading_dates[start_idx]` on, with `start_idx = max(0, idx - period_days + 1)`; an index
  -- past the end raises `IndexError`.
  unfoldable pub bars_from : String → ℕ → ℕ → ℕ → Call D (List (Ohlcv D))
  bars_from symbol period_days day idx = do
    first ← gets (λ s. get_elem? s.trading_dates (window_start idx period_days))
    start_date ← or_raise first index_error
    gets (λ s. get_ohlcv_range s.data_loader symbol start_date day)

  -- `get_daily_ohlcv` on a known date.
  unfoldable pub bars_on : String → ℕ → ℕ → Call D (List (Ohlcv D))
  unfolding find_date_index bars_from
  bars_on symbol period_days day = do
    idx ← find_date_index day
    bars_from symbol period_days day idx

  unfoldable pub get_daily_ohlcv : String → ℕ → Call D (List (Ohlcv D))
  unfolding ensure_date_set
  get_daily_ohlcv symbol period_days = do day ← ensure_date_set; bars_on symbol period_days day
