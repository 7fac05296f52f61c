-- ===== src/Broker/Mock/Market.antt =====
-- The market data and the account of the in-memory broker.
use stock_trading_agent.Base.{
  ℕ, zero, suc, ◌-◌ as ◌∸◌, none, some, List, [], ◌∷◌, length, keep, String,
}
use stock_trading_agent.Base.Int.{pos}
use stock_trading_agent.Base.Dict.{lookup, values}
use stock_trading_agent.Base.Effects.{pure, gets, or_raise, ◌>>=◌}
use stock_trading_agent.Decimal.{Decimal, ◌+◌, dec}
use stock_trading_agent.Core.Models.{
  DateTime, StockInfo, PriceInfo, Ohlcv, Position, AccountBalance,
}
use stock_trading_agent.Backtest.Simulator.State.{no_price_data}
use stock_trading_agent.Backtest.Simulator.Market.{is_open, add_up}
use stock_trading_agent.Broker.Mock.{InMemoryBroker, Request}

-- `xs[-n:]`, which is the whole list for zero.
abbrev drop : {A : Type 0} → ℕ → List A → List A
drop zero xs = xs
drop (suc n) [] = []
drop (suc n) (x ∷ xs) = drop n xs

abbrev last_of : {A : Type 0} → ℕ → List A → List A
last_of zero xs = xs
last_of (suc n) xs = drop (length xs ∸ suc n) xs

module _ {D : Type 0} where
  unfoldable pub get_price : String → DateTime → Request D (PriceInfo D)
  get_price symbol now = do
    known ← gets (λ s. lookup symbol s.prices)
    price ← or_raise known no_price_data
    pure (record price { timestamp = now })

  -- Flat candles on the `n` days before today, the earliest first.
  unfoldable pub generate_synthetic_ohlcv : String → D → ℕ → ℕ → List (Ohlcv D)
  generate_synthetic_ohlcv symbol base_price today zero = []
  generate_synthetic_ohlcv symbol base_price today (suc n) =
      record {
        symbol = symbol;
        date = today ∸ suc n;
        opening = base_price;
        high = base_price;
        low = base_price;
        closing = base_price;
        volume = pos 1000000;
      }
      ∷ generate_synthetic_ohlcv symbol base_price today n

  unfoldable pub get_stock_master : InMemoryBroker D → List (StockInfo D)
  get_stock_master s = values s.stocks

module _ {D : Type 0} ⦃d : Decimal D⦄ where
  -- The stored price, or 50,000.
  unfoldable pub synthetic_base : String → InMemoryBroker D → D
  synthetic_base symbol s = elim (lookup symbol s.prices) [
    | none ↦ dec 50000
    | some price ↦ price.current_price
  ]

  -- The last bars that are stored, or else flat ones.
  unfoldable pub get_daily_ohlcv : String → ℕ → ℕ → InMemoryBroker D → List (Ohlcv D)
  unfolding generate_synthetic_ohlcv synthetic_base
  get_daily_ohlcv symbol period_days today s =
      let synthetic = generate_synthetic_ohlcv symbol (synthetic_base symbol s) today period_days in
      elim (lookup symbol s.ohlcv_data) [
        | none ↦ synthetic
        | some [] ↦ synthetic
        | some (bar ∷ bars) ↦ last_of period_days (bar ∷ bars)
      ]

  unfoldable pub get_positions : InMemoryBroker D → List (Position D)
  get_positions s = keep is_open (values s.positions)

  unfoldable pub get_balance : DateTime → InMemoryBroker D → AccountBalance D
  unfolding get_positions add_up
  get_balance now s =
      let held = get_positions s in
      let (invested, unrealized) = add_up (dec 0, dec 0) held in
      record {
        total_assets = s.cash + invested + unrealized;
        cash = s.cash;
        invested = invested;
        unrealized_pnl = unrealized;
        realized_pnl = s.realized_pnl;
        daily_pnl = dec 0;
        daily_pnl_pct = dec 0;
        positions_count = pos (length held);
        timestamp = now;
      }
