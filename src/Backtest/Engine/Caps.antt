-- ===== src/Backtest/Engine/Caps.antt =====
-- What an entry that the risk check passes may cost.
use stock_trading_agent.Base.{true, false, String, ◌≡◌, arith, length, Bool-cases, inl, inr}
use stock_trading_agent.Base.Int.{ℤ, pos, ◌<ℤ◌, ◌≤ℤ◌}
use stock_trading_agent.Base.Dict.{has}
use stock_trading_agent.Decimal.{Decimal, ◌*◌, ◌/◌, dec, of_int, lt, ◌≤◌}
use stock_trading_agent.Decimal.Laws.{IsExact}
use stock_trading_agent.Backtest.Simulator.Market.{get_total_value}
use stock_trading_agent.Backtest.Engine.State.{Engine}
use stock_trading_agent.Backtest.Engine.Entries.{risk_check, capped, shares}

module _ {D : Type 0} ⦃d : Decimal D⦄ where
  -- The engine's caps, as amounts of money, are not negative.
  pub record IsFunded (e : Engine D) : Type 0 where
    pub share : dec 0 ≤ get_total_value e.broker * e.settings.sizer.max_position_pct / dec 100
    pub amount : dec 0 ≤ e.settings.sizer.max_position_krw
    pub cash : dec 0 ≤ e.broker.cash

  -- A purchase of `q` shares at a price, where `quantity` were asked for.
  pub record IsAllowed (symbol : String) (quantity : ℤ) (price : D) (e : Engine D) (q : ℤ)
      : Type 0 where
    pub positive : pos 0 <ℤ q
    pub asked : q ≤ℤ quantity
    pub by_share :
        of_int q * price ≤ get_total_value e.broker * e.settings.sizer.max_position_pct / dec 100
    pub by_amount : of_int q * price ≤ e.settings.sizer.max_position_krw
    pub by_cash : of_int q * price ≤ e.broker.cash
    pub room : pos (length e.positions) <ℤ e.settings.max_portfolio_positions
    pub trades_left : pos e.daily_trade_count <ℤ e.settings.max_daily_trades
    pub not_held : has symbol e.positions ≡ false

  -- Shares that a positive price buys for an amount cost no more than it.
  affordable :
      IsExact D
      → (q : ℤ) (amount price : D) → pos 0 <ℤ q
      → q ≤ℤ shares amount price
      → dec 0 ≤ amount
      → of_int q * price ≤ amount
  unfolding shares
  affordable exact q amount price some_shares bought h = elim (Bool-cases (lt (dec 0) price)) [
    | inl positive ↦ exact.times-le_of_over q amount price h positive (ground arith)
    | inr free ↦ absurd (ground arith)
  ]

  -- What the guards of the risk check leave.
  pub record Passed (symbol : String) (quantity : ℤ) (price : D) (e : Engine D) (q : ℤ)
      : Type 0 where
    pub positive : pos 0 <ℤ q
    pub asked : q ≤ℤ quantity
    pub by_share :
        q ≤ℤ shares (get_total_value e.broker * e.settings.sizer.max_position_pct / dec 100) price
    pub by_amount : q ≤ℤ shares e.settings.sizer.max_position_krw price
    pub by_cash : q ≤ℤ shares e.broker.cash price
    pub room : pos (length e.positions) <ℤ e.settings.max_portfolio_positions
    pub trades_left : pos e.daily_trade_count <ℤ e.settings.max_daily_trades
    pub not_held : has symbol e.positions ≡ false

  pub risk_check-Passed :
      (symbol : String) (quantity q : ℤ) (price : D) (e : Engine D)
      → risk_check symbol quantity price e ≡ (true, q)
      → Passed symbol quantity price e q
  unfolding risk_check capped
  risk_check-Passed symbol quantity q price e passed = record {
    positive = ground arith;
    asked = ground arith;
    by_share = ground arith;
    by_amount = ground arith;
    by_cash = ground arith;
    room = ground arith;
    trades_left = ground arith;
    not_held = ground arith;
  }

  -- With exact arithmetic and caps that are not negative, a purchase that the risk check passes is of
  -- one share at least and of no more than was asked for; at the price it costs no more than the
  -- share of the portfolio, the amount for one symbol and the cash; there is room for one more
  -- position and one more trade today, and the symbol is not held.
  pub risk_check-IsAllowed :
      IsExact D
      → (symbol : String) (quantity q : ℤ) (price : D) (e : Engine D) → IsFunded e
      → risk_check symbol quantity price e ≡ (true, q)
      → IsAllowed symbol quantity price e q
  risk_check-IsAllowed exact symbol quantity q price e funds passed =
      let p = risk_check-Passed symbol quantity q price e passed in
      record {
        positive = p.positive;
        asked = p.asked;
        by_share = affordable exact q _ price p.positive p.by_share funds.share;
        by_amount = affordable exact q _ price p.positive p.by_amount funds.amount;
        by_cash = affordable exact q _ price p.positive p.by_cash funds.cash;
        room = p.room;
        trades_left = p.trades_left;
        not_held = p.not_held;
      }
