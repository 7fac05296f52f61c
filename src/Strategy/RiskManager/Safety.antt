-- ===== src/Strategy/RiskManager/Safety.antt =====
-- What a buy that the gate lets through keeps to.
use stock_trading_agent.Base.{
  true, false, Option, some, length, map, contains_text, distinct, String, ◌≡◌, ◌⊎◌, arith,
  if◌then◌else◌,
}
use stock_trading_agent.Base.Int.{ℤ, pos, ◌≤ℤ◌, ◌<ℤ◌}
use stock_trading_agent.Base.Effects.{ok}
use stock_trading_agent.Decimal.{Decimal, ◌-◌, ◌*◌, ◌/◌, of_int, to_int, dec, eq, abs, le, ◌≤◌, ◌<◌}
use stock_trading_agent.Decimal.Laws.{IsOrdered, IsExact}
use stock_trading_agent.Decimal.Order.{abs_nonneg}
use stock_trading_agent.Core.Enums.{SignalAction}
use stock_trading_agent.Core.Models.{PortfolioState}
use stock_trading_agent.Strategy.RiskManager.Rules.{
  RiskSettings, Correlations, check_position_sizing, check_max_position, check_max_holdings,
  check_sector_concentration, check_max_drawdown, check_daily_loss_limit, check_daily_trades,
  existing_value, effective_limit, sector_pct,
}
use stock_trading_agent.Strategy.RiskManager.Check.{
  RiskCheckResult, run_rules, adjust, conclude, check,
}
use stock_trading_agent.Strategy.RiskManager.Caps.{Allows, adjust-Allows}

module _ {D : Type 0} ⦃d : Decimal D⦄ (t : RiskSettings D) where
  -- A purchase of `a` shares at `price` under the settings.
  pub record Safe (state : PortfolioState D) (symbol : String) (price : D) (stop_loss : Option D)
      (sector : String) (a : ℤ) : Type 0 where
    pub drawdown : state.drawdown_pct < t.max_drawdown_pct
    pub loss_pct : dec 0 - t.daily_loss_limit_pct ≤ state.daily_pnl_pct
    pub loss_krw : dec 0 - of_int t.daily_loss_limit_krw ≤ state.daily_pnl
    pub trades : state.daily_trade_count <ℤ t.max_daily_trades
    pub holdings :
        (contains_text symbol (distinct (map (λ p. p.symbol) state.positions)) ≡ true)
        ⊎ (pos (length (distinct (map (λ p. p.symbol) state.positions)))
            <ℤ t.max_portfolio_positions)
    pub position : of_int a * price ≤ effective_limit t state - existing_value state symbol
    pub concentration :
        of_int a * price
        ≤ (t.sector_concentration_pct - sector_pct state sector) / dec 100 * state.total_value
    pub risk :
        (stop : D)
        → stop_loss ≡ some stop
        → eq (abs (price - stop)) (dec 0) ≡ false
        → of_int a * abs (price - stop) ≤ state.total_value * t.risk_per_trade_pct / dec 100

module _ {D : Type 0} (C : Type 0) ⦃d : Decimal D⦄ (t : RiskSettings D) (state : PortfolioState D)
    (a : ℤ) (positive : pos 0 <ℤ a) where
  drawdown_ok :
      Allows {C = C} a (check_max_drawdown t state) → state.drawdown_pct < t.max_drawdown_pct
  unfolding check_max_drawdown
  drawdown_ok h = ground arith

  loss_ok :
      Allows {C = C} a (check_daily_loss_limit t state)
      → (dec 0 - t.daily_loss_limit_pct ≤ state.daily_pnl_pct)
        × (dec 0 - of_int t.daily_loss_limit_krw ≤ state.daily_pnl)
  unfolding check_daily_loss_limit
  loss_ok h = ground arith

  trades_ok :
      Allows {C = C} a (check_daily_trades t state) → state.daily_trade_count <ℤ t.max_daily_trades
  unfolding check_daily_trades
  trades_ok h = ground arith

  holdings_ok :
      (symbol : String)
      → Allows {C = C} a (check_max_holdings t state symbol)
      → (contains_text symbol (distinct (map (λ p. p.symbol) state.positions)) ≡ true)
        ⊎ (pos (length (distinct (map (λ p. p.symbol) state.positions)))
            <ℤ t.max_portfolio_positions)
  unfolding check_max_holdings
  holdings_ok symbol h = ground arith

  module _ (order : IsOrdered D) (exact : IsExact D) (price : D) (costs : dec 0 < price) where
    position_ok :
        (symbol : String) (quantity : ℤ)
        → Allows {C = C} a (check_max_position t state symbol quantity price)
        → of_int a * price ≤ effective_limit t state - existing_value state symbol
    unfolding check_max_position
    position_ok symbol quantity h =
        let room = effective_limit t state - existing_value state symbol in
        let within : (dec 0 < room) × (a ≤ℤ to_int (room / price)) =
          ground (arith, h.1 (if le room (dec 0) then pos 0 else to_int (room / price))) in
        exact.times-le_of_over a room price (order.le_of_lt (dec 0) room within.0) costs within.1

    concentration_ok :
        (quantity : ℤ) (sector : String)
        → dec 0 < state.total_value
        → Allows {C = C} a (check_sector_concentration t state quantity price sector)
        → of_int a * price
          ≤ (t.sector_concentration_pct - sector_pct state sector) / dec 100 * state.total_value
    unfolding check_sector_concentration
    concentration_ok quantity sector wealth h =
        let allowed = t.sector_concentration_pct - sector_pct state sector in
        let room = allowed / dec 100 * state.total_value in
        let within : (dec 0 < allowed) × (a ≤ℤ to_int (room / price)) =
          ground (arith, h.1 (if le allowed (dec 0) then pos 0 else to_int (room / price))) in
        let part : dec 0 ≤ allowed / dec 100 =
          order.over_nonneg allowed (dec 100) (order.le_of_lt (dec 0) allowed within.0)
            (order.of_int_lt (pos 0) (pos 100) (omega arith)) in
        exact.times-le_of_over a room price
          (order.times_nonneg (allowed / dec 100) state.total_value part
            (order.le_of_lt (dec 0) state.total_value wealth))
          costs within.1

    risk_ok :
        (quantity : ℤ) (stop : D) (stop_loss : Option D)
        → stop_loss ≡ some stop
        → dec 0 < state.total_value
        → dec 0 ≤ t.risk_per_trade_pct
        → eq (abs (price - stop)) (dec 0) ≡ false
        → Allows {C = C} a (check_position_sizing t state quantity price stop_loss)
        → of_int a * abs (price - stop) ≤ state.total_value * t.risk_per_trade_pct / dec 100
    unfolding check_position_sizing
    risk_ok quantity stop stop_loss e wealth pct differ h' =
        let h : Allows {C = C} a (check_position_sizing t state quantity price (some stop)) =
          rw e at h' in
        let distance = abs (price - stop) in
        let budget = state.total_value * t.risk_per_trade_pct / dec 100 in
        let within : a ≤ℤ to_int (budget / distance) =
          ground (arith, h.1 (to_int (budget / distance))) in
        let apart : dec 0 < distance = ground (arith, abs_nonneg order (price - stop)) in
        let funds : dec 0 ≤ budget =
          order.over_nonneg (state.total_value * t.risk_per_trade_pct) (dec 100)
            (order.times_nonneg state.total_value t.risk_per_trade_pct
              (order.le_of_lt (dec 0) state.total_value wealth) pct)
            (order.of_int_lt (pos 0) (pos 100) (omega arith)) in
        exact.times-le_of_over a budget distance funds apart within

module _ {D : Type 0} ⦃d : Decimal D⦄ (t : RiskSettings D) (c : Correlations) where
  -- A buy that keeps a share passed the two guards, and its quantity is that of the rules.
  check_buy-adjusted :
      {E : Type 0} (state : PortfolioState D) (symbol : String) (quantity : ℤ) (price : D)
      (stop_loss : Option D) (sector : String) {r : RiskCheckResult D c.Corr}
      → check t c {E = E} (ok state) symbol SignalAction.buy quantity price stop_loss sector ≡ ok r
      → pos 0 <ℤ r.adjusted_quantity
      → (dec 0 < price)
        × (dec 0 < state.total_value)
        × (r.adjusted_quantity
            ≡ adjust (run_rules t c state symbol quantity price stop_loss sector) quantity)
  unfolding check conclude
  check_buy-adjusted state symbol quantity price stop_loss sector h some_shares = ground arith

  -- With exact arithmetic and a risk percentage that is not negative, if the gate lets a buy
  -- through with any shares at all, whatever quantity was asked for: the drawdown, the daily
  -- losses and the number of trades are within their limits, the symbol is held already or there
  -- is room for one more, and the adjusted quantity keeps the position, the sector and, with a
  -- stop that differs from the price, the risk within their limits.
  pub check-Safe :
      IsOrdered D
      → IsExact D
      → dec 0 ≤ t.risk_per_trade_pct
      → {E : Type 0} (state : PortfolioState D) (symbol : String) (quantity : ℤ) (price : D)
        (stop_loss : Option D) (sector : String) {r : RiskCheckResult D c.Corr}
      → check t c {E = E} (ok state) symbol SignalAction.buy quantity price stop_loss sector ≡ ok r
      → pos 0 <ℤ r.adjusted_quantity
      → Safe t state symbol price stop_loss sector r.adjusted_quantity
  unfolding run_rules
  check-Safe order exact pct state symbol quantity price stop_loss sector {r} h some_shares =
      let got = check_buy-adjusted state symbol quantity price stop_loss sector h some_shares in
      let rules = run_rules t c state symbol quantity price stop_loss sector in
      let a = adjust rules quantity in
      let shares : pos 0 <ℤ a = rw got.2 at some_shares in
      let allowed = adjust-Allows rules quantity shares in
      rw got.2 (record {
        drawdown = drawdown_ok c.Corr t state a shares allowed.1.1.1.1.0;
        loss_pct = (loss_ok c.Corr t state a shares allowed.1.1.1.1.1.0).0;
        loss_krw = (loss_ok c.Corr t state a shares allowed.1.1.1.1.1.0).1;
        trades = trades_ok c.Corr t state a shares allowed.1.1.1.1.1.1.1.0;
        holdings = holdings_ok c.Corr t state a shares symbol allowed.1.1.0;
        position =
            position_ok c.Corr t state a shares order exact price got.0 symbol quantity allowed.1.0;
        concentration =
            concentration_ok c.Corr t state a shares order exact price got.0 quantity sector got.1
              allowed.1.1.1.0;
        risk = λ stop e differ.
            risk_ok c.Corr t state a shares order exact price got.0 quantity stop stop_loss e got.1
              pct differ allowed.0;
      })
