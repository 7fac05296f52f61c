-- ===== src/Strategy/Sizing/Total.antt =====
-- The sizer answers whenever its inputs are valid.
use stock_trading_agent.Base.{
  ◌≡◌, refl, true, false, arith, inl, inr, Option, none, some, String, ◌↔◌,
}
use stock_trading_agent.Base.Effects.{ok, Outcome-cases}
use stock_trading_agent.Decimal.{Decimal, ◌-◌, dec, lt, eq, abs, ◌<◌}
use stock_trading_agent.Decimal.Laws.{IsOrdered}
use stock_trading_agent.Decimal.Order.{abs_minus_pos}
use stock_trading_agent.Core.Models.{PositionSizing}
use stock_trading_agent.Strategy.ExitPrices.{risk_reward_ratio}
use stock_trading_agent.Strategy.Sizing.{PositionSizer, calculate, reward_of}

module _ {D : Type 0} ⦃d : Decimal D⦄ where
  reward_of-ok :
      (order : IsOrdered D) (entry stop : D) (target : Option D)
      → eq entry stop ≡ false
      → (ratio : Option D) × (reward_of entry stop target ≡ ok ratio)
  unfolding reward_of risk_reward_ratio
  reward_of-ok order entry stop none h = (none, refl)
  reward_of-ok order entry stop (some target) h =
      let apart : lt (dec 0) (abs (entry - stop)) ≡ true = abs_minus_pos order entry stop h in
      elim (Outcome-cases (reward_of entry stop (some target))) [
        | inl found ↦ found
        | inr (e, h') ↦ absurd (ground arith)
      ]

  calculate-ok :
      (order : IsOrdered D) (z : PositionSizer D) (symbol : String) (entry stop : D)
      (target : Option D) (total existing : D)
      → dec 0 < entry
      → dec 0 < stop
      → eq entry stop ≡ false
      → dec 0 < total
      → (r : PositionSizing D) × (calculate z symbol entry stop target total existing ≡ ok r)
  unfolding calculate
  calculate-ok order z symbol entry stop target total existing entry_ok stop_ok differ wealth =
      let (ratio, reward) = reward_of-ok order entry stop target differ in
      elim (Outcome-cases (calculate z symbol entry stop target total existing)) [
        | inl found ↦ found
        | inr (e, h) ↦ absurd (ground arith)
      ]

  -- With correctly rounded arithmetic, the sizer returns a size if, and only if, the prices and
  -- the portfolio's value are positive and the stop is not the entry price.
  pub calculate-accepts :
      (order : IsOrdered D) (z : PositionSizer D) (symbol : String) (entry stop : D)
      (target : Option D) (total existing : D)
      → ((dec 0 < entry) × (dec 0 < stop) × (eq entry stop ≡ false) × (dec 0 < total))
        ↔ ((r : PositionSizing D) × (calculate z symbol entry stop target total existing ≡ ok r))
  unfolding calculate
  calculate-accepts order z symbol entry stop target total existing = (
    λ (a, b, c, t). calculate-ok order z symbol entry stop target total existing a b c t,
    λ (r, e). ground arith,
  )
