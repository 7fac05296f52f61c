-- ===== src/Backtest/Simulator/Sessions.antt =====
-- Whatever a back-test does with the broker: the states that orders and new dates lead to.
use stock_trading_agent.Base.{ℕ, refl}
use stock_trading_agent.Base.Int.{ℤ, pos, ◌<ℤ◌}
use stock_trading_agent.Decimal.{Decimal}
use stock_trading_agent.Core.Models.{OrderRequest}
use stock_trading_agent.Backtest.Loader.{Loader}
use stock_trading_agent.Backtest.Simulator.State.{Simulator}
use stock_trading_agent.Backtest.Simulator.Orders.{place_order}
use stock_trading_agent.Backtest.Simulator.Market.{new_simulator, set_current_date}
use stock_trading_agent.Backtest.Simulator.Holdings.{
  AllSound, place_order-AllSound, set_current_date-AllSound,
}
use stock_trading_agent.Backtest.Simulator.Solvency.{IsNumbered, place_order-IsNumbered}

module _ {D : Type 0} ⦃d : Decimal D⦄ where
  -- An order request has a quantity of one at least (its model checks that), and may be refused.
  pub data Step (s : Simulator D) : Simulator D → Type 0 where
    order : (o : OrderRequest D) → pos 0 <ℤ o.quantity → Step s (place_order o s).1
    new_date : (day : ℕ) → Step s (set_current_date day s).1

  pub data Reach (s : Simulator D) : Simulator D → Type 0 where
    here : Reach s s
    next : {t u : Simulator D} → Reach s t → Step t u → Reach s u

  pub record IsConsistent (s : Simulator D) : Type 0 where
    pub sound : AllSound s
    pub numbered : IsNumbered s

  set_current_date-IsNumbered :
      (day : ℕ) (s : Simulator D) → IsNumbered s → IsNumbered (set_current_date day s).1
  unfolding set_current_date
  set_current_date-IsNumbered day s h = h

  Step-IsConsistent : {s t : Simulator D} → Step s t → IsConsistent s → IsConsistent t
  Step-IsConsistent {s} (order o q) c = record {
    sound = place_order-AllSound o s q c.sound;
    numbered = place_order-IsNumbered o s c.numbered;
  }
  Step-IsConsistent {s} (new_date day) c = record {
    sound = set_current_date-AllSound day s c.sound;
    numbered = set_current_date-IsNumbered day s c.numbered;
  }

  Reach-IsConsistent : {s t : Simulator D} → IsConsistent s → Reach s t → IsConsistent t
  Reach-IsConsistent c here = c
  Reach-IsConsistent c (next r step) = Step-IsConsistent step (Reach-IsConsistent c r)

  -- From a new broker, whatever orders of one share at least and whatever dates come, in whatever
  -- order: no position is short, a position is closed exactly when it is empty, each stands under
  -- its own symbol, and the orders are numbered from 1 without a gap.
  pub reachable-IsConsistent :
      (loader : Loader D) (capital : D) (slippage : ℤ) (buy_pct sell_pct : D) {s : Simulator D}
      → Reach (new_simulator loader capital slippage buy_pct sell_pct) s
      → IsConsistent s
  unfolding new_simulator
  reachable-IsConsistent loader capital slippage buy_pct sell_pct r =
      Reach-IsConsistent (record { sound = tt; numbered = refl }) r
