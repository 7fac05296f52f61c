-- ===== src/Backtest/Simulator/Lookahead.antt =====
-- No look-ahead: what the broker does on a date does not depend on the rows of later dates.
use stock_trading_agent.Base.{
  ℕ, ◌≡◌, refl, ap, ◌∙◌, sym, none, some, Option, String, Bool-cases, Option-cases, inl, inr,
}
use stock_trading_agent.Base.Bisect.{get_elem?}
use stock_trading_agent.Base.Effects.{ok, ◌>>=◌, or_raise}
use stock_trading_agent.Decimal.{Decimal, ◌+◌, ◌*◌, lt, of_int}
use stock_trading_agent.Base.Int.{ltb_ℤ}
use stock_trading_agent.Core.Enums.{OrderSide, OrderType}
use stock_trading_agent.Core.Models.{OrderRequest}
use stock_trading_agent.Backtest.Loader.{get_open_price, window_start}
use stock_trading_agent.Backtest.Simulator.State.{
  Simulator, BrokerError, no_price_data, holding, date_not_set, not_a_trading_date,
}
use stock_trading_agent.Backtest.Simulator.Orders.{
  Call, fill, fill_at, record_order, calculate_slippage, base_price_of, place_on, place_order,
  execute, execute_buy, execute_sell, calculate_commission, slip, ensure_date_set,
}
use stock_trading_agent.Backtest.Simulator.Market.{
  date_index, find_date_index, bars_from, bars_on, get_daily_ohlcv,
}
use stock_trading_agent.Backtest.Simulator.History.{
  blind_after, Blind, bind-Blind, get_open_price-until, get_ohlcv_range-until,
}

module _ {D : Type 0} (day : ℕ) where
  or_raise-Blind : {A : Type 0} (o : Option A) (e : BrokerError) → Blind {D = D} day (or_raise o e)
  or_raise-Blind none e = record { at = λ s. refl }
  or_raise-Blind (some a) e = record { at = λ s. refl }

module _ {D : Type 0} ⦃d : Decimal D⦄ (day : ℕ) where
  execute_buy-Blind :
      (order : OrderRequest D) (today : ℕ) (price fee : D)
      → Blind day (execute_buy order today price fee)
  unfolding execute_buy
  execute_buy-Blind order today price fee = record {
    at = λ s. elim (Bool-cases (lt s.cash (price * of_int order.quantity + fee))) [
      | inl short ↦ rw short
      | inr enough ↦ rw enough
    ];
  }

  execute_sell-Blind :
      (order : OrderRequest D) (price fee : D) → Blind day (execute_sell order price fee)
  unfolding execute_sell
  execute_sell-Blind order price fee = record {
    at = λ s. elim (Option-cases (holding order.symbol s.positions)) [
      | inl gone ↦ rw gone
      | inr (p, e) ↦ elim (Bool-cases (ltb_ℤ p.quantity order.quantity)) [
        | inl short ↦ rw (e, short)
        | inr enough ↦ rw (e, enough)
      ]
    ];
  }

  execute-Blind :
      (side : OrderSide) (order : OrderRequest D) (today : ℕ) (price fee : D)
      → Blind day (execute side order today price fee)
  unfolding execute
  execute-Blind OrderSide.buy order today price fee = execute_buy-Blind order today price fee
  execute-Blind OrderSide.sell order today price fee = execute_sell-Blind order price fee

  slip_lem :
      (type : OrderType) (order : OrderRequest D) (base : D) (s : Simulator D)
      → slip type order base (blind_after day s) ≡ slip type order base s
  unfolding slip calculate_slippage
  slip_lem OrderType.market order base s = refl
  slip_lem OrderType.limit order base s = refl

  commission_lem :
      (side : OrderSide) (amount : D) (s : Simulator D)
      → calculate_commission (blind_after day s) side amount ≡ calculate_commission s side amount
  unfolding calculate_commission
  commission_lem OrderSide.buy amount s = refl
  commission_lem OrderSide.sell amount s = refl

  record_order-Blind :
      (order : OrderRequest D) (today : ℕ) (price fee : D)
      → Blind day (record_order order today price fee)
  unfolding record_order
  record_order-Blind order today price fee = record { at = λ s. refl }

  fill_at-Blind :
      (order : OrderRequest D) (today : ℕ) (price fee : D)
      → Blind day (fill_at order today price fee)
  fill_at-Blind order today price fee =
      unfold fill_at in
      bind-Blind day (execute order.side order today price fee)
        (λ _. record_order order today price fee) (execute-Blind order.side order today price fee)
        (λ _. record_order-Blind order today price fee)

  fill-Blind : (order : OrderRequest D) (today : ℕ) (base : D) → Blind day (fill order today base)
  unfolding fill
  fill-Blind order today base = record {
    at = λ s.
        let price = slip order.order_type order base s in
        let fee = calculate_commission s order.side (price * of_int order.quantity) in
        ap
          (λ p.
            fill_at order today p
              (calculate_commission (blind_after day s) order.side (p * of_int order.quantity))
              (blind_after day s))
          (slip_lem order.order_type order base s)
        ∙ ap (λ f. fill_at order today price f (blind_after day s)) (commission_lem order.side _ s)
        ∙ (fill_at-Blind order today price fee).at s;
  }

  base_price-Blind :
      (type : OrderType) (order : OrderRequest D) → Blind day (base_price_of type order day)
  unfolding base_price_of
  base_price-Blind OrderType.market order = record {
    at = λ s.
        ap (λ o. or_raise o no_price_data (blind_after day s))
          (get_open_price-until s.data_loader order.symbol day)
        ∙ (or_raise-Blind day (get_open_price s.data_loader order.symbol day) no_price_data).at s;
  }
  base_price-Blind OrderType.limit order = or_raise-Blind day order.price _

  place_on-Blind : (order : OrderRequest D) → Blind day (place_on order day)
  place_on-Blind order =
      unfold place_on in
      bind-Blind day (base_price_of order.order_type order day) (λ base. fill order day base)
        (base_price-Blind order.order_type order) (λ base. fill-Blind order day base)

  -- A call that first asks for the date goes on with it.
  dated :
      {A : Type 0} (k : ℕ → Call D A) (s : Simulator D)
      → s.current_date ≡ some day
      → (ensure_date_set >>= k) s ≡ k day s
  unfolding ensure_date_set
  dated k s e = go s.current_date e
    where
      go : (o : Option ℕ) → o ≡ some day → (or_raise o date_not_set >>= k) s ≡ k day s
      go none h = cc
      go (some today) h = cc

  -- An order on a date is filled or refused alike, with the same effect, when the rows of all later
  -- dates are removed from the history.
  pub place_order-blind :
      (order : OrderRequest D) (s : Simulator D)
      → s.current_date ≡ some day
      → let (x, s') = place_order order s in
        place_order order (blind_after day s) ≡ (x, blind_after day s')
  unfolding place_order
  place_order-blind order s e =
      dated (place_on order) (blind_after day s) e
      ∙ (place_on-Blind order).at s
      ∙ ap (λ t. (t.0, blind_after day t.1)) (sym (dated (place_on order) s e))

  find_date_index-Blind : (target : ℕ) → Blind {D = D} day (find_date_index target)
  unfolding find_date_index
  find_date_index-Blind target = record {
    at = λ s. (or_raise-Blind day (date_index s.trading_dates target) not_a_trading_date).at s;
  }

  bars_from-Blind :
      (symbol : String) (period idx : ℕ) → Blind {D = D} day (bars_from symbol period day idx)
  unfolding bars_from
  bars_from-Blind symbol period idx = record {
    at = λ s. elim (Option-cases (get_elem? s.trading_dates (window_start idx period))) [
      | inl e ↦ rw e
      | inr (first, e) ↦ rw e (
          ap (λ rows. (ok rows, blind_after day s))
            (get_ohlcv_range-until s.data_loader symbol first day))
    ];
  }

  -- The price bars that the broker hands out on a date, or its refusal, are the same when the rows
  -- of all later dates are removed from the history.
  pub get_daily_ohlcv-blind :
      (symbol : String) (period : ℕ) (s : Simulator D)
      → s.current_date ≡ some day
      → (get_daily_ohlcv symbol period (blind_after day s)).0 ≡ (get_daily_ohlcv symbol period s).0
  unfolding get_daily_ohlcv bars_on
  get_daily_ohlcv-blind symbol period s e =
      ap (λ t. t.0)
        (dated (bars_on symbol period) (blind_after day s) e
          ∙ (bind-Blind day (find_date_index day) (bars_from symbol period day)
                (find_date_index-Blind day) (bars_from-Blind symbol period)).at
              s
          ∙ ap (λ t. (t.0, blind_after day t.1)) (sym (dated (bars_on symbol period) s e)))
