-- ===== src/Backtest/Simulator/History.antt =====
-- A history cut off after a date: what the loader finds in it, and the calls that act alike on it.
use stock_trading_agent.Base.{
  ℕ, ◌≡◌, ◌≤◌, refl, ap, ◌∙◌, arith, none, some, List, [], ◌∷◌, inl, inr, String, leb, ◌&&◌, keep,
  Option-cases,
}
use stock_trading_agent.Base.Dict.{Dict, lookup}
use stock_trading_agent.Base.Effects.{Outcome, ok, err, ◌>>=◌}
use stock_trading_agent.Core.Models.{Ohlcv}
use stock_trading_agent.Backtest.Loader.{Loader, row_at, get_ohlcv, get_ohlcv_range, get_open_price}
use stock_trading_agent.Backtest.Simulator.State.{Simulator, BrokerError}
use stock_trading_agent.Backtest.Simulator.Orders.{Call}

module _ {D : Type 0} where
  -- The rows up to a date, and a history cut off after it.
  unfoldable pub rows_until : ℕ → List (Ohlcv D) → List (Ohlcv D)
  rows_until day df = keep (λ r. leb r.date day) df

  unfoldable pub frames_until : ℕ → Dict (List (Ohlcv D)) → Dict (List (Ohlcv D))
  frames_until day [] = []
  frames_until day ((k, df) ∷ fs) = (k, rows_until day df) ∷ frames_until day fs

  abbrev pub history_until : ℕ → Loader D → Loader D
  history_until day l = record l { frames = frames_until day l.frames }

  -- The broker with every row after `day` removed.
  abbrev pub blind_after : ℕ → Simulator D → Simulator D
  blind_after day s = record s { data_loader = history_until day s.data_loader }

  row_at-rows_until :
      (target day : ℕ) (df : List (Ohlcv D))
      → target ≤ day
      → row_at target (rows_until day df) ≡ row_at target df
  unfolding row_at rows_until
  row_at-rows_until target day [] h = refl
  row_at-rows_until target day (r ∷ df) h = ground (arith, row_at-rows_until target day df h)

  lookup-frames_until :
      (k : String) (day : ℕ) (fs : Dict (List (Ohlcv D)))
      → lookup k (frames_until day fs)
        ≡ elim (lookup k fs) [ none ↦ none | some df ↦ some (rows_until day df) ]
  unfolding lookup frames_until
  lookup-frames_until k day [] = refl
  lookup-frames_until k day ((j, df) ∷ fs) = ground (arith, lookup-frames_until k day fs)

  pub get_ohlcv-until :
      (l : Loader D) (k : String) (target day : ℕ)
      → target ≤ day
      → get_ohlcv (history_until day l) k target ≡ get_ohlcv l k target
  unfolding get_ohlcv
  get_ohlcv-until l k target day h = elim (Option-cases (lookup k l.frames)) [
    | inl e ↦ ground (arith, lookup-frames_until k day l.frames)
    | inr (df, e) ↦
        ground (arith, lookup-frames_until k day l.frames, row_at-rows_until target day df h)
  ]

  keep-rows_until :
      (first day : ℕ) (df : List (Ohlcv D))
      → keep (λ r. leb first r.date && leb r.date day) (rows_until day df)
        ≡ keep (λ r. leb first r.date && leb r.date day) df
  unfolding rows_until
  keep-rows_until first day [] = refl
  keep-rows_until first day (r ∷ df) = ground (arith, keep-rows_until first day df)

  pub get_ohlcv_range-until :
      (l : Loader D) (k : String) (first day : ℕ)
      → get_ohlcv_range (history_until day l) k first day ≡ get_ohlcv_range l k first day
  unfolding get_ohlcv_range
  get_ohlcv_range-until l k first day = elim (Option-cases (lookup k l.frames)) [
    | inl e ↦ ground (arith, lookup-frames_until k day l.frames)
    | inr (df, e) ↦ ground (arith, lookup-frames_until k day l.frames, keep-rows_until first day df)
  ]

  pub get_open_price-until :
      (l : Loader D) (k : String) (day : ℕ)
      → get_open_price (history_until day l) k day ≡ get_open_price l k day
  unfolding get_open_price
  get_open_price-until l k day = ground (arith, get_ohlcv-until l k day day)

module _ {D : Type 0} (day : ℕ) where
  -- A call that acts alike on a broker with the rows after `day` removed.
  pub record Blind {A : Type 0} (m : Call D A) : Type 0 where
    pub at : (s : Simulator D) → m (blind_after day s) ≡ ((m s).0, blind_after day (m s).1)

  continue-Blind :
      {A B : Type 0} (x : Outcome BrokerError A) (k : A → Call D B)
      → ((a : A) → Blind (k a))
      → Blind ((λ (t : Simulator D). (x, t)) >>= k)
  continue-Blind (ok a) k h = record { at = λ s. (h a).at s }
  continue-Blind (err e) k h = record { at = λ s. refl }

  pub bind-Blind :
      {A B : Type 0} (m : Call D A) (k : A → Call D B)
      → Blind m
      → ((a : A) → Blind (k a))
      → Blind (m >>= k)
  bind-Blind m k hm hk = record {
    at = λ s.
        ap (λ r. ((λ (t : Simulator D). r) >>= k) s) (hm.at s)
        ∙ (continue-Blind (m s).0 k hk).at (m s).1;
  }
