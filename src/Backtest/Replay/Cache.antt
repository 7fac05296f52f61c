-- ===== src/Backtest/Replay/Cache.antt =====
-- What the cache answers, against the rows of the query.
use stock_trading_agent.Base.{
  ℕ, ◌≡◌, refl, sym, ap, arith, Option, List, [], ◌∷◌, ◌++◌, String, str_eq_iff, if◌then◌else◌,
  keep,
}
use stock_trading_agent.Base.Sorting.{sorted}
use stock_trading_agent.Backtest.Replay.{
  DecisionLog, ReplayDecision, Replay, kst_date, same_key, cached, cache_all, select_all, load,
  get_decisions,
}

module _ {D : Type 0} where
  append_assoc : (xs ys zs : List (ReplayDecision D)) → (xs ++ ys) ++ zs ≡ xs ++ (ys ++ zs)
  append_assoc [] ys zs = refl
  append_assoc (x ∷ xs) ys zs = ap (λ (t : List (ReplayDecision D)). x ∷ t) (append_assoc xs ys zs)

  append_nil : (xs : List (ReplayDecision D)) → xs ++ [] ≡ xs
  append_nil [] = refl
  append_nil (x ∷ xs) = ap (λ (t : List (ReplayDecision D)). x ∷ t) (append_nil xs)

  get_decisions-cached :
      (day day' : ℕ) (symbol symbol' : String) (r : ReplayDecision D) (cache : Replay D)
      → get_decisions day symbol (cached cache (day', symbol') r) ≡ (
          if same_key (day', symbol') (day, symbol)
          then get_decisions day symbol cache ++ (r ∷ [])
          else get_decisions day symbol cache)
  unfolding get_decisions cached
  get_decisions-cached day day' symbol symbol' r [] = ground arith
  get_decisions-cached day day' symbol symbol' r (((k, s), ds) ∷ cache) = ground (
    arith,
    str_eq_iff s symbol,
    str_eq_iff s symbol',
    str_eq_iff symbol' symbol,
    get_decisions-cached day day' symbol symbol' r cache,
  )

  -- The decisions of one date in Korea and one symbol.
  abbrev pub of_key : ℕ → String → List (ReplayDecision D) → List (ReplayDecision D)
  of_key day symbol rs = keep (λ r. same_key (kst_date r.created_at, r.symbol) (day, symbol)) rs

  get_decisions-cache_all :
      (day : ℕ) (symbol : String) (rs : List (ReplayDecision D)) (cache : Replay D)
      → get_decisions day symbol (cache_all cache rs)
        ≡ get_decisions day symbol cache ++ of_key day symbol rs
  unfolding cache_all
  get_decisions-cache_all day symbol [] cache = sym (append_nil (get_decisions day symbol cache))
  get_decisions-cache_all day symbol (r ∷ rs) cache =
      let before = get_decisions day symbol cache in
      ground (
        arith,
        get_decisions-cached day (kst_date r.created_at) symbol r.symbol r cache,
        get_decisions-cache_all day symbol rs (cached cache (kst_date r.created_at, r.symbol) r),
        append_assoc before (r ∷ []) (of_key day symbol rs),
      )

  -- After a load, the decisions for a date and a symbol are the selected rows of that date in Korea
  -- and that symbol, in the order of their times of creation.
  pub get_decisions-load :
      (start_date end_date : ℕ) (symbols : List String) (llm_model_filter : Option String)
      (rows : List (DecisionLog D)) (day : ℕ) (symbol : String)
      → get_decisions day symbol (load start_date end_date symbols llm_model_filter rows)
        ≡ of_key day symbol (
            sorted
              (λ r. r.created_at)
              (select_all start_date end_date symbols llm_model_filter rows))
  unfolding load get_decisions
  get_decisions-load start_date end_date symbols llm_model_filter rows day symbol =
      get_decisions-cache_all day symbol
        (sorted (λ r. r.created_at) (select_all start_date end_date symbols llm_model_filter rows))
        []
