-- ===== src/Backtest/Replay/Selection.antt =====
-- What the replay answers, against the rows of the log, with a day as its minutes.
use stock_trading_agent.Base.{
  ℕ, ◌+◌, ◌*◌, ◌≡◌, refl, ap, sym, ◌∙◌, arith, Bool, ◌&&◌, ◌==◌, Option, none, some, List, [], ◌∷◌,
  leb, keep, true, false, Bool-cases, Option-cases, inl, inr, ltb, String, str_eq, str_eq_iff,
  if◌then◌else◌,
}
use stock_trading_agent.Base.Sorting.{sorted}
use stock_trading_agent.Base.Sorting.Order.{
  IsOrdered, count, count-keep, count-sorted, sorted-IsOrdered, keep-IsOrdered,
}
use stock_trading_agent.Backtest.Replay.{
  DecisionLog, ReplayDecision, kst_date, same_key, contains, default_stage_filter,
  actionable_decisions, model_matches, in_range, selected, select_all, load, get_decisions,
}
use stock_trading_agent.Backtest.Replay.Cache.{of_key, get_decisions-load}

-- A time within the minutes of a day in Korea, nine hours ahead.
abbrev pub on_day : ℕ → ℕ → Bool
on_day day created_at =
    leb (day * 1440) (created_at + 540) && ltb (created_at + 540) (day * 1440 + 1440)

kst_date-on_day : (day created_at : ℕ) → (kst_date created_at == day) ≡ on_day day created_at
kst_date-on_day day created_at = ground arith

range_on_day :
    (start_date end_date day created_at : ℕ)
    → on_day day created_at
        && (leb (start_date * 1440) (created_at + 540)
            && ltb (created_at + 540) ((end_date + 1) * 1440))
      ≡ (on_day day created_at && (leb start_date day && leb day end_date))
range_on_day start_date end_date day created_at = ground arith

regroup :
    (low high stage decided model listed day period : Bool)
    → (day && (low && high)) ≡ (day && period)
    → ((low && (high && (stage && (decided && model)))) && listed) && (day && true)
      ≡ (day && (period && (listed && (stage && (decided && model)))))
regroup low high stage decided model listed day period h = ground arith

never : (b c : Bool) → b && (c && false) ≡ false
never b c = ground arith

keep-selected :
    {A : Type 0} (q : A → Bool) (b : Bool) (x : A) (xs : List A)
    → keep q (elim (if b then some x else none) [ none ↦ xs | some y ↦ y ∷ xs ])
      ≡ (if b && q x then x ∷ keep q xs else keep q xs)
keep-selected q true x xs = refl
keep-selected q false x xs = refl

module _ {D : Type 0} (start_date end_date : ℕ) (symbols : List String)
    (llm_model_filter : Option String) (day : ℕ) (symbol : String) where
  -- What a row is to be, for its decision to be answered for the day and the symbol.
  abbrev pub answers : DecisionLog D → String → Bool
  answers row s =
      str_eq s symbol
      && (on_day day row.created_at
          && ((leb start_date day && leb day end_date)
              && (contains symbol symbols
                  && (contains row.stage default_stage_filter
                      && (contains row.decision actionable_decisions
                          && model_matches llm_model_filter row.llm_model)))))

  abbrev pub decision_of : DecisionLog D → String → D → ReplayDecision D
  decision_of row s confidence = record {
    symbol = s;
    stage = row.stage;
    decision = row.decision;
    confidence = confidence;
    created_at = row.created_at;
  }

  -- The decisions of such rows, as far as they have a symbol and a confidence.
  unfoldable pub answered : List (DecisionLog D) → List (ReplayDecision D)
  answered [] = []
  answered (row ∷ rows) =
      let rest = answered rows in
      elim row.symbol [
        | none ↦ rest
        | some s ↦ elim row.confidence [
          | none ↦ rest
          | some confidence ↦ if answers row s then decision_of row s confidence ∷ rest else rest
        ]
      ]

  -- The query and the key together ask what is to be asked.
  row-answers :
      (row : DecisionLog D) (s : String)
      → (in_range start_date end_date symbols llm_model_filter row && contains s symbols)
          && same_key (kst_date row.created_at, s) (day, symbol)
        ≡ answers row s
  unfolding in_range
  row-answers row s =
      let at = kst_date-on_day day row.created_at in
      let range = range_on_day start_date end_date day row.created_at in
      elim (Bool-cases (str_eq s symbol)) [
        | inl same ↦
            let e : s ≡ symbol = ground (arith, str_eq_iff s symbol) in
            let listed : contains s symbols ≡ contains symbol symbols =
              ap (λ k. contains k symbols) e in
            rw (same, listed, at)
              (regroup (leb (start_date * 1440) (row.created_at + 540))
                (ltb (row.created_at + 540) ((end_date + 1) * 1440))
                (contains row.stage default_stage_filter)
                (contains row.decision actionable_decisions)
                (model_matches llm_model_filter row.llm_model) (contains symbol symbols)
                (on_day day row.created_at) (leb start_date day && leb day end_date) range)
        | inr other ↦
            rw (other, at)
              (never
                (in_range start_date end_date symbols llm_model_filter row && contains s symbols)
                (on_day day row.created_at))
      ]

  of_key-select_all :
      (rows : List (DecisionLog D))
      → of_key day symbol (select_all start_date end_date symbols llm_model_filter rows)
        ≡ answered rows
  unfolding select_all selected in_range answered
  of_key-select_all [] = refl
  of_key-select_all (row ∷ rows) =
      let ih = of_key-select_all rows in
      elim (Option-cases row.symbol) [
        | inl unnamed ↦ rw unnamed ih
        | inr (s, named) ↦ elim (Option-cases row.confidence) [
          | inl unsure ↦ rw (named, unsure) ih
          | inr (confidence, sure) ↦
              rw (named, sure)
                (keep-selected (λ r. same_key (kst_date r.created_at, r.symbol) (day, symbol))
                    (in_range start_date end_date symbols llm_model_filter row
                      && contains s symbols)
                    (decision_of row s confidence)
                    (select_all start_date end_date symbols llm_model_filter rows)
                  ∙ rw (row-answers row s, ih) refl)
        ]
      ]

  -- For every date and symbol, what the replay answers after a load is in the order of creation, and
  -- it is the decisions of the log's rows that fall on that day in Korea, from its midnight to the
  -- next, and meet the filters, where the day is one of the period loaded and the symbol one of those
  -- asked for: of every kind of decision, as many.
  pub get_decisions-answers :
      (rows : List (DecisionLog D)) (p : ReplayDecision D → Bool)
      → let decisions =
          get_decisions day symbol (load start_date end_date symbols llm_model_filter rows) in
        IsOrdered (λ r. r.created_at) decisions × (count p decisions ≡ count p (answered rows))
  get_decisions-answers rows p =
      let key =
        λ (r : ReplayDecision D). same_key (kst_date r.created_at, r.symbol) (day, symbol) in
      let chosen = select_all start_date end_date symbols llm_model_filter rows in
      let by_time = sorted (λ (r : ReplayDecision D). r.created_at) chosen in
      let loaded =
        get_decisions-load start_date end_date symbols llm_model_filter rows day symbol in
      let counted : count p (of_key day symbol by_time) ≡ count p (answered rows) =
        count-keep p key by_time
        ∙ count-sorted (λ r. r.created_at) (λ r. key r && p r) chosen
        ∙ sym (count-keep p key chosen)
        ∙ ap (λ rs. count p rs) (of_key-select_all rows) in
      rw loaded (
        keep-IsOrdered (λ r. r.created_at) key by_time
            (sorted-IsOrdered (λ r. r.created_at) chosen),
        counted,
      )
