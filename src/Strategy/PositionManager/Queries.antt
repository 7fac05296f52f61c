-- ===== src/Strategy/PositionManager/Queries.antt =====
-- What the query for the open positions returns.
use stock_trading_agent.Base.{
  ℕ, suc, ◌≤◌, ◌≡◌, refl, ap, ◌∙◌, Bool, ◌&&◌, Option, List, [], ◌∷◌, arith, inl, inr, Bool-cases,
  String, str_eq, ltb, keep, length,
}
use stock_trading_agent.Base.All.{All}
use stock_trading_agent.Core.Enums.{StrategyType}
use stock_trading_agent.Strategy.PositionManager.{
  PositionRecord, Table, is_opened, same_strategy, matches, insert_by_date, order_by_date, get_open,
}

module _ {D : Type 0} where
  -- By the date of entry, the earliest first.
  abbrev pub IsSorted : List (PositionRecord D) → Type 0
  IsSorted [] = Unit {0}
  IsSorted (r ∷ rs) = All (λ x. r.entry_date ≤ x.entry_date) rs × IsSorted rs

  insert_by_date-All :
      (P : PositionRecord D → Type 0) (r : PositionRecord D) (xs : List (PositionRecord D))
      → P r
      → All P xs
      → All P (insert_by_date r xs)
  unfolding insert_by_date
  insert_by_date-All P r [] p h = (p, tt)
  insert_by_date-All P r (x ∷ xs) p (h, hs) = elim (Bool-cases (ltb x.entry_date r.entry_date)) [
    | inl earlier ↦ rw (earlier, insert_by_date) (h, insert_by_date-All P r xs p hs)
    | inr later ↦ rw (later, insert_by_date) (p, (h, hs))
  ]

  weaken :
      (a b : ℕ) (xs : List (PositionRecord D))
      → a ≤ b
      → All (λ x. b ≤ x.entry_date) xs
      → All (λ x. a ≤ x.entry_date) xs
  weaken a b [] le h = tt
  weaken a b (x ∷ xs) le (h, hs) = (omega arith, weaken a b xs le hs)

  insert_by_date-IsSorted :
      (r : PositionRecord D) (xs : List (PositionRecord D))
      → IsSorted xs
      → IsSorted (insert_by_date r xs)
  unfolding insert_by_date
  insert_by_date-IsSorted r [] h = (tt, tt)
  insert_by_date-IsSorted r (x ∷ xs) (h, hs) = elim (Bool-cases (ltb x.entry_date r.entry_date)) [
    | inl earlier ↦
        rw (earlier, insert_by_date)
          (
            insert_by_date-All (λ y. x.entry_date ≤ y.entry_date) r xs (ground arith) h,
            insert_by_date-IsSorted r xs hs,
          )
    | inr later ↦
        let le : r.entry_date ≤ x.entry_date = ground arith in
        rw (later, insert_by_date) ((le, weaken r.entry_date x.entry_date xs le h), (h, hs))
  ]

  order_by_date-IsSorted : (rs : List (PositionRecord D)) → IsSorted (order_by_date rs)
  unfolding order_by_date
  order_by_date-IsSorted [] = tt
  order_by_date-IsSorted (r ∷ rs) =
      insert_by_date-IsSorted r (order_by_date rs) (order_by_date-IsSorted rs)

  -- How many rows pass a test.
  abbrev pub count : (PositionRecord D → Bool) → List (PositionRecord D) → ℕ
  count p rs = length (keep p rs)

  count-insert_by_date :
      (p : PositionRecord D → Bool) (r : PositionRecord D) (xs : List (PositionRecord D))
      → count p (insert_by_date r xs) ≡ count p (r ∷ xs)
  unfolding insert_by_date
  count-insert_by_date p r [] = refl
  count-insert_by_date p r (x ∷ xs) = let ih = count-insert_by_date p r xs in ground arith

  count-cons :
      (p : PositionRecord D → Bool) (r : PositionRecord D) (xs ys : List (PositionRecord D))
      → count p xs ≡ count p ys
      → count p (r ∷ xs) ≡ count p (r ∷ ys)
  count-cons p r xs ys h = elim (Bool-cases (p r)) [
    | inl hit ↦ rw hit (ap (λ (n : ℕ). suc n) h)
    | inr miss ↦ rw miss h
  ]

  count-order_by_date :
      (p : PositionRecord D → Bool) (rs : List (PositionRecord D))
      → count p (order_by_date rs) ≡ count p rs
  unfolding order_by_date
  count-order_by_date p [] = refl
  count-order_by_date p (r ∷ rs) =
      let ih = count-order_by_date p rs in
      count-insert_by_date p r (order_by_date rs) ∙ count-cons p r (order_by_date rs) rs ih

  count-keep :
      (p q : PositionRecord D → Bool) (rs : List (PositionRecord D))
      → count p (keep q rs) ≡ count (λ r. q r && p r) rs
  count-keep p q [] = refl
  count-keep p q (r ∷ rs) = let ih = count-keep p q rs in ground arith

  -- What the query asks of a row.
  abbrev pub selected : Option StrategyType → Option String → PositionRecord D → Bool
  selected strategy_type account_id r =
      is_opened r.status
      && (matches same_strategy strategy_type r.strategy_type
          && matches str_eq account_id r.account_id)

  -- The open positions are returned by their dates of entry, and they are the rows that the query
  -- asks for: of every kind of row, as many as the table has of those that are open, of the strategy
  -- and of the account.
  pub get_open-IsSorted :
      (strategy_type : Option StrategyType) (account_id : Option String) (t : Table D)
      (p : PositionRecord D → Bool)
      → IsSorted (get_open strategy_type account_id t)
        × (count p (get_open strategy_type account_id t)
            ≡ count (λ r. selected strategy_type account_id r && p r) t.rows)
  unfolding get_open
  get_open-IsSorted strategy_type account_id t p =
      let chosen = keep (selected strategy_type account_id) t.rows in
      (
        order_by_date-IsSorted chosen,
        count-order_by_date p chosen ∙ count-keep p (selected strategy_type account_id) t.rows,
      )
