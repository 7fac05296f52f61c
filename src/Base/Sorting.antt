-- ===== src/Base/Sorting.antt =====
-- `sorted(xs, key=...)` for a numeric key: the stable insertion sort.
pub mod Order
use stock_trading_agent.Base.{ℕ, List, [], ◌∷◌, leb, if◌then◌else◌}

module _ {A : Type 0} (key : A → ℕ) where
  unfoldable pub insert_by : A → List A → List A
  insert_by a [] = a ∷ []
  insert_by a (x ∷ xs) =
      let rest = insert_by a xs in if leb (key a) (key x) then a ∷ x ∷ xs else x ∷ rest

  unfoldable pub sorted : List A → List A
  unfolding insert_by
  sorted [] = []
  sorted (a ∷ xs) = insert_by a (sorted xs)
