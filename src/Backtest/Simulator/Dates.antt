-- ===== src/Backtest/Simulator/Dates.antt =====
-- The binary search for a trading date finds it exactly where it stands in the calendar.
use stock_trading_agent.Base.{
  ℕ, zero, suc, ◌+◌, ◌/◌, ◌≤◌, ◌<◌, ◌≡◌, ◌↔◌, refl, true, false, some, List, [], ◌∷◌, arith, ltb,
  length, inl, inr, Bool-cases, Option-cases, ◌∙◌,
}
use native.Mathlib.Decide.{dec_lt}
use stock_trading_agent.Base.Bisect.{get_elem?, below, bisect_loop, bisect_left}
use stock_trading_agent.Backtest.Simulator.Market.{date_index}

abbrev AllAbove : ℕ → List ℕ → Type 0
AllAbove x [] = Unit {0}
AllAbove x (y ∷ ys) = (x < y) × AllAbove x ys

-- The calendar is in order, with no date twice.
abbrev pub Increasing : List ℕ → Type 0
Increasing [] = Unit {0}
Increasing (x ∷ xs) = AllAbove x xs × Increasing xs

below-AllAbove : (v x i : ℕ) (a : List ℕ) → AllAbove v a → below a x i ≡ true → v < x
below-AllAbove v x i [] h b = cc
below-AllAbove v x zero (y ∷ a) h b = ground arith
below-AllAbove v x (suc i) (y ∷ a) h b = below-AllAbove v x i a h.1 b

below_mono :
    (a : List ℕ) (x j i : ℕ) → Increasing a → j ≤ i → below a x i ≡ true → below a x j ≡ true
below_mono [] x j i h le b = cc
below_mono (v ∷ a) x zero zero h le b = b
below_mono (v ∷ a) x zero (suc i) h le b = ground (arith, below-AllAbove v x i a h.0 b)
below_mono (v ∷ a) x (suc j) zero h le b = absurd (omega arith)
below_mono (v ∷ a) x (suc j) (suc i) h le b = below_mono a x j i h.1 (omega arith) b

below_past : (a : List ℕ) (x j : ℕ) → length a ≤ j → below a x j ≡ false
below_past [] x j h = refl
below_past (v ∷ a) x zero h = absurd (omega arith)
below_past (v ∷ a) x (suc j) h = below_past a x j (omega arith)

-- Everything before `i` is below `x`, and nothing from `i` on is.
record Splits (a : List ℕ) (x i : ℕ) : Type 0 where
  before : (j : ℕ) → j < i → below a x j ≡ true
  from : (j : ℕ) → i ≤ j → below a x j ≡ false

not_below_mono :
    (a : List ℕ) (x i j : ℕ) → Increasing a → i ≤ j → below a x i ≡ false → below a x j ≡ false
not_below_mono a x i j h le b = elim (Bool-cases (below a x j)) [
  | inl yes_below ↦ cc (below_mono a x i j h le yes_below)
  | inr not_below ↦ not_below
]

-- With fuel for the distance, the loop closes in on the point of insertion.
bisect_loop-Splits :
    (fuel : ℕ) (a : List ℕ) (x lo hi : ℕ)
    → Increasing a
    → lo ≤ hi
    → hi ≤ lo + fuel
    → ((j : ℕ) → j < lo → below a x j ≡ true)
    → ((j : ℕ) → hi ≤ j → below a x j ≡ false)
    → Splits a x (bisect_loop fuel a x lo hi)
unfolding bisect_loop
bisect_loop-Splits zero a x lo hi h le fit low high = record {
  before = low;
  from = λ j hj. high j (omega arith);
}
bisect_loop-Splits (suc fuel) a x lo hi h le fit low high = elim (Bool-cases (ltb lo hi)) [
  | inl more ↦
      let lt : lo < hi = ground arith in
      elim (Bool-cases (below a x ((lo + hi) / 2))) [
        | inl left ↦
            rw (more, left)
              (bisect_loop-Splits fuel a x (suc ((lo + hi) / 2)) hi h (omega arith) (omega arith)
                (λ j hj. below_mono a x j ((lo + hi) / 2) h (omega arith) left) high)
        | inr right ↦
            rw (more, right)
              (bisect_loop-Splits fuel a x lo ((lo + hi) / 2) h (omega arith) (omega arith) low
                (λ j hj. not_below_mono a x ((lo + hi) / 2) j h hj right))
      ]
  | inr done ↦
      let ge : hi ≤ lo = ground arith in
      rw done (record { before = low; from = λ j hj. high j (omega arith) })
]

bisect_left-Splits : (a : List ℕ) (x : ℕ) → Increasing a → Splits a x (bisect_left a x)
unfolding bisect_left
bisect_left-Splits a x h =
    bisect_loop-Splits (length a) a x 0 (length a) h (omega arith) (omega arith)
      (λ j hj. absurd (omega arith)) (λ j hj. below_past a x j hj)

below_at : (a : List ℕ) (x i v : ℕ) → get_elem? a i ≡ some v → below a x i ≡ ltb v x
below_at a x i v e = rw (e, below)

AllAbove-get_elem? : (v x k : ℕ) (a : List ℕ) → AllAbove v a → get_elem? a k ≡ some x → v < x
AllAbove-get_elem? v x k [] h e = cc
AllAbove-get_elem? v x zero (y ∷ a) h e = ground arith
AllAbove-get_elem? v x (suc k) (y ∷ a) h e = AllAbove-get_elem? v x k a h.1 e

below-earlier :
    (a : List ℕ) (x i k : ℕ) → Increasing a → i < k → get_elem? a k ≡ some x → below a x i ≡ true
below-earlier [] x i k h lt e = cc
below-earlier (v ∷ a) x i zero h lt e = absurd (omega arith)
below-earlier (v ∷ a) x zero (suc k) h lt e = ground (arith, AllAbove-get_elem? v x k a h.0 e)
below-earlier (v ∷ a) x (suc i) (suc k) h lt e = below-earlier a x i k h.1 (omega arith) e

-- The point of insertion of a value of the list is its place.
index_unique :
    (a : List ℕ) (x i k : ℕ) → Increasing a → Splits a x i → get_elem? a k ≡ some x → i ≡ k
index_unique a x i k h split e =
    let here : below a x k ≡ false = below_at a x k x e ∙ ground arith in
    elim (dec_lt k i) [
      | yes lt ↦ cc (split.before k lt)
      | no not_lt ↦ elim (dec_lt i k) [
        | yes lt ↦ cc (below-earlier a x i k h lt e, split.from i (omega arith))
        | no not_gt ↦ omega arith
      ]
    ]

-- In a calendar in increasing order, the binary search answers with an index exactly if the date
-- stands at it.
pub date_index_iff :
    (dates : List ℕ) (day k : ℕ)
    → Increasing dates
    → (date_index dates day ≡ some k) ↔ (get_elem? dates k ≡ some day)
unfolding date_index
date_index_iff dates day k h = (found, complete)
  where
    found : date_index dates day ≡ some k → get_elem? dates k ≡ some day
    found e = elim (Option-cases (get_elem? dates (bisect_left dates day))) [
      | inl gone ↦ ground arith
      | inr (v, at) ↦ ground arith
    ]

    complete : get_elem? dates k ≡ some day → date_index dates day ≡ some k
    complete e =
        let place =
          index_unique dates day (bisect_left dates day) k h (bisect_left-Splits dates day h) e in
        ground arith
