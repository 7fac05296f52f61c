-- ===== src/Base/Bisect.antt =====
-- `bisect.bisect_left` of Python's library, on a list of numbers: the halving loop, on fuel, and
-- what it finds in a sorted list.
use stock_trading_agent.Base.{
  ℕ, zero, suc, ◌+◌, ◌/◌, Bool, false, Option, none, some, List, [], ◌∷◌, ltb, length,
  if◌then◌else◌,
}

abbrev pub get_elem? {ℓ} : {A : Type ℓ} → List A → ℕ → Option A
get_elem? [] i = none
get_elem? (x ∷ xs) zero = some x
get_elem? (x ∷ xs) (suc i) = get_elem? xs i

-- `a[i] < x`
abbrev pub below : List ℕ → ℕ → ℕ → Bool
below a x i = elim (get_elem? a i) [ none ↦ false | some v ↦ ltb v x ]

-- `while lo < hi: mid = (lo + hi) // 2; ...`
unfoldable pub bisect_loop : ℕ → List ℕ → ℕ → ℕ → ℕ → ℕ
bisect_loop zero a x lo hi = lo
bisect_loop (suc fuel) a x lo hi =
    let right = bisect_loop fuel a x (suc ((lo + hi) / 2)) hi in
    let left = bisect_loop fuel a x lo ((lo + hi) / 2) in
    if ltb lo hi then (if below a x ((lo + hi) / 2) then right else left) else lo

unfoldable pub bisect_left : List ℕ → ℕ → ℕ
unfolding bisect_loop
bisect_left a x = bisect_loop (length a) a x 0 (length a)
