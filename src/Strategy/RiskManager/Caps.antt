-- ===== src/Strategy/RiskManager/Caps.antt =====
-- The adjusted quantity is within every rule's cap, and nothing where a rule blocks.
use stock_trading_agent.Base.{
  false, some, List, [], ◌∷◌, map, any, somes, ◌≡◌, arith, Bool-cases, inl, inr,
}
use stock_trading_agent.Base.All.{All, any-All, somes-All}
use stock_trading_agent.Base.Int.{ℤ, pos, ◌≤ℤ◌, ◌<ℤ◌, min_ℤ, max_ℤ}
use stock_trading_agent.Strategy.RiskManager.Rules.{RuleResult}
use stock_trading_agent.Strategy.RiskManager.Check.{least, cap_of, within_caps, blocks, adjust}

least-All : (a n : ℤ) (ms : List ℤ) → a ≤ℤ least n ms → (a ≤ℤ n) × All (λ m. a ≤ℤ m) ms
unfolding least
least-All a n [] h = (h, tt)
least-All a n (m ∷ ms) h =
    let rest = least-All a (min_ℤ n m) ms h in (ground arith, (ground arith, rest.1))

-- No more than the least of the caps and the quantity.
under_caps : (cs : List ℤ) (q : ℤ) → pos 0 <ℤ within_caps cs q → All (λ m. within_caps cs q ≤ℤ m) cs
unfolding within_caps
under_caps [] q h = tt
under_caps (n ∷ ns) q h =
    let le : max_ℤ (pos 0) (min_ℤ q (least n ns)) ≤ℤ least n ns = ground arith in
    least-All (max_ℤ (pos 0) (min_ℤ q (least n ns))) n ns le

within_caps_bounds :
    (cs : List ℤ) (q : ℤ)
    → pos 0 ≤ℤ q
    → (pos 0 ≤ℤ within_caps cs q)
      × (within_caps cs q ≤ℤ q)
      × (within_caps cs q ≤ℤ max_ℤ (pos 0) (cap_of cs q))
unfolding cap_of within_caps
within_caps_bounds [] q h = ground arith
within_caps_bounds (n ∷ ns) q h = ground arith

module _ {C : Type 0} where
  -- A result that lets `a` shares through: it does not block, and `a` is within its cap if it has one.
  abbrev pub Allows : ℤ → RuleResult C → Type 0
  Allows a r = (blocks r ≡ false) × ((m : ℤ) → r.max_quantity ≡ some m → a ≤ℤ m)

  zip_All :
      (P Q : RuleResult C → Type 0) (rs : List (RuleResult C))
      → All P rs
      → All Q rs
      → All (λ r. P r × Q r) rs
  zip_All P Q [] h k = tt
  zip_All P Q (r ∷ rs) h k = ((h.0, k.0), zip_All P Q rs h.1 k.1)

  -- A positive adjusted quantity is one that every result lets through.
  pub adjust-Allows :
      (rs : List (RuleResult C)) (q : ℤ) → pos 0 <ℤ adjust rs q → All (Allows (adjust rs q)) rs
  unfolding adjust
  adjust-Allows rs q h = elim (Bool-cases (any blocks rs)) [
    | inl blocked ↦ ground arith
    | inr open_ ↦
        let cs = somes (map (λ r. r.max_quantity) rs) in
        rw open_ (
          zip_All (λ r. blocks r ≡ false)
            (λ r. (m : ℤ) → r.max_quantity ≡ some m → within_caps cs q ≤ℤ m) rs
            (any-All blocks rs open_)
            (somes-All (λ r. r.max_quantity) (λ m. within_caps cs q ≤ℤ m) rs
              (under_caps cs q (rw open_ at h))))
  ]

  -- The adjusted quantity is between zero and what was asked for, and within the quantity that the
  -- result reports as allowed.
  pub adjust-bounds :
      (rs : List (RuleResult C)) (q : ℤ)
      → pos 0 ≤ℤ q
      → (pos 0 ≤ℤ adjust rs q)
        × (adjust rs q ≤ℤ q)
        × (adjust rs q ≤ℤ max_ℤ (pos 0) (cap_of (somes (map (λ r. r.max_quantity) rs)) q))
  unfolding adjust
  adjust-bounds rs q h = elim (Bool-cases (any blocks rs)) [
    | inl blocked ↦ rw blocked (ground arith)
    | inr open_ ↦ rw open_ (within_caps_bounds (somes (map (λ r. r.max_quantity) rs)) q h)
  ]
