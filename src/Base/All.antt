-- ===== src/Base/All.antt =====
-- A predicate of every element of a list.
use stock_trading_agent.Base.{
  ◌≡◌, ◌⊎◌, Bool, false, Option, some, List, [], ◌∷◌, map, any, somes, arith, Option-cases, inl,
  inr,
}
use mathlib.Core.Path.{subst}

abbrev pub All {ℓ κ} : {A : Type ℓ} → (A → Type κ) → List A → Type κ
All P [] = Unit
All P (x ∷ xs) = P x × All P xs

-- Equal to one of the elements.
abbrev pub Among : {A : Type 0} → A → List A → Type 0
Among x [] = ⊥
Among x (y ∷ ys) = (x ≡ y) ⊎ Among x ys

-- Where a test holds of no element, it fails for each.
pub any-All :
    {A : Type 0} (p : A → Bool) (xs : List A) → any p xs ≡ false → All (λ x. p x ≡ false) xs
any-All p [] h = tt
any-All p (x ∷ xs) h = (ground arith, any-All p xs (ground arith))

-- What holds of the values that are there, field by field.
pub somes-All :
    {A B : Type 0} (f : A → Option B) (P : B → Type 0) (xs : List A)
    → All P (somes (map f xs))
    → All (λ x. (b : B) → f x ≡ some b → P b) xs
somes-All f P [] h = tt
somes-All f P (x ∷ xs) h = elim (Option-cases (f x)) [
  | inl e ↦ (λ b eq. cc, somes-All f P xs (rw e at h))
  | inr (v, e) ↦
      let h' : P v × All P (somes (map f xs)) = rw e at h in
      (λ b eq. let same : v ≡ b = cc in subst P same h'.0, somes-All f P xs h'.1)
]
