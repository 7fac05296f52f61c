-- ===== src/Base/Sorting/Order.antt =====
-- Sorting by a key keeps the elements and puts them in order.
use stock_trading_agent.Base.{
  ℕ, ◌≤◌, ◌≡◌, refl, arith, Bool, ◌&&◌, List, [], ◌∷◌, leb, keep, length, Bool-cases, inl, inr,
}
use stock_trading_agent.Base.All.{All}
use stock_trading_agent.Base.Sorting.{insert_by, sorted}

module _ {A : Type 0} where
  -- How many elements pass a test.
  abbrev pub count : (A → Bool) → List A → ℕ
  count p xs = length (keep p xs)

  pub count-keep : (p q : A → Bool) (xs : List A) → count p (keep q xs) ≡ count (λ x. q x && p x) xs
  count-keep p q [] = refl
  count-keep p q (x ∷ xs) = let ih = count-keep p q xs in ground arith

module _ {A : Type 0} (key : A → ℕ) where
  count-insert_by :
      (p : A → Bool) (a : A) (xs : List A) → count p (insert_by key a xs) ≡ count p (a ∷ xs)
  unfolding insert_by
  count-insert_by p a [] = refl
  count-insert_by p a (x ∷ xs) = let ih = count-insert_by p a xs in ground arith

  pub count-sorted : (p : A → Bool) (xs : List A) → count p (sorted key xs) ≡ count p xs
  unfolding sorted
  count-sorted p [] = refl
  count-sorted p (x ∷ xs) =
      let ih = count-sorted p xs in
      let here = count-insert_by p x (sorted key xs) in ground (arith, ih, here)

  -- Each element's key is at most those of the elements after it.
  abbrev pub IsOrdered : List A → Type 0
  IsOrdered [] = Unit {0}
  IsOrdered (x ∷ xs) = All (λ y. key x ≤ key y) xs × IsOrdered xs

  All-insert_by :
      (n : ℕ) (a : A) (xs : List A)
      → n ≤ key a
      → All (λ y. n ≤ key y) xs
      → All (λ y. n ≤ key y) (insert_by key a xs)
  unfolding insert_by
  All-insert_by n a [] h all = (h, tt)
  All-insert_by n a (x ∷ xs) h (here, rest) = elim (Bool-cases (leb (key a) (key x))) [
    | inl before ↦ rw before (h, (here, rest))
    | inr after ↦ rw after (here, All-insert_by n a xs h rest)
  ]

  All-above : (m n : ℕ) (xs : List A) → m ≤ n → All (λ y. n ≤ key y) xs → All (λ y. m ≤ key y) xs
  All-above m n [] h all = tt
  All-above m n (x ∷ xs) h (here, rest) = (omega (arith, h, here), All-above m n xs h rest)

  insert_by-IsOrdered : (a : A) (xs : List A) → IsOrdered xs → IsOrdered (insert_by key a xs)
  unfolding insert_by
  insert_by-IsOrdered a [] h = (tt, tt)
  insert_by-IsOrdered a (x ∷ xs) (first, rest) = elim (Bool-cases (leb (key a) (key x))) [
    | inl before ↦
        let le : key a ≤ key x = ground arith in
        rw before ((le, All-above (key a) (key x) xs le first), (first, rest))
    | inr after ↦
        rw after (All-insert_by (key x) a xs (ground arith) first, insert_by-IsOrdered a xs rest)
  ]

  pub sorted-IsOrdered : (xs : List A) → IsOrdered (sorted key xs)
  unfolding sorted
  sorted-IsOrdered [] = tt
  sorted-IsOrdered (x ∷ xs) = insert_by-IsOrdered x (sorted key xs) (sorted-IsOrdered xs)

  All-keep :
      (n : ℕ) (q : A → Bool) (xs : List A)
      → All (λ y. n ≤ key y) xs
      → All (λ y. n ≤ key y) (keep q xs)
  All-keep n q [] all = tt
  All-keep n q (x ∷ xs) (here, rest) = elim (Bool-cases (q x)) [
    | inl hit ↦ rw hit (here, All-keep n q xs rest)
    | inr miss ↦ rw miss (All-keep n q xs rest)
  ]

  pub keep-IsOrdered : (q : A → Bool) (xs : List A) → IsOrdered xs → IsOrdered (keep q xs)
  keep-IsOrdered q [] h = tt
  keep-IsOrdered q (x ∷ xs) (first, rest) = elim (Bool-cases (q x)) [
    | inl hit ↦ rw hit (All-keep (key x) q xs first, keep-IsOrdered q xs rest)
    | inr miss ↦ rw miss (keep-IsOrdered q xs rest)
  ]
