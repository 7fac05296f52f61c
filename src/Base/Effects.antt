-- ===== src/Base/Effects.antt =====
-- A method call that changes an object and may raise. What was written before a raise stays
-- written, so the state comes back beside the error too.
pub mod Traces
use stock_trading_agent.Base.{
  Bool, List, [], ◌∷◌, Option, none, some, if◌then◌else◌, ◌≡◌, refl, ◌⊎◌, inl, inr,
}

pub data Outcome (E A : Type 0) : Type 0 where
  ok : A → Outcome E A
  err : E → Outcome E A

abbrev pub Method : Type 0 → Type 0 → Type 0 → Type 0
Method S E A = S → Outcome E A × S

module _ {S E A : Type 0} where
  abbrev pub pure : A → Method S E A
  pure a s = (ok a, s)

  abbrev pub raise : E → Method S E A
  raise e s = (err e, s)

  abbrev pub gets : (S → A) → Method S E A
  gets f s = (ok (f s), s)

  -- The value, or an exception where the code tests for `None`.
  abbrev pub or_raise : Option A → E → Method S E A
  or_raise none e = raise e
  or_raise (some a) e = pure a

infixl 5 ◌>>=◌ ◌>>◌
abbrev pub ◌>>=◌ : {S E A B : Type 0} → Method S E A → (A → Method S E B) → Method S E B
◌>>=◌ m f s = let (r, s') = m s in elim r [ ok a ↦ f a s' | err e ↦ raise e s' ]

abbrev pub ◌>>◌ : {S E A B : Type 0} → Method S E A → Method S E B → Method S E B
m >> k = m >>= λ _. k

abbrev pub raise_if : {S E : Type 0} → Bool → E → Method S E (Unit {0})
raise_if c e s = (if c then err e else ok tt, s)

abbrev pub modify : {S E : Type 0} → (S → S) → Method S E (Unit {0})
modify f s = (ok tt, f s)

-- `for x in xs: body(x)`
unfoldable pub for_each :
    {S E A : Type 0} → List A → (A → Method S E (Unit {0})) → Method S E (Unit {0})
for_each [] body = pure tt
for_each (x ∷ xs) body = body x >> for_each xs body

-- `try: m; except Exception: handler`
abbrev pub catching : {S E A : Type 0} → Method S E A → Method S E A → Method S E A
catching m handler s = let (r, s') = m s in elim r [ ok a ↦ (ok a, s') | err e ↦ handler s' ]

pub Outcome-cases :
    {E A : Type 0} (o : Outcome E A) → ((a : A) × (o ≡ ok a)) ⊎ ((e : E) × (o ≡ err e))
Outcome-cases (ok a) = inl (a, refl)
Outcome-cases (err e) = inr (e, refl)
