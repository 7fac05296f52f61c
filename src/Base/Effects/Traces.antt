-- ===== src/Base/Effects/Traces.antt =====
-- Methods that only make the moves of a step relation, one method at a time.
use stock_trading_agent.Base.{◌≡◌, refl, Bool, true, false, Option, none, some, List, [], ◌∷◌}
use stock_trading_agent.Base.Effects.{
  raise_if, ◌>>◌, Method, Outcome, ok, err, ◌>>=◌, for_each, catching, or_raise,
}

module _ {S : Type 0} (Move : S → S → Type 0) where
  pub data Trace (s : S) : S → Type 0 where
    here : Trace s s
    next : {t u : S} → Trace s t → Move t u → Trace s u

  pub joined : {s t u : S} → Trace s t → Trace t u → Trace s u
  joined h here = h
  joined h (next k m) = next (joined h k) m

  pub one : {s t : S} → Move s t → Trace s t
  one m = next here m

  -- A method that ends, however it ends, where moves lead from where it starts.
  abbrev pub Along : {E A : Type 0} → Method S E A → Type 0
  Along m = (s : S) → Trace s (m s).1

  -- What holds of a state holds after a trace, where each move keeps it.
  pub Trace-keeps :
      (P : S → Type 0) → ((s t : S) → Move s t → P s → P t) → {s t : S} → Trace s t → P s → P t
  Trace-keeps P keeps here h = h
  Trace-keeps P keeps (next {t} {u} r m) h = keeps t u m (Trace-keeps P keeps r h)

module _ {S E : Type 0} {Move : S → S → Type 0} where
  pub or_raise-Along : {A : Type 0} (a : Option A) (e : E) → Along Move (or_raise a e)
  or_raise-Along none e s = here
  or_raise-Along (some a) e s = here

  -- After a call that came out as `r` and led to `s`.
  after :
      {A B : Type 0} (f : A → Method S E B) (r : Outcome E A) {start : S} (s : S)
      → Trace Move start s
      → ((a : A) → Along Move (f a))
      → Trace Move start (((λ (_ : S). (r, s)) >>= f) start).1
  after f (ok a) s h k = joined Move h (k a s)
  after f (err e) s h k = h

  after_catching :
      {A : Type 0} (handler : Method S E A) (r : Outcome E A) {start : S} (s : S)
      → Trace Move start s
      → Along Move handler
      → Trace Move start (catching (λ (_ : S). (r, s)) handler start).1
  after_catching handler (ok a) s h k = h
  after_catching handler (err e) s h k = joined Move h (k s)

  pub bind-Along :
      {A B : Type 0} (m : Method S E A) (f : A → Method S E B)
      → Along Move m
      → ((a : A) → Along Move (f a))
      → Along Move (m >>= f)
  bind-Along m f h k s = after f (m s).0 (m s).1 (h s) k

  pub catching-Along :
      {A : Type 0} (m handler : Method S E A)
      → Along Move m
      → Along Move handler
      → Along Move (catching m handler)
  catching-Along m handler h k s = after_catching handler (m s).0 (m s).1 (h s) k

  pub raise_if-Trace :
      {A : Type 0} (c : Bool) (x : E) (m : Method S E A) (s : S)
      → (c ≡ false → Trace Move s (m s).1)
      → Trace Move s ((raise_if c x >> m) s).1
  raise_if-Trace true x m s h = here
  raise_if-Trace false x m s h = h refl

  -- A branch on a value that is there or not, and one on a test.
  pub option-Trace :
      {A B : Type 0} (o : Option A) (m : Method S E B) (f : A → Method S E B) (s : S)
      → Trace Move s (m s).1
      → ((a : A) → o ≡ some a → Trace Move s (f a s).1)
      → let branch : Method S E B = elim o [ none ↦ m | some a ↦ f a ] in Trace Move s (branch s).1
  option-Trace none m f s h k = h
  option-Trace (some a) m f s h k = k a refl

  pub bool-Trace :
      {A : Type 0} (b : Bool) (m n : Method S E A) (s : S)
      → (b ≡ true → Trace Move s (m s).1)
      → (b ≡ false → Trace Move s (n s).1)
      → let branch : Method S E A = elim b [ true ↦ m | false ↦ n ] in Trace Move s (branch s).1
  bool-Trace true m n s h k = h refl
  bool-Trace false m n s h k = k refl

  pub for_each-Along :
      {A : Type 0} (xs : List A) (body : A → Method S E (Unit {0}))
      → ((a : A) → Along Move (body a))
      → Along Move (for_each xs body)
  unfolding for_each
  for_each-Along [] body h s = here
  for_each-Along (x ∷ xs) body h s =
      bind-Along (body x) (λ _. for_each xs body) (h x) (λ _. for_each-Along xs body h) s
