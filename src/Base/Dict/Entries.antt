-- ===== src/Base/Dict/Entries.antt =====
-- A predicate of every entry of a dict.
use stock_trading_agent.Base.{◌≡◌, some, [], ◌∷◌, arith, String, str_eq_iff}
use stock_trading_agent.Base.Dict.{Dict, lookup, insert}

module _ {V : Type 0} (P : String → V → Type 0) where
  abbrev pub AllEntries : Dict V → Type 0
  AllEntries [] = Unit {0}
  AllEntries ((k, v) ∷ d) = P k v × AllEntries d

  pub lookup-AllEntries :
      (k : String) (v : V) (d : Dict V) → AllEntries d → lookup k d ≡ some v → P k v
  unfolding lookup
  lookup-AllEntries k v [] h e = cc
  lookup-AllEntries k v ((j, w) ∷ d) h e =
      ground (arith, str_eq_iff j k, lookup-AllEntries k v d h.1)

  pub insert-AllEntries :
      (k : String) (v : V) (d : Dict V) → AllEntries d → P k v → AllEntries (insert k v d)
  unfolding insert
  insert-AllEntries k v [] h p = (p, tt)
  insert-AllEntries k v ((j, w) ∷ d) h p =
      ground (arith, str_eq_iff j k, insert-AllEntries k v d h.1 p)
