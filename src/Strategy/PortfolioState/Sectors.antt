-- ===== src/Strategy/PortfolioState/Sectors.antt =====
-- The cache of sectors changes nothing that is answered.
use stock_trading_agent.Base.{
  ◌≡◌, refl, arith, some, List, [], ◌∷◌, String, str_eq_iff, map, Option-cases, Bool-cases, inl,
  inr,
}
use stock_trading_agent.Base.Dict.{Dict, lookup, lookup-insert}
use stock_trading_agent.Decimal.{Decimal, le, dec}
use stock_trading_agent.Core.Models.{Position}
use stock_trading_agent.Strategy.PortfolioState.{
  PortfolioStateService, sector_from, cache_sector, cache_sectors, sector_map,
  get_sector_allocations, mapped_sector,
}

-- What is cached is what the table says.
abbrev pub Agrees : Dict String → Dict String → Type 0
Agrees cache master =
    (symbol sector : String)
    → lookup symbol cache ≡ some sector
    → sector ≡ sector_from [] master symbol

sector_from-Agrees :
    (cache master : Dict String) (symbol : String)
    → Agrees cache master
    → sector_from cache master symbol ≡ sector_from [] master symbol
unfolding sector_from lookup
sector_from-Agrees cache master symbol h = elim (Option-cases (lookup symbol cache)) [
  | inl missing ↦ ground arith
  | inr (sector, cached) ↦ let same = h symbol sector cached in ground (arith, same)
]

cache_sector-Agrees :
    (master cache : Dict String) (symbol : String)
    → Agrees cache master
    → Agrees (cache_sector master cache symbol) master
unfolding cache_sector sector_from lookup
cache_sector-Agrees master cache symbol h k sector cached =
    elim (Option-cases (lookup symbol cache)) [
      | inr (old, known) ↦ ground (arith, h k sector)
      | inl missing ↦ elim (Option-cases (lookup symbol master)) [
        | inl unlisted ↦ ground (arith, h k sector)
        | inr (listed, found) ↦ ground (
          arith,
          lookup-insert symbol k (mapped_sector listed) cache,
          str_eq_iff symbol k,
          h k sector,
        )
      ]
    ]

cache_sectors-Agrees :
    (master cache : Dict String) (symbols : List String)
    → Agrees cache master
    → Agrees (cache_sectors master cache symbols) master
unfolding cache_sectors
cache_sectors-Agrees master cache [] h = h
cache_sectors-Agrees master cache (s ∷ ss) h =
    cache_sectors-Agrees master (cache_sector master cache s) ss
      (cache_sector-Agrees master cache s h)

sector_map-Agrees :
    (cache master : Dict String) (symbols : List String)
    → Agrees cache master
    → sector_map cache master symbols ≡ sector_map [] master symbols
unfolding sector_map
sector_map-Agrees cache master [] h = refl
sector_map-Agrees cache master (s ∷ ss) h =
    let here = sector_from-Agrees cache master s h in
    let rest = sector_map-Agrees cache master ss h in rw (here, rest) refl

module _ {D : Type 0} ⦃d : Decimal D⦄ where
  -- Where the cached sectors are those of the table of stocks, the allocations by sector are those
  -- that a service without a cache would answer, and what is cached afterwards is again what the table
  -- says.
  pub get_sector_allocations-uncached :
      (ps : List (Position D)) (total_value : D) (s : PortfolioStateService D)
      → Agrees s.sector_cache s.stock_master
      → ((get_sector_allocations ps total_value s).0
          ≡ (get_sector_allocations ps total_value (record s { sector_cache = [] })).0)
        × Agrees (get_sector_allocations ps total_value s).1.sector_cache s.stock_master
  unfolding get_sector_allocations
  get_sector_allocations-uncached [] total_value s h = (refl, h)
  get_sector_allocations-uncached (p ∷ ps) total_value s h =
      let symbols = map (λ q. q.symbol) (p ∷ ps) in
      let same = sector_map-Agrees s.sector_cache s.stock_master symbols h in
      elim (Bool-cases (le total_value (dec 0))) [
        | inl worthless ↦ (rw worthless refl, rw worthless h)
        | inr valued ↦ (
          ground (arith, same),
          rw valued (cache_sectors-Agrees s.stock_master s.sector_cache symbols h),
        )
      ]
