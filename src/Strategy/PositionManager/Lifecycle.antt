-- ===== src/Strategy/PositionManager/Lifecycle.antt =====
-- The life of a stored position: created, its stop moved, closed once, and never changed again.
use stock_trading_agent.Base.{
  ℕ, ◌<◌, ◌≢◌, true, false, some, List, [], ◌∷◌, ◌++◌, ◌≡◌, refl, sym, ap, ◌∙◌, arith,
}
use mathlib.Core.Path.{subst}
use stock_trading_agent.Base.All.{All}
use stock_trading_agent.Base.Effects.{ok, err}
use stock_trading_agent.Strategy.PositionManager.{
  PositionRecord, Table, RecordStatus, is_opened, DatabaseError, find, write, change_open,
}

module _ {D : Type 0} where
  pub find-id :
      (id : ℕ) (rows : List (PositionRecord D)) (row : PositionRecord D)
      → find id rows ≡ some row
      → row.id ≡ id
  unfolding find
  find-id id [] row h = cc
  find-id id (r ∷ rs) row h =
      let ih = λ (h' : find id rs ≡ some row). find-id id rs row h' in ground arith

  pub write-find_same :
      (id : ℕ) (rows : List (PositionRecord D)) (row new : PositionRecord D)
      → find id rows ≡ some row
      → new.id ≡ id
      → find id (write new rows) ≡ some new
  unfolding find write
  write-find_same id [] row new h e = cc
  write-find_same id (r ∷ rs) row new h e =
      let ih = λ (h' : find id rs ≡ some row). write-find_same id rs row new h' e in ground arith

  pub write-find_other :
      (id : ℕ) (rows : List (PositionRecord D)) (new : PositionRecord D)
      → new.id ≢ id
      → find id (write new rows) ≡ find id rows
  unfolding find write
  write-find_other id [] new ne = refl
  write-find_other id (r ∷ rs) new ne = let ih = write-find_other id rs new ne in ground arith

  pub find-++ :
      (id : ℕ) (rows more : List (PositionRecord D)) (row : PositionRecord D)
      → find id rows ≡ some row
      → find id (rows ++ more) ≡ some row
  unfolding find
  find-++ id [] more row h = cc
  find-++ id (r ∷ rs) more row h =
      let ih = λ (h' : find id rs ≡ some row). find-++ id rs more row h' in ground arith

  -- The database has given no row an id that it has yet to give.
  abbrev pub IsFresh : Table D → Type 0
  IsFresh table = All (λ r. r.id < table.next_id) table.rows

  pub find-fresh :
      (id : ℕ) (rows : List (PositionRecord D)) (row : PositionRecord D)
      → All (λ r. r.id < id) rows
      → row.id ≡ id
      → find id (rows ++ (row ∷ [])) ≡ some row
  unfolding find
  find-fresh id [] row h e = ground arith
  find-fresh id (r ∷ rs) row (h, hs) e = let ih = find-fresh id rs row hs e in ground arith

  -- What a change of the open row leaves of the table.
  pub record Changed (id : ℕ) (new : PositionRecord D) (before after : Table D) : Type 0 where
    pub stored : find id after.rows ≡ some new
    pub others : (other : ℕ) → id ≢ other → find other after.rows ≡ find other before.rows
    pub counted : after.next_id ≡ before.next_id

  pub change_open-Changed :
      (id : ℕ) (change : PositionRecord D → PositionRecord D) (table : Table D)
      (row : PositionRecord D)
      → ((r : PositionRecord D) → (change r).id ≡ r.id)
      → find id table.rows ≡ some row
      → row.status ≡ RecordStatus.opened
      → ((change_open id change table).0 ≡ ok (change row))
        × Changed id (change row) table (change_open id change table).1
  unfolding change_open
  change_open-Changed id change table row keeps found is_open =
      let is_id : (change row).id ≡ id = keeps row ∙ find-id id table.rows row found in
      let opened : is_opened row.status ≡ true = rw is_open in
      let same = write-find_same id table.rows row (change row) found is_id in
      let others = λ (other : ℕ) (ne : id ≢ other).
        write-find_other other table.rows (change row) (λ e. ne (sym is_id ∙ e)) in
      let after = record table { rows = write (change row) table.rows } in
      let result : change_open id change table ≡ (ok (change row), after) =
        rw (found, opened, change_open) in
      let settled : Changed id (change row) table after = record {
        stored = same;
        others = others;
        counted = refl;
      } in
      (ap (λ o. o.0) result, subst (λ o. Changed id (change row) table o.1) (sym result) settled)

  pub change_open-closed :
      (id : ℕ) (change : PositionRecord D → PositionRecord D) (table : Table D)
      (row : PositionRecord D)
      → find id table.rows ≡ some row
      → row.status ≡ RecordStatus.closed
      → change_open id change table ≡ (err DatabaseError.already_closed, table)
  unfolding change_open
  change_open-closed id change table row found is_closed =
      let closed : is_opened row.status ≡ false = rw is_closed in rw (found, closed, change_open)
