-- ===== src/Strategy/PositionManager/Closing.antt =====
-- A position is closed once, and a closed one stays as it was closed whatever is called later.
use stock_trading_agent.Base.{
  ℕ, suc, ◌<◌, ◌≢◌, Option, some, List, [], ◌∷◌, ◌++◌, ◌==◌, ◌≡◌, refl, sym, ◌∙◌, arith,
  Option-cases, Bool-cases, inl, inr, ◌⊎◌,
}
use mathlib.Core.Path.{subst}
use stock_trading_agent.Base.All.{All}
use stock_trading_agent.Base.Effects.{ok, err, Outcome-cases, ◌>>◌, ◌>>=◌}
use stock_trading_agent.Decimal.{Decimal}
use stock_trading_agent.Core.Enums.{ExitReason}
use stock_trading_agent.Strategy.PositionManager.{
  PositionRecord, Table, Entry, RecordStatus, DatabaseError, new_record, create, find, write,
  change_open, closing, close, update_stop_loss,
}
use stock_trading_agent.Strategy.PositionManager.Lifecycle.{
  IsFresh, Changed, find-id, find-fresh, find-++, write-find_other, change_open-Changed,
  change_open-closed,
}

status_cases : (s : RecordStatus) → (s ≡ RecordStatus.opened) ⊎ (s ≡ RecordStatus.closed)
status_cases RecordStatus.opened = inl refl
status_cases RecordStatus.closed = inr refl

module _ {D : Type 0} where
  write-All :
      (P : PositionRecord D → Type 0) (new : PositionRecord D) (rows : List (PositionRecord D))
      → P new
      → All P rows
      → All P (write new rows)
  unfolding write
  write-All P new [] p hs = tt
  write-All P new (r ∷ rs) p (h, hs) = elim (Bool-cases (r.id == new.id)) [
    | inl hit ↦ rw (hit, write) (p, hs)
    | inr miss ↦ rw (miss, write) (h, write-All P new rs p hs)
  ]

  append-below :
      (n : ℕ) (rows : List (PositionRecord D)) (row : PositionRecord D)
      → All (λ r. r.id < n) rows
      → row.id ≡ n
      → All (λ r. r.id < suc n) (rows ++ (row ∷ []))
  append-below n [] row h e = (omega arith, tt)
  append-below n (r ∷ rs) row (h, hs) e = (omega arith, append-below n rs row hs e)

  find-All :
      (P : PositionRecord D → Type 0) (id : ℕ) (rows : List (PositionRecord D))
      (row : PositionRecord D)
      → find id rows ≡ some row
      → All P rows
      → P row
  unfolding find
  find-All P id [] row found hs = cc
  find-All P id (r ∷ rs) row found (h, hs) = elim (Bool-cases (r.id == id)) [
    | inl hit ↦
        let same : r ≡ row = (let e : some r ≡ some row = rw hit at found in cc) in subst P same h
    | inr miss ↦ find-All P id rs row (rw miss at found) hs
  ]

  -- What the two methods that change an open row can do to the table.
  change_open-cases :
      (id : ℕ) (change : PositionRecord D → PositionRecord D) (table : Table D)
      → ((r : PositionRecord D) → (change r).id ≡ r.id)
      → ((change_open id change table).1 ≡ table)
        ⊎ ((row : PositionRecord D) × (find id table.rows ≡ some row)
            × (row.status ≡ RecordStatus.opened)
            × (change row).id ≡ id
            × (change_open id change table).1
              ≡ record table { rows = write (change row) table.rows })
  unfolding change_open
  change_open-cases id change table keeps = elim (Option-cases (find id table.rows)) [
    | inl e ↦ inl (rw (e, change_open))
    | inr (row, e) ↦ elim (status_cases row.status) [
      | inl s ↦ inr (row, e, s, keeps row ∙ find-id id table.rows row e, rw (e, s, change_open))
      | inr s ↦ inl (rw (e, s, change_open))
    ]
  ]

  change_open-IsFresh :
      (id : ℕ) (change : PositionRecord D → PositionRecord D) (table : Table D)
      → ((r : PositionRecord D) → (change r).id ≡ r.id)
      → IsFresh table
      → IsFresh (change_open id change table).1
  change_open-IsFresh id change table keeps h = elim (change_open-cases id change table keeps) [
    | inl e ↦ subst IsFresh (sym e) h
    | inr (row, found, s, same, e) ↦
        let below = find-All (λ r. r.id < table.next_id) id table.rows row found h in
        subst IsFresh (sym e)
          (write-All (λ r. r.id < table.next_id) (change row) table.rows (rw (keeps row) below) h)
  ]

  change_open-keeps :
      (id other : ℕ) (change : PositionRecord D → PositionRecord D) (table : Table D)
      (row : PositionRecord D)
      → ((r : PositionRecord D) → (change r).id ≡ r.id)
      → find id table.rows ≡ some row
      → row.status ≡ RecordStatus.closed
      → find id (change_open other change table).1.rows ≡ some row
  change_open-keeps id other change table row keeps found is_closed =
      elim (change_open-cases other change table keeps) [
        | inl e ↦ rw e found
        | inr (row', found', s, same, e) ↦
            let ne : (change row').id ≢ id = λ e'. cc in
            rw e (write-find_other id table.rows (change row') ne ∙ found)
      ]

module _ {D : Type 0} ⦃d : Decimal D⦄ where
  -- Calls of the four methods that write to the table, with what each leaves.
  pub data Step (t : Table D) : Table D → Type 0 where
    created : (e : Entry D) (today : ℕ) → Step t (create e today t).1
    closed :
        (id : ℕ) (price : D) (reason : ExitReason) (session : Option ℕ) (today : ℕ)
        → Step t (close id price reason session today t).1
    stop_moved : (id : ℕ) (stop : D) → Step t (update_stop_loss id stop t).1

  pub data Reach (t : Table D) : Table D → Type 0 where
    here : Reach t t
    next : {u v : Table D} → Reach t u → Step u v → Reach t v

  -- A first close of an open position answers with the row it stored: closed at the price, with
  -- (price - average cost) * quantity as its result; no other row changes; and any second close of
  -- it, whatever its arguments, raises and leaves the table as it was.
  pub close-once :
      (id : ℕ) (price price' : D) (reason reason' : ExitReason) (session session' : Option ℕ)
      (today today' : ℕ) (t : Table D) (row : PositionRecord D)
      → find id t.rows ≡ some row
      → row.status ≡ RecordStatus.opened
      → let closed_row = closing price reason session today row in
        let (answer, t') = close id price reason session today t in
        (answer ≡ ok closed_row)
        × Changed id closed_row t t'
        × (close id price' reason' session' today' t' ≡ (err DatabaseError.already_closed, t'))
  unfolding close closing
  close-once id price price' reason reason' session session' today today' t row found is_open =
      let (answer, changed) =
        change_open-Changed id (closing price reason session today) t row (λ r. refl) found
          is_open in
      (
        answer,
        changed,
        change_open-closed id (closing price' reason' session' today') _
            (closing price reason session today row) changed.stored refl,
      )

  update_stop_loss-state :
      (id : ℕ) (stop : D) (t : Table D)
      → (update_stop_loss id stop t).1
        ≡ (change_open id (λ r. record r { stop_loss_price = stop }) t).1
  unfolding update_stop_loss
  update_stop_loss-state id stop t =
      elim (Outcome-cases (change_open id (λ r. record r { stop_loss_price = stop }) t).0) [
        | inl (a, e) ↦ rw (e, update_stop_loss, ◌>>◌, ◌>>=◌)
        | inr (x, e) ↦ rw (e, update_stop_loss, ◌>>◌, ◌>>=◌)
      ]

  Step-keeps :
      {t u : Table D} (id : ℕ) (row : PositionRecord D)
      → Step t u
      → find id t.rows ≡ some row
      → row.status ≡ RecordStatus.closed
      → find id u.rows ≡ some row
  unfolding create close closing
  Step-keeps {t} id row (created e today) found is_closed = find-++ id t.rows _ row found
  Step-keeps {t} id row (closed other price reason session today) found is_closed =
      change_open-keeps id other (closing price reason session today) t row (λ r. refl) found
        is_closed
  Step-keeps {t} id row (stop_moved other stop) found is_closed =
      rw (update_stop_loss-state other stop t) (
        change_open-keeps id other (λ r. record r { stop_loss_price = stop }) t row (λ r. refl)
          found is_closed)

  Step-IsFresh : {t u : Table D} → Step t u → IsFresh t → IsFresh u
  unfolding create close closing
  Step-IsFresh {t} (created e today) h =
      append-below t.next_id t.rows (new_record e today t.next_id) h refl
  Step-IsFresh {t} (closed other price reason session today) h =
      change_open-IsFresh other (closing price reason session today) t (λ r. refl) h
  Step-IsFresh {t} (stop_moved other stop) h =
      subst IsFresh (sym (update_stop_loss-state other stop t))
        (change_open-IsFresh other (λ r. record r { stop_loss_price = stop }) t (λ r. refl) h)

  Reach-IsFresh : {t u : Table D} → IsFresh t → Reach t u → IsFresh u
  Reach-IsFresh h here = h
  Reach-IsFresh h (next r step) = Step-IsFresh step (Reach-IsFresh h r)

  -- A position that is closed is found under its id as it was, whatever is created, closed or
  -- moved after it, in any order.
  pub closed-stays :
      {t u : Table D} (id : ℕ) (row : PositionRecord D)
      → find id t.rows ≡ some row
      → row.status ≡ RecordStatus.closed
      → Reach t u
      → find id u.rows ≡ some row
  closed-stays id row found is_closed here = found
  closed-stays id row found is_closed (next r step) =
      Step-keeps id row step (closed-stays id row found is_closed r) is_closed

  -- From a table without rows, whatever is called: a row that is created then is the answer, and
  -- the one found under the id that it is given.
  create-find :
      (e : Entry D) (today first_id : ℕ) {t : Table D}
      → Reach (record { rows = []; next_id = first_id }) t
      → let (answer, t') = create e today t in
        (answer ≡ ok (new_record e today t.next_id))
        × (find t.next_id t'.rows ≡ some (new_record e today t.next_id))
  unfolding create new_record
  create-find e today first_id {t} r =
      (refl, find-fresh t.next_id t.rows (new_record e today t.next_id) (Reach-IsFresh tt r) refl)
