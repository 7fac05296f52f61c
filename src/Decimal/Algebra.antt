-- ===== src/Decimal/Algebra.antt =====
-- Sums and differences of decimals, as far as nothing is rounded.
use stock_trading_agent.Base.{◌≡◌, sym, ap, ◌∙◌}
use stock_trading_agent.Decimal.{Decimal, ◌+◌, ◌-◌, ◌*◌, dec}
use stock_trading_agent.Decimal.Laws.{IsExact}

module _ {D : Type 0} ⦃d : Decimal D⦄ (laws : IsExact D) where
  pub plus_left_comm : (x y z : D) → x + (y + z) ≡ y + (x + z)
  plus_left_comm x y z =
      sym (laws.plus_assoc x y z) ∙ ap (λ t. t + z) (laws.plus_comm x y) ∙ laws.plus_assoc y x z

  pub plus_cancel : (x y z : D) → x + z ≡ y + z → x ≡ y
  plus_cancel x y z h = sym (laws.plus-minus x z) ∙ ap (λ t. t - z) h ∙ laws.plus-minus y z

  pub minus_self : (x : D) → x - x ≡ dec 0
  minus_self x =
      plus_cancel (x - x) (dec 0) x
        (laws.minus-plus x x ∙ sym (laws.plus_zero x) ∙ laws.plus_comm x (dec 0))

  pub times_zero : (x : D) → x * dec 0 ≡ dec 0
  times_zero x =
      ap (λ t. x * t) (sym (minus_self (dec 0)))
      ∙ laws.times-minus x (dec 0) (dec 0)
      ∙ minus_self (x * dec 0)

  -- What is left once `part` has been taken out of an entry of value `whole`.
  pub take_part :
      (rest part whole total : D) → rest + whole ≡ total + (whole - part) → rest + part ≡ total
  take_part rest part whole total h =
      let regroup : (rest + part) + whole ≡ (rest + whole) + part =
        simp (laws.plus_assoc, laws.plus_comm) in
      plus_cancel (rest + part) total whole (
        regroup
        ∙ ap (λ t. t + part) h
        ∙ laws.plus_assoc total (whole - part) part
        ∙ ap (λ t. total + t) (laws.minus-plus whole part))

  -- After a payment of `amount + fee`, cash and what was bought are short of the fee alone.
  pub buy_balance :
      (cash cost amount fee : D) → ((cash - (amount + fee)) + (cost + amount)) + fee ≡ cash + cost
  buy_balance cash cost amount fee =
      (let paid = cash - (amount + fee) in
        let regroup : (paid + (cost + amount)) + fee ≡ (paid + (amount + fee)) + cost =
          simp (laws.plus_assoc, laws.plus_comm, plus_left_comm) in
        regroup ∙ ap (λ t. t + cost) (laws.minus-plus cash (amount + fee)))

  -- After proceeds of `amount - fee` for what had cost `basis`, cash and the rest are short of the
  -- fee, up to the gain over the cost.
  pub sell_balance :
      (cash rest basis amount fee gains : D)
      → (((cash + (amount - fee)) + rest) + fee) + gains
        ≡ (cash + (rest + basis)) + (gains + (amount - basis))
  sell_balance cash rest basis amount fee gains =
      let left : (((cash + (amount - fee)) + rest) + fee) + gains
          ≡ (cash + (rest + gains)) + ((amount - fee) + fee) =
        simp (laws.plus_assoc, laws.plus_comm, plus_left_comm) in
      let right : (cash + (rest + basis)) + (gains + (amount - basis))
          ≡ (cash + (rest + gains)) + ((amount - basis) + basis) =
        simp (laws.plus_assoc, laws.plus_comm, plus_left_comm) in
      left
      ∙ ap (λ t. (cash + (rest + gains)) + t)
          (laws.minus-plus amount fee ∙ sym (laws.minus-plus amount basis))
      ∙ sym right
