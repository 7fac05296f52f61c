-- ===== src/Decimal/Won.antt =====
-- Amounts in whole won: integers, with the quotient truncated. It shows that the laws can be met,
-- and the components run on it.
use stock_trading_agent.Base.{ℕ, suc, ◌*◌, ◌/◌, ◌≤◌, ◌<◌, ◌≡◌, refl, false, true, arith, ap}
use stock_trading_agent.Base.Int.{
  ℤ, pos, negsuc, pos_part, neg_part, ◌+ℤ◌, ◌-ℤ◌, ◌*ℤ◌, ◌≤ℤ◌, ◌<ℤ◌, ltb_ℤ, *ℤ_parts, *ℤ_sub,
  -ℤ_parts, int_laws,
}
use stock_trading_agent.Decimal.{Decimal}
use stock_trading_agent.Decimal.Laws.{IsOrdered, IsExact}

unfoldable pub quot : ℤ → ℤ → ℤ
unfolding ◌-ℤ◌
quot (pos a) (pos b) = pos (a / b)
quot (pos a) (negsuc b) = pos 0 -ℤ pos (a / suc b)
quot (negsuc a) (pos b) = pos 0 -ℤ pos (suc a / b)
quot (negsuc a) (negsuc b) = pos (suc a / suc b)

instance abbrev pub won : Decimal ℤ
won = record {
  plus = ◌+ℤ◌;
  minus = ◌-ℤ◌;
  times = ◌*ℤ◌;
  over = quot;
  lt = ltb_ℤ;
  of_int = λ n. n;
  to_int = λ x. x;
  quantize = λ n x. x;
}

lt_of_ltb : (a b : ℤ) → ltb_ℤ a b ≡ true → a <ℤ b
lt_of_ltb a b h = ground arith

ltb_of_lt : (a b : ℤ) → a <ℤ b → ltb_ℤ a b ≡ true
ltb_of_lt a b h = ground arith

le_of_ltb : (a b : ℤ) → ltb_ℤ b a ≡ false → a ≤ℤ b
le_of_ltb a b h = ground arith

ltb_of_le : (a b : ℤ) → a ≤ℤ b → ltb_ℤ b a ≡ false
ltb_of_le a b h = ground arith

times_nonneg : (x y : ℤ) → pos 0 ≤ℤ x → pos 0 ≤ℤ y → pos 0 ≤ℤ x *ℤ y
unfolding ◌*ℤ◌
times_nonneg (pos a) (pos b) h k = ground arith
times_nonneg (negsuc a) y h k = absurd (omega arith)
times_nonneg (pos a) (negsuc b) h k = absurd (omega arith)

quot_nonneg : (x y : ℤ) → pos 0 ≤ℤ x → pos 0 <ℤ y → pos 0 ≤ℤ quot x y
unfolding quot
quot_nonneg (pos a) (pos b) h k = omega arith
quot_nonneg (negsuc a) y h k = absurd (omega arith)
quot_nonneg (pos a) (negsuc b) h k = absurd (omega arith)

pub Won-IsOrdered : IsOrdered ℤ
Won-IsOrdered = record {
  le_refl = λ x. ltb_of_le x x (omega int_laws);
  le_of_lt = λ x y h. ltb_of_le x y (omega (int_laws, lt_of_ltb x y h));
  le_trans = λ x y z h k. ltb_of_le x z (omega (int_laws, le_of_ltb x y h, le_of_ltb y z k));
  minus_nonneg = λ x y h. ltb_of_le (pos 0) (y -ℤ x) (omega (int_laws, le_of_ltb x y h));
  minus_pos = λ x y h. ltb_of_lt (pos 0) (y -ℤ x) (omega (int_laws, lt_of_ltb x y h));
  minus_neg = λ x y h. ltb_of_lt (x -ℤ y) (pos 0) (omega (int_laws, lt_of_ltb x y h));
  plus_nonneg = λ x y h k.
      ltb_of_le (pos 0) (x +ℤ y) (omega (int_laws, le_of_ltb (pos 0) x h, le_of_ltb (pos 0) y k));
  times_nonneg = λ x y h k.
      ltb_of_le (pos 0) (x *ℤ y) (times_nonneg x y (le_of_ltb (pos 0) x h) (le_of_ltb (pos 0) y k));
  over_nonneg = λ x y h k.
      ltb_of_le (pos 0) (quot x y)
        (quot_nonneg x y (le_of_ltb (pos 0) x h) (lt_of_ltb (pos 0) y k));
  quantize_nonneg = λ n x h. h;
  of_int_mono = λ m n h. ltb_of_le m n h;
  of_int_lt = λ m n h. ltb_of_lt m n h;
  to_int_nonneg = λ x h. le_of_ltb (pos 0) x h;
}

minus-times : (x y z : ℤ) → (x -ℤ y) *ℤ z ≡ x *ℤ z -ℤ y *ℤ z
minus-times x y z = omega (
  int_laws,
  *ℤ_parts (x -ℤ y) z,
  *ℤ_parts x z,
  *ℤ_parts y z,
  ap (λ (t : ℕ). t * pos_part z) (-ℤ_parts x y),
  ap (λ (t : ℕ). t * neg_part z) (-ℤ_parts x y),
)

nat_times-le_of_quot : (n a b : ℕ) → 0 < b → n ≤ a / b → n * b ≤ a
nat_times-le_of_quot n a b h k = grind arith

times-le_of_quot : (n x y : ℤ) → pos 0 ≤ℤ x → pos 0 <ℤ y → n ≤ℤ quot x y → n *ℤ y ≤ℤ x
unfolding quot ◌*ℤ◌
times-le_of_quot (pos n) (pos a) (pos b) h k l = ground (arith, nat_times-le_of_quot n a b)
times-le_of_quot (negsuc n) (pos a) (pos b) h k l = ground arith
times-le_of_quot n (negsuc a) y h k l = absurd (omega arith)
times-le_of_quot n (pos a) (negsuc b) h k l = absurd (omega arith)

pub Won-IsExact : IsExact ℤ
Won-IsExact = record {
  plus_comm = λ x y. omega int_laws;
  plus_assoc = λ x y z. omega int_laws;
  plus_zero = λ x. omega int_laws;
  minus-plus = λ x y. omega int_laws;
  plus-minus = λ x y. omega int_laws;
  minus-times = minus-times;
  times-minus = *ℤ_sub;
  of_int-minus = λ m n. refl;
  times-le_of_over = λ n x y h k l.
      ltb_of_le (n *ℤ y) x
        (times-le_of_quot n x y (le_of_ltb (pos 0) x h) (lt_of_ltb (pos 0) y k) l);
}
