-- ===== src/Execution/Approval/Expiry.antt =====
-- The clean-up when the manager starts.
use stock_trading_agent.Base.{
  ℕ, Bool, false, ◌&&◌, true, List, [], ◌∷◌, any, ◌≡◌, refl, arith, inl, inr, Bool-cases, ◌==◌,
  some,
}
use stock_trading_agent.Base.All.{All}
use stock_trading_agent.Core.Enums.{ApprovalStatus}
use stock_trading_agent.Execution.Approval.{ApprovalManager, update_where}
use stock_trading_agent.Execution.Approval.Request.{initialize, is_expired, time_out}

update_where-All :
    {A : Type 0} (test : A → Bool) (change : A → A) (P : A → Type 0) (xs : List A)
    → ((x : A) → test x ≡ true → P (change x))
    → ((x : A) → test x ≡ false → P x)
    → All P (update_where test change xs)
unfolding update_where
update_where-All test change P [] hit miss = tt
update_where-All test change P (x ∷ xs) hit miss = (
  elim (Bool-cases (test x)) [
    | inl yes_x ↦ rw yes_x (hit x yes_x)
    | inr no_x ↦ rw no_x (miss x no_x)
  ],
  update_where-All test change P xs hit miss,
)

-- After the start no request waits that has expired, and the order of each that did is timed out.
pub initialize-settles :
    (now : ℕ) (m : ApprovalManager)
    → All (λ r. is_expired now r ≡ false) (initialize now m).requests
      × All
          (λ o.
            any (λ r. is_expired now r && r.order_id == o.id) m.requests ≡ true
            → o.approval_status ≡ some ApprovalStatus.timeout)
          (initialize now m).orders
unfolding initialize
initialize-settles now m = (
  update_where-All (is_expired now) (time_out now) (λ r. is_expired now r ≡ false) m.requests
      (λ r old. refl) (λ r fresh. fresh),
  update_where-All (λ o. any (λ r. is_expired now r && r.order_id == o.id) m.requests)
      (λ o. record o { approval_status = some ApprovalStatus.timeout })
      (λ o.
        any (λ r. is_expired now r && r.order_id == o.id) m.requests ≡ true
        → o.approval_status ≡ some ApprovalStatus.timeout)
      m.orders (λ o old _. refl) (λ o fresh old. absurd (ground arith)),
)
