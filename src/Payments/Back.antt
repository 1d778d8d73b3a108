-- ===== src/Payments/Back.antt =====
-- A refund: once, and at the expense of the balance and of the hours of the plan.
use yourcastbot.Grants.{Grant, Plan, active}
use yourcastbot.Grants.Hold.{is_tariff}
use yourcastbot.Grants.Start.{plan_of}
use yourcastbot.Payments.{Bank, Payment}
use yourcastbot.Payments.Apply.{price_or_zero}
use yourcastbot.Payments.Frame.{KeepsOthers}
use yourcastbot.Payments.Hours.{IsFewest}
use yourcastbot.Payments.Refund.{
  Refunded, apply_refund, is_charge, is_paid_charge, refund_of, take_back,
}
use yourcastbot.Prelude.{
  List, Option, Option-cases, [], arith, inl, inr, neg_part, none, pos, refl, some, ℕ, ℤ, ◌+ℤ◌, ◌+◌,
  ◌-ℤ◌, ◌∷◌, ◌≡◌, ◌≤◌,
}
use yourcastbot.Table.{find_where, update_where}
use yourcastbot.Tick.{price}

no_more_paid :
    (charge : ℕ) (ps : List Payment)
    → find_where (is_paid_charge charge) (update_where (is_charge charge) take_back ps) ≡ none
no_more_paid charge [] = refl
no_more_paid charge (p ∷ ps) = ground (arith, no_more_paid charge ps)

again_none :
    (o : Option Payment) (charge period later : ℕ) (b : Bank)
    → find_where (is_paid_charge charge) b.history ≡ o
    → apply_refund charge later (refund_of o charge period b).1
      ≡ (none, (refund_of o charge period b).1)
unfolding apply_refund
again_none none charge period later b e = rw e refl
again_none (some x) charge period later b e = elim (Option-cases (plan_of x.user_id b.tables)) [
  | inl n ↦ rw (refund_of, n, no_more_paid charge b.history) refl
  | inr (p, k) ↦ rw (refund_of, k, no_more_paid charge b.history) refl
]

-- A payment is taken back once: a second refund of the charge answers that there is none, and changes
-- nothing.
pub apply_refund_again :
    (charge period later : ℕ) (b : Bank)
    → apply_refund charge later (apply_refund charge period b).1
      ≡ (none, (apply_refund charge period b).1)
unfolding apply_refund
apply_refund_again charge period later b =
    again_none (find_where (is_paid_charge charge) b.history) charge period later b refl

abbrev price_in : Plan → Bank → ℕ
price_in p b = price_or_zero (find_where (is_tariff p.tariff_id) b.tables.tariffs)

-- A debt of `d` cents is paid in hours: by a running plan with a price, which no grant holds.
abbrev pub PaysInHours : ℕ → ℕ → Plan → Option Grant → Type 0
PaysInHours d price p g = (1 ≤ d) × (1 ≤ p.tariff_id) × (1 ≤ price) × (1 ≤ p.time_left) × (g ≡ none)

-- How a refund takes `amount` from the plan `p`, by the balance and the hours that it gives.
pub data Settled (p : Plan) (price period amount : ℕ) (g : Option Grant) : ℤ → ℕ → Type 0 where
  from_balance :
      {balance : ℤ}
      → ¬ (PaysInHours (neg_part (p.balance -ℤ pos amount)) price p g)
      → balance +ℤ pos amount ≡ p.balance
      → Settled p price period amount g balance 0
  from_hours :
      {balance : ℤ} {hours : ℕ}
      → PaysInHours (neg_part (p.balance -ℤ pos amount)) price p g
      → IsFewest (neg_part (p.balance -ℤ pos amount)) price period p.time_left hours balance
      → 1 ≤ hours
      → Settled p price period amount g balance hours

-- What a refund of the payment `x` leaves of its payer's plan `p`.
pub record IsTakenBack (x : Payment) (p : Plan) (period : ℕ) (b : Bank) (r : Option Refunded × Bank)
    : Type 0 where
  pub refund : Refunded
  pub answer : r.0 ≡ some refund
  pub row : Plan
  pub found : plan_of x.user_id r.1.tables ≡ some row
  pub same_plan : row.tariff_id ≡ p.tariff_id
  pub hours_left : row.time_left + refund.hours ≡ p.time_left
  pub settled :
      Settled p (price_in p b) period x.amount (active x.user_id b.tables) row.balance refund.hours
  pub others : KeepsOthers x.user_id b.tables r.1.tables
