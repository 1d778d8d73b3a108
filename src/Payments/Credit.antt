-- ===== src/Payments/Credit.antt =====
-- Where the money of a payment goes: the balance of the payer's plan, and one period of a plan.
use yourcastbot.Grants.Start.{plan_of}
use yourcastbot.Payments.{Bank, last_rowid}
use yourcastbot.Payments.Apply.{Applied, Invoice, applied, new_payment, plan_sold}
use yourcastbot.Payments.Frame.{KeepsOthers, money}
use yourcastbot.Payments.Rows.{HasRow, price_due}
use yourcastbot.Prelude.{[], pos, ℕ, ◌++◌, ◌+ℤ◌, ◌+◌, ◌∷◌, ◌≡◌}

-- What a payment that is seen for the first time leaves.
pub record IsCredited (u : ℕ) (inv : Invoice) (period : ℕ) (b : Bank) (r : Applied × Bank)
    : Type 0 where
  pub mode : ℕ
  pub answer : r.0 ≡ applied mode
  pub row :
      HasRow u
        (price_due (plan_sold inv b.tables) (plan_of u b.tables) inv b.tables)
        (money (plan_of u b.tables) +ℤ pos inv.amount_cents)
        period
        mode
        r.1.tables
  pub others : KeepsOthers u b.tables r.1.tables
  pub written_down : r.1.history ≡ b.history ++ new_payment u inv (last_rowid b.history + 1) ∷ []
