-- ===== src/Payments/Rows.antt =====
-- The payer's plan row after each UPDATE of `applyPaymentReplenishmentOnce`.
use yourcastbot.Grants.{Plan, Store, Tariff}
use yourcastbot.Grants.Hold.{is_tariff}
use yourcastbot.Grants.Start.{plan_of}
use yourcastbot.Payments.{set_plan, write_plan}
use yourcastbot.Payments.Apply.{
  Invoice, is_plan_running, notify_of, on_row, price_or_zero, sold_price, top_up, turn_on,
}
use yourcastbot.Payments.Frame.{KeepsOthers, write_plan-KeepsOthers, write_plan-found}
use yourcastbot.Prelude.{
  +ℤ_zero, Bool-cases, Option, arith, false, if◌then◌else◌, inl, inr, leb_ℤ, ltb, none, pos, refl,
  some, true, ℕ, ℤ, ◌+ℤ◌, ◌-ℤ◌, ◌==◌, ◌≡◌, ◌≢◌, ◌≤◌, -ℤ-+ℤ,
}
use yourcastbot.Table.{find_where}

-- The price of the plan that a payment may buy: the invoice's, or the one of the row.
abbrev pub price_due : Option Tariff → Option Plan → Invoice → Store → ℕ
price_due (some t) o inv s = sold_price inv t
price_due none none inv s = 0
price_due none (some p) inv s = price_or_zero (find_where (is_tariff p.tariff_id) s.tariffs)

-- The plan row of `u` after a payment that brings the balance to `funds` before a plan is bought.
pub record HasRow (u due : ℕ) (funds : ℤ) (period mode : ℕ) (s : Store) : Type 0 where
  pub row : Plan
  pub cost : ℕ
  pub found : plan_of u s ≡ some row
  pub accounts : row.balance +ℤ pos cost ≡ funds
  pub bought :
      mode ≡ 2
      → (row.time_left ≡ period) × (cost ≡ due) × (1 ≤ cost) × (leb_ℤ (pos 0) row.balance ≡ true)
  pub kept : mode ≢ 2 → cost ≡ 0

-- A row written with no plan bought.
uncharged :
    (due u tariff : ℕ) (funds : ℤ) (left : ℕ) (notify : Option ℤ) (period mode : ℕ) (p : Plan)
    (s : Store)
    → plan_of u s ≡ some p
    → mode ≢ 2
    → HasRow u due funds period mode (write_plan u tariff funds left notify s)
uncharged due u tariff funds left notify period mode p s e m = record {
  row = set_plan tariff funds left notify p;
  cost = 0;
  found = write_plan-found u tariff funds left notify p s e;
  accounts = +ℤ_zero funds;
  bought = λ k. absurd (m k);
  kept = λ k. refl;
}

-- A row written with a plan bought.
charged_row :
    (u tariff cost : ℕ) (funds : ℤ) (notify : Option ℤ) (period : ℕ) (p : Plan) (s : Store)
    → plan_of u s ≡ some p
    → 1 ≤ cost
    → leb_ℤ (pos cost) funds ≡ true
    → HasRow u cost funds period 2 (write_plan u tariff (funds -ℤ pos cost) period notify s)
unfolding ◌-ℤ◌
charged_row u tariff cost funds notify period p s e c l = record {
  row = set_plan tariff (funds -ℤ pos cost) period notify p;
  cost = cost;
  found = write_plan-found u tariff (funds -ℤ pos cost) period notify p s e;
  accounts = -ℤ-+ℤ funds (pos cost);
  bought = λ k. (refl, refl, c, ground arith);
  kept = λ k. absurd (k refl);
}

pub turn_on-HasRow :
    (u tariff cost : ℕ) (notify funds : ℤ) (left period : ℕ) (p : Plan) (s : Store)
    → plan_of u s ≡ some p
    → HasRow u cost funds period
        (turn_on u tariff cost notify funds left period s).0
        (turn_on u tariff cost notify funds left period s).1
turn_on-HasRow u tariff cost notify funds left period p s e = elim (Bool-cases (cost == 0)) [
  | inl z ↦
      rw (z, if◌then◌else◌)
        (uncharged cost u tariff funds left (some (pos 0)) period 0 p s e (λ k. omega arith))
  | inr z ↦ elim (Bool-cases (leb_ℤ (pos cost) funds)) [
    | inl l ↦
        rw (z, l, if◌then◌else◌)
          (charged_row u tariff cost funds (some notify) period p s e (ground arith) l)
    | inr l ↦
        rw (z, l, if◌then◌else◌)
          (uncharged cost u tariff funds left (some (pos 0)) period 3 p s e (λ k. omega arith))
  ]
]

pub turn_on-KeepsOthers :
    (u tariff cost : ℕ) (notify funds : ℤ) (left period : ℕ) (s : Store)
    → KeepsOthers u s (turn_on u tariff cost notify funds left period s).1
turn_on-KeepsOthers u tariff cost notify funds left period s v n = elim (Bool-cases (cost == 0)) [
  | inl z ↦ rw (z, if◌then◌else◌) (write_plan-KeepsOthers u tariff funds left (some (pos 0)) s v n)
  | inr z ↦ elim (Bool-cases (leb_ℤ (pos cost) funds)) [
    | inl l ↦
        rw (z, l, if◌then◌else◌)
          (write_plan-KeepsOthers u tariff (funds -ℤ pos cost) period (some notify) s v n)
    | inr l ↦
        rw (z, l, if◌then◌else◌) (write_plan-KeepsOthers u tariff funds left (some (pos 0)) s v n)
  ]
]

-- A payment on a row, in tables where a grant may have given way: the row that is held in memory has
-- the balance of the row in the table.
pub top_up-HasRow :
    (due u : ℕ) (inv : Invoice) (period : ℕ) (p q : Plan) (s : Store)
    → plan_of u s ≡ some q
    → (ltb 0 p.time_left ≡ false
        → price_or_zero (find_where (is_tariff p.tariff_id) s.tariffs) ≡ due)
    → HasRow u due
        (p.balance +ℤ pos inv.amount_cents)
        period
        (top_up u inv period p s).0
        (top_up u inv period p s).1
top_up-HasRow due u inv period p q s e h = elim (Bool-cases (ltb 0 p.time_left)) [
  | inl l ↦
      rw (l, if◌then◌else◌)
        (uncharged due u p.tariff_id (p.balance +ℤ pos inv.amount_cents) p.time_left p.notify_count
          period 1 q s e (λ k. omega arith))
  | inr l ↦
      let d = h l in
      rw (l, if◌then◌else◌, ← d)
        (turn_on-HasRow u p.tariff_id _ _ (p.balance +ℤ pos inv.amount_cents) p.time_left period q s
          e)
]

pub top_up-KeepsOthers :
    (u : ℕ) (inv : Invoice) (period : ℕ) (p : Plan) (s : Store)
    → KeepsOthers u s (top_up u inv period p s).1
top_up-KeepsOthers u inv period p s v n = elim (Bool-cases (ltb 0 p.time_left)) [
  | inl l ↦
      rw (l, if◌then◌else◌)
        (write_plan-KeepsOthers u p.tariff_id (p.balance +ℤ pos inv.amount_cents) p.time_left
          p.notify_count s v n)
  | inr l ↦
      rw (l, if◌then◌else◌)
        (turn_on-KeepsOthers u p.tariff_id
          (price_or_zero (find_where (is_tariff p.tariff_id) s.tariffs))
          (notify_of (find_where (is_tariff p.tariff_id) s.tariffs))
          (p.balance +ℤ pos inv.amount_cents) p.time_left period s v n)
]

pub on_row-HasRow :
    (u : ℕ) (inv : Invoice) (period : ℕ) (t : Option Tariff) (p q : Plan) (s : Store)
    → plan_of u s ≡ some q
    → HasRow u
        (price_due t (some p) inv s)
        (p.balance +ℤ pos inv.amount_cents)
        period
        (on_row u inv period t (p, s)).0
        (on_row u inv period t (p, s)).1
on_row-HasRow u inv period none p q s e =
    top_up-HasRow (price_due none (some p) inv s) u inv period p q s e (λ l. refl)
on_row-HasRow u inv period (some t) p q s e = elim (Bool-cases (is_plan_running p)) [
  | inl r ↦
      rw (on_row, r, if◌then◌else◌)
        (top_up-HasRow (sold_price inv t) u inv period p q s e (λ l. absurd (ground (arith, l, r))))
  | inr r ↦
      rw (on_row, r, if◌then◌else◌)
        (turn_on-HasRow u t.id _ _ (p.balance +ℤ pos inv.amount_cents) 0 period q s e)
]

pub on_row-KeepsOthers :
    (u : ℕ) (inv : Invoice) (period : ℕ) (t : Option Tariff) (p : Plan) (s : Store)
    → KeepsOthers u s (on_row u inv period t (p, s)).1
on_row-KeepsOthers u inv period none p s v n = top_up-KeepsOthers u inv period p s v n
on_row-KeepsOthers u inv period (some t) p s v n = elim (Bool-cases (is_plan_running p)) [
  | inl r ↦ rw (on_row, r, if◌then◌else◌) (top_up-KeepsOthers u inv period p s v n)
  | inr r ↦
      rw (on_row, r, if◌then◌else◌)
        (turn_on-KeepsOthers u t.id (sold_price inv t) t.notify_count
          (p.balance +ℤ pos inv.amount_cents) 0 period s v n)
]
