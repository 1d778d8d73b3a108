-- ===== src/Payments/Same.antt =====
-- The two ways to credit money that is for no plan.
use yourcastbot.Grants.{Plan, Store, active}
use yourcastbot.Grants.Hold.{end, is_tariff}
use yourcastbot.Grants.Start.{plan_of}
use yourcastbot.Payments.{insert_plan, write_plan}
use yourcastbot.Payments.Apply.{
  Invoice, credit, notify_of, plan_sold, price_or_zero, top_up, turn_on,
}
use yourcastbot.Payments.Replenish.{apply_balance_replenishment, renew_or_keep, replenish_row}
use yourcastbot.Payments.Subscribe.{give_way, subscribe, subscribe_row}
use yourcastbot.Prelude.{
  Bool-cases, Option, arith, if◌then◌else◌, inl, inr, leb_ℤ, ltb, none, pos, refl, some, ℕ, ℤ, ◌+ℤ◌,
  ◌-ℤ◌, ◌==◌, ◌≡◌,
}
use yourcastbot.Table.{find_where}
use yourcastbot.Tick.{price}

no_grant_kept :
    (u tariff time_left now : ℕ) (p : Plan) (s : Store)
    → active u s ≡ none
    → give_way u tariff time_left now p s ≡ s
unfolding end
no_grant_kept u tariff time_left now p s n = rw n (ground arith)

subscribe_written :
    (u tariff : ℕ) (balance : ℤ) (time_left : ℕ) (notify : Option ℤ) (now : ℕ) (p : Plan)
    (s : Store)
    → plan_of u s ≡ some p
    → active u s ≡ none
    → subscribe u tariff balance time_left notify now s
      ≡ some (write_plan u tariff balance time_left notify s)
unfolding subscribe
subscribe_written u tariff balance time_left notify now p s e n =
    rw (e, subscribe_row, no_grant_kept u tariff time_left now p s n) refl

subscribe_inserted :
    (u tariff : ℕ) (balance : ℤ) (time_left : ℕ) (n : ℤ) (now : ℕ) (s : Store)
    → plan_of u s ≡ none
    → subscribe u tariff balance time_left (some n) now s
      ≡ some (insert_plan u tariff balance time_left (some n) s)
unfolding subscribe
subscribe_inserted u tariff balance time_left n now s e = rw (e, subscribe_row) refl

renew-turn_on :
    (u : ℕ) (p : Plan) (price : ℕ) (notify balance : ℤ) (period now : ℕ) (s : Store)
    → plan_of u s ≡ some p
    → active u s ≡ none
    → renew_or_keep u p price notify balance period now s
      ≡ some (turn_on u p.tariff_id price notify balance p.time_left period s)
renew-turn_on u p price notify balance period now s e n = elim (Bool-cases (price == 0)) [
  | inl z ↦
      rw (z, subscribe_written u p.tariff_id balance p.time_left (some (pos 0)) now p s e n) refl
  | inr z ↦ elim (Bool-cases (leb_ℤ (pos price) balance)) [
    | inl l ↦
        rw
          (
            z,
            l,
            subscribe_written u p.tariff_id (balance -ℤ pos price) period (some notify) now p s e n,
          )
          refl
    | inr l ↦
        rw (z, l, subscribe_written u p.tariff_id balance p.time_left (some (pos 0)) now p s e n)
          refl
  ]
]

-- A plan with days, and one without, on the row in the table.
row-top_up :
    (u : ℕ) (inv : Invoice) (period now : ℕ) (p : Plan) (s : Store)
    → plan_of u s ≡ some p
    → active u s ≡ none
    → replenish_row (some p) u inv.amount_cents period now s ≡ some (top_up u inv period p s)
row-top_up u inv period now p s e n = elim (Bool-cases (ltb 0 p.time_left)) [
  | inl l ↦
      let w =
        subscribe_written u p.tariff_id (p.balance +ℤ pos inv.amount_cents) p.time_left
          p.notify_count now p s e n in
      rw (replenish_row, top_up, l, w) refl
  | inr l ↦
      let t = find_where (is_tariff p.tariff_id) s.tariffs in
      rw (replenish_row, top_up, l, if◌then◌else◌)
        (renew-turn_on u p (price_or_zero t) (notify_of t) (p.balance +ℤ pos inv.amount_cents)
          period now s e n)
]

row-credit :
    (o : Option Plan) (u : ℕ) (inv : Invoice) (period now : ℕ) (s : Store)
    → plan_of u s ≡ o
    → active u s ≡ none
    → replenish_row o u inv.amount_cents period now s ≡ some (credit o none u inv period now s)
row-credit none u inv period now s e n =
    rw (subscribe_inserted u 0 (pos inv.amount_cents) 0 (pos 0) now s e) refl
row-credit (some p) u inv period now s e n = rw (credit, n) (row-top_up u inv period now p s e n)

no_plan : (inv : Invoice) (s : Store) → inv.plan_id ≡ 0 → plan_sold inv s ≡ none
no_plan inv s z = ground arith

-- The two ways to credit money agree: for a user whom no grant holds, the credit of an amount does to
-- the tables, in the same mode, what a payment of that amount does whose invoice is for no plan, and it
-- does not raise.
pub replenishment-credit :
    (u : ℕ) (inv : Invoice) (period now : ℕ) (s : Store)
    → inv.plan_id ≡ 0
    → active u s ≡ none
    → apply_balance_replenishment u inv.amount_cents period now s
      ≡ some (credit (plan_of u s) (plan_sold inv s) u inv period now s)
unfolding apply_balance_replenishment
replenishment-credit u inv period now s z n =
    rw (no_plan inv s z) (row-credit (plan_of u s) u inv period now s refl n)
