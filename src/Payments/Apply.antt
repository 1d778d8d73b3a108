-- ===== src/Payments/Apply.antt =====
-- `applyPaymentReplenishmentOnce` of db/sqliteAdapter.py.
use yourcastbot.Effects.{payment_key, queue}
use yourcastbot.Grants.{Grant, Plan, Store, Tariff, active, other_reason}
use yourcastbot.Grants.Hold.{end, is_tariff}
use yourcastbot.Grants.Start.{plan_of}
use yourcastbot.Payments.{
  Bank, Payment, PaymentStatus, insert_plan, is_invoice, is_paid, last_rowid, write_plan,
}
use yourcastbot.Prelude.{
  Bool, List, Option, [], false, if◌then◌else◌, leb_ℤ, ltb, min, none, or_else, pos, some, ℕ, ℤ,
  ◌&&◌, ◌++◌, ◌+ℤ◌, ◌+◌, ◌-ℤ◌, ◌==◌, ◌∷◌,
}
use yourcastbot.Table.{exists_where, find_where}

pub record Invoice : Type 0 where
  pub service_type : ℕ
  pub invoice_id : ℕ
  pub amount_cents : ℕ
  pub status : PaymentStatus
  pub user_flag : Option ℕ
  -- 0 for none
  pub plan_id : ℕ
  pub plan_price : Option ℕ
  pub charged_cents : Option ℕ

pub data Applied : Type 0 where
  already_processed : Applied
  -- `result_mode`
  applied : ℕ → Applied

abbrev pub is_sold : ℕ → Tariff → Bool
is_sold i t = t.id == i && ltb 0 t.price

-- SELECT .. FROM tariffs WHERE id = planId AND price > 0
abbrev pub plan_sold : Invoice → Store → Option Tariff
plan_sold inv s = if inv.plan_id == 0 then none else find_where (is_sold inv.plan_id) s.tariffs

-- The price that turns the invoice's plan on.
abbrev pub sold_price : Invoice → Tariff → ℕ
sold_price inv t = min t.price (or_else inv.plan_price t.price)

-- The plan row as the function holds it in memory.
abbrev pub stopped : Plan → Plan
stopped p = record p { time_left = 0; notify_count = some (pos 0) }

abbrev pub covers : Invoice → Plan → Tariff → Bool
covers inv p t = leb_ℤ (pos (sold_price inv t)) (p.balance +ℤ pos inv.amount_cents)

-- A grant gives way to a plan's invoice that pays for the plan.
abbrev pub replace_grant :
    Option Grant → Option Tariff → Plan → ℕ → Invoice → ℕ → Store → Plan × Store
replace_grant none t p u inv now s = (p, s)
replace_grant (some g) none p u inv now s = (p, s)
replace_grant (some g) (some t) p u inv now s =
    if covers inv p t then (stopped p, (end u (other_reason 0) now false s).1) else (p, s)

abbrev pub is_plan_running : Plan → Bool
is_plan_running p = ltb 0 p.tariff_id && ltb 0 p.time_left

-- The last two branches on a plan row: `t` is the tariff that counts, `cost` its price.
abbrev pub turn_on : ℕ → ℕ → ℕ → ℤ → ℤ → ℕ → ℕ → Store → ℕ × Store
turn_on u tariff cost notify balance left period s =
    if cost == 0
    then (0, write_plan u tariff balance left (some (pos 0)) s)
    else if leb_ℤ (pos cost) balance
    then (2, write_plan u tariff (balance -ℤ pos cost) period (some notify) s)
    else (3, write_plan u tariff balance left (some (pos 0)) s)

abbrev pub notify_of : Option Tariff → ℤ
notify_of none = pos 0
notify_of (some t) = t.notify_count

abbrev pub price_or_zero : Option Tariff → ℕ
price_or_zero none = 0
price_or_zero (some t) = t.price

-- A payment on the row `p` that no plan's invoice takes.
abbrev pub top_up : ℕ → Invoice → ℕ → Plan → Store → ℕ × Store
top_up u inv period p s =
    if ltb 0 p.time_left
    then (
      1,
      write_plan u p.tariff_id (p.balance +ℤ pos inv.amount_cents) p.time_left p.notify_count s,
    )
    else (let t = find_where (is_tariff p.tariff_id) s.tariffs in
        turn_on u p.tariff_id (price_or_zero t) (notify_of t) (p.balance +ℤ pos inv.amount_cents)
          p.time_left period s)

abbrev pub switch_to : ℕ → Invoice → ℕ → Tariff → Plan → Store → ℕ × Store
switch_to u inv period t p s =
    turn_on u t.id (sold_price inv t) t.notify_count (p.balance +ℤ pos inv.amount_cents) 0 period s

abbrev pub on_row : ℕ → Invoice → ℕ → Option Tariff → Plan × Store → ℕ × Store
on_row u inv period none (p, s) = top_up u inv period p s
on_row u inv period (some t) (p, s) =
    if is_plan_running p then top_up u inv period p s else switch_to u inv period t p s

abbrev pub fresh_plan : ℕ → Tariff → Plan
fresh_plan u t = record {
  uid = u;
  tariff_id = t.id;
  balance = pos 0;
  time_left = 0;
  notify_count = some (pos 0);
}

-- The plan row, from the SELECT of it on; the mode comes with the tables.
abbrev pub credit : Option Plan → Option Tariff → ℕ → Invoice → ℕ → ℕ → Store → ℕ × Store
credit none none u inv period now s = (0, insert_plan u 0 (pos inv.amount_cents) 0 (some (pos 0)) s)
credit none (some t) u inv period now s =
    switch_to u inv period t (fresh_plan u t) (insert_plan u t.id (pos 0) 0 (some (pos 0)) s)
credit (some p) t u inv period now s =
    on_row u inv period t (replace_grant (active u s) t p u inv now s)

abbrev pub new_payment : ℕ → Invoice → ℕ → Payment
new_payment u inv i = record {
  rowid = i;
  user_id = u;
  service_type = inv.service_type;
  invoice_id = inv.invoice_id;
  status = inv.status;
  amount = inv.amount_cents;
  charged = inv.charged_cents;
}

abbrev pub set_flag : ℕ → Option ℕ → List (ℕ × ℕ) → List (ℕ × ℕ)
set_flag u none flags = flags
set_flag u (some f) flags = (u, f) ∷ flags

abbrev pub written : ℕ → Invoice → ℕ → ℕ × Store → Bank → Applied × Bank
written u inv now (mode, s) b =
    let i : ℕ = last_rowid b.history + 1 in
    (
      applied mode,
      record b {
        tables = s;
        history = b.history ++ new_payment u inv i ∷ [];
        effects = if is_paid inv.status then queue u (payment_key i) now b.effects else b.effects;
        flags = set_flag u inv.user_flag b.flags;
      },
    )

unfoldable pub apply_payment : ℕ → Invoice → ℕ → ℕ → Bank → Applied × Bank
apply_payment u inv period now b =
    if exists_where (is_invoice u inv.service_type inv.invoice_id) b.history
    then (already_processed, b)
    else written u inv now
        (credit (plan_of u b.tables) (plan_sold inv b.tables) u inv period now b.tables) b
