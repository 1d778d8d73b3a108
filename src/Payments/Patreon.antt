-- ===== src/Payments/Patreon.antt =====
-- `credit_month` of db/patreon.py.
use yourcastbot.Effects.{payment_key, queue}
use yourcastbot.Grants.{Plan, Store, has_uid}
use yourcastbot.Grants.Start.{plan_of}
use yourcastbot.Payments.{
  Bank, Payment, PaymentStatus, ServiceUser, credited, insert_plan, is_invoice, last_rowid, paid,
  patreon,
}
use yourcastbot.Prelude.{
  Bool, Option, [], false, if◌then◌else◌, ltb, none, pos, some, true, ℕ, ◌&&◌, ◌++◌, ◌+ℤ◌, ◌+◌,
  ◌==◌, ◌∷◌,
}
use yourcastbot.Table.{exists_where, update_where}

abbrev pub pledge_status : ℕ → PaymentStatus
pledge_status paid_cents = if ltb 0 paid_cents then paid else credited

abbrev pub pledge : ℕ → ℕ → ℕ → ℕ → Payment
pledge u month paid_cents i = record {
  rowid = i;
  user_id = u;
  service_type = patreon;
  invoice_id = month;
  status = pledge_status paid_cents;
  amount = paid_cents;
  charged = none;
}

abbrev pub add_balance : ℕ → Plan → Plan
add_balance cents p = record p { balance = p.balance +ℤ pos cents }

abbrev pub add_credit : Option Plan → ℕ → ℕ → Store → Store
add_credit none u cents s = insert_plan u 0 (pos cents) 0 (some (pos 0)) s
add_credit (some p) u cents s = record s {
  plans = update_where (has_uid u) (add_balance cents) s.plans;
}

abbrev pub is_service_user : ℕ → ℕ → ServiceUser → Bool
is_service_user u service d = d.user_id == u && d.service_type == service

abbrev pub replenish : ℕ → ServiceUser → ServiceUser
replenish day d = record d { last_replenishment = some day }

-- The arguments: the user, the month, `credit_cents`, `paid_cents`, the day, the time.
unfoldable pub credit_month : ℕ → ℕ → ℕ → ℕ → ℕ → ℕ → Bank → Bool × Bank
credit_month u month credit_cents paid_cents day now b =
    if exists_where (is_invoice u patreon month) b.history
    then (false, b)
    else (let i : ℕ = last_rowid b.history + 1 in
        (
          true,
          record b {
            history = b.history ++ pledge u month paid_cents i ∷ [];
            tables = add_credit (plan_of u b.tables) u credit_cents b.tables;
            service_users =
                update_where (is_service_user u patreon) (replenish day) b.service_users;
            effects = if ltb 0 paid_cents then queue u (payment_key i) now b.effects else b.effects;
          },
        ))
