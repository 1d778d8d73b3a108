-- ===== src/Payments/Tests.antt =====
-- Payments of two users, and the theorems at them.
-- User 1 has nothing yet; user 2 pays off a plan that runs; tariff 6 costs 5 dollars for 720 hours.
use yourcastbot.Grants.{Plan, Store, Tariff, active}
use yourcastbot.Grants.Hold.{end}
use yourcastbot.Grants.Single.{IsSingle}
use yourcastbot.Grants.Start.{plan_of}
use yourcastbot.Payments.{Bank, Payment, paid, telegram_stars}
use yourcastbot.Payments.Apply.{
  Invoice, already_processed, applied, apply_payment, credit, plan_sold,
}
use yourcastbot.Payments.Award.{give_award, reged}
use yourcastbot.Payments.Awarded.{IsKept}
use yourcastbot.Payments.Kept.{give_award-IsKept}
use yourcastbot.Payments.Once.{
  Event, apply_payment_again, credit_month_again, pledges, run_events, takes_back,
}
use yourcastbot.Payments.Patreon.{credit_month}
use yourcastbot.Payments.Refund.{apply_refund, paid_charge_ids}
use yourcastbot.Payments.Replenish.{apply_balance_replenishment}
use yourcastbot.Payments.Same.{replenishment-credit}
use yourcastbot.Payments.Subscribe.{subscribe}
use yourcastbot.Payments.Write.{Write, subscribe-Write}
use yourcastbot.Prelude.{List, [], arith, false, none, pos, refl, some, ℕ, ◌+ℤ◌, ◌-ℤ◌, ◌∷◌, ◌≡◌}

abbrev relay : Tariff
relay = record { id = 6; level = 3; price = 500; notify_count = pos 99 }

abbrev plan : Plan
plan = record {
  uid = 2;
  tariff_id = 6;
  balance = pos 100;
  time_left = 700;
  notify_count = some (pos 50);
}

abbrev tables : Store
tables = record {
  users =
      record { id = 1; telegram_id = 101; is_deleted = false }
      ∷ record { id = 2; telegram_id = 102; is_deleted = false }
      ∷ [];
  tariffs = relay ∷ [];
  plans = plan ∷ [];
  grants = [];
}

abbrev bank : Bank
bank = record { tables = tables; history = []; effects = []; service_users = []; flags = [] }

abbrev invoice : ℕ → ℕ → Invoice
invoice i cents = record {
  service_type = telegram_stars;
  invoice_id = i;
  amount_cents = cents;
  status = paid;
  user_flag = none;
  plan_id = 6;
  plan_price = none;
  charged_cents = some cents;
}

bought_first : (apply_payment 1 (invoice 7 700) 720 1000 bank).0 ≡ applied 2
unfolding apply_payment ◌+ℤ◌
bought_first = refl

balance_first :
    plan_of 1 (apply_payment 1 (invoice 7 700) 720 1000 bank).1.tables
    ≡ some (record {
      uid = 1;
      tariff_id = 6;
      balance = pos 200;
      time_left = 720;
      notify_count = some (pos 99);
    })
unfolding apply_payment ◌-ℤ◌ ◌+ℤ◌
balance_first = refl

abbrev later_events : List Event
later_events = pledges 1 12 500 500 3 2000 ∷ takes_back 7 720 ∷ []

apply_payment_again_example :
    apply_payment 1
      (invoice 7 900)
      720
      3000
      (run_events later_events (apply_payment 1 (invoice 7 700) 720 1000 bank).1)
    ≡ (already_processed, run_events later_events (apply_payment 1 (invoice 7 700) 720 1000 bank).1)
apply_payment_again_example =
    apply_payment_again 1 (invoice 7 700) (invoice 7 900) 720 1000 3000 later_events bank
      (refl, refl)

credit_month_again_example :
    let t = run_events later_events (credit_month 2 24320 500 500 31 1000 bank).1 in
    credit_month 2 24320 900 900 31 3000 t ≡ (false, t)
credit_month_again_example =
    credit_month_again 2 24320 500 500 31 1000 900 900 31 3000 later_events bank

-- User 2 paid 5 dollars before.
abbrev payment : Payment
payment = record {
  rowid = 1;
  user_id = 2;
  service_type = telegram_stars;
  invoice_id = 9;
  status = paid;
  amount = 500;
  charged = some 500;
}

abbrev paid_bank : Bank
paid_bank = record bank { history = payment ∷ [] }

-- A debt of 4 dollars is 576 hours of the plan.
refunded_hours :
    (apply_refund 9 720 paid_bank).0
    ≡ some (record {
      user_id = 2;
      amount = 500;
      hours = 576;
      time_left = 124;
      balance = pos 0;
      tariff_id = 6;
    })
unfolding apply_refund ◌-ℤ◌
refunded_hours = refl

no_charges : paid_charge_ids (apply_refund 9 720 paid_bank).1 ≡ []
unfolding paid_charge_ids apply_refund ◌-ℤ◌
no_charges = refl

subscribe-Write_example :
    Write 1 8 (pos 0) 10 none 50 tables (subscribe 1 8 (pos 0) 10 none 50 tables)
subscribe-Write_example = subscribe-Write 1 8 (pos 0) 10 none 50 tables

raised : subscribe 1 8 (pos 0) 10 none 50 tables ≡ none
unfolding subscribe
raised = refl

abbrev gift : Invoice
gift = record (invoice 11 500) { plan_id = 0 }

replenishment-credit_example :
    apply_balance_replenishment 2 500 720 40 tables
    ≡ some (credit (plan_of 2 tables) (plan_sold gift tables) 2 gift 720 40 tables)
replenishment-credit_example = replenishment-credit 2 gift 720 40 tables refl refl

-- A friend of user 2 came.
friend_came :
    plan_of 2 (give_award reged false false 2 40 tables).1
    ≡ some (record plan { time_left = 820; notify_count = some (pos 70) })
unfolding give_award end subscribe ◌+ℤ◌
friend_came = refl

tables-IsSingle : IsSingle tables
tables-IsSingle = record { one_active = λ u. omega arith; one_id = λ i. omega arith }

give_award-IsKept_example :
    IsKept 2 (pos 100) 820 tables (give_award reged false false 2 40 tables).1
    × (active 2 (give_award reged false false 2 40 tables).1 ≡ none)
unfolding give_award end subscribe
give_award-IsKept_example = give_award-IsKept reged false false 2 40 tables tables-IsSingle refl
