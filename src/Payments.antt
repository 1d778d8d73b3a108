-- ===== src/Payments.antt =====
-- The payments: payment_history with the plan rows, the grants and the effects. Amounts are cents.
-- A kind of service, an invoice and a flag are numbers that stand for their texts.
pub mod Apply
pub mod Subscribe
pub mod Replenish
pub mod Award
pub mod Patreon
pub mod Refund
pub mod Once
mod Tests
pub mod Write
pub mod Hours
pub mod Back
pub mod Frame
pub mod Rows
pub mod Credit
pub mod Same
pub mod Awarded
pub mod Kept
use yourcastbot.Effects.{Effect}
use yourcastbot.Grants.{Plan, Store, has_uid}
use yourcastbot.Prelude.{Bool, List, Option, [], false, max, true, ℕ, ℤ, ◌&&◌, ◌++◌, ◌==◌, ◌∷◌}
use yourcastbot.Table.{update_where}

-- `payment_history.status`
pub data PaymentStatus : Type 0 where
  paid : PaymentStatus
  credited : PaymentStatus
  refunded : PaymentStatus
  other_status : ℕ → PaymentStatus

abbrev pub is_paid : PaymentStatus → Bool
is_paid paid = true
is_paid _ = false

-- STARS_SERVICE_TYPE of db/stars_refund.py and SERVICE of db/patreon.py
abbrev pub telegram_stars : ℕ
telegram_stars = 0

abbrev pub patreon : ℕ
patreon = 1

pub record Payment : Type 0 where
  pub rowid : ℕ
  pub user_id : ℕ
  pub service_type : ℕ
  pub invoice_id : ℕ
  pub status : PaymentStatus
  pub amount : ℕ
  pub charged : Option ℕ

-- A row of `payment_service_user_data`; a day is a number.
pub record ServiceUser : Type 0 where
  pub user_id : ℕ
  pub service_type : ℕ
  pub last_replenishment : Option ℕ

pub record Bank : Type 0 where
  pub tables : Store
  pub history : List Payment
  pub effects : List Effect
  pub service_users : List ServiceUser
  -- The users' flags that are set.
  pub flags : List (ℕ × ℕ)

abbrev pub is_invoice : ℕ → ℕ → ℕ → Payment → Bool
is_invoice u service invoice p =
    p.user_id == u && (p.service_type == service && p.invoice_id == invoice)

-- The rowid that SQLite gives a new row.
abbrev pub last_rowid : List Payment → ℕ
last_rowid [] = 0
last_rowid (p ∷ ps) = max p.rowid (last_rowid ps)

abbrev pub set_plan : ℕ → ℤ → ℕ → Option ℤ → Plan → Plan
set_plan tariff balance time_left notify p = record p {
  tariff_id = tariff;
  balance = balance;
  time_left = time_left;
  notify_count = notify;
}

-- UPDATE user_tariff_cs SET tariff_id, balance, time_left, notify_count WHERE uid
abbrev pub write_plan : ℕ → ℕ → ℤ → ℕ → Option ℤ → Store → Store
write_plan u tariff balance time_left notify s = record s {
  plans = update_where (has_uid u) (set_plan tariff balance time_left notify) s.plans;
}

-- INSERT INTO user_tariff_cs
abbrev pub insert_plan : ℕ → ℕ → ℤ → ℕ → Option ℤ → Store → Store
insert_plan u tariff balance time_left notify s = record s {
  plans =
      s.plans
      ++ record {
        uid = u;
        tariff_id = tariff;
        balance = balance;
        time_left = time_left;
        notify_count = notify;
      }
        ∷ [];
}
