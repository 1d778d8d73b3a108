-- ===== src/Payments/Refund.antt =====
-- `apply_refund` of db/stars_refund.py.
use yourcastbot.Grants.{Grant, Plan, active, has_uid}
use yourcastbot.Grants.Hold.{is_tariff}
use yourcastbot.Grants.Start.{plan_of}
use yourcastbot.Payments.{Bank, Payment, is_paid, refunded, telegram_stars}
use yourcastbot.Payments.Apply.{price_or_zero}
use yourcastbot.Prelude.{
  Bool, List, Option, [], if◌then◌else◌, is_some, leb, ltb, min, neg_part, negsuc, none, not, pos,
  some, ℕ, ℤ, ◌&&◌, ◌*◌, ◌+◌, ◌-ℤ◌, ◌-◌, ◌/◌, ◌==◌, ◌∷◌,
}
use yourcastbot.Table.{find_where, select_where, update_where}
use yourcastbot.Tick.{price}

pub record Refunded : Type 0 where
  pub user_id : ℕ
  pub amount : ℕ
  pub hours : ℕ
  pub time_left : ℕ
  pub balance : ℤ
  pub tariff_id : ℕ

abbrev pub is_charge : ℕ → Payment → Bool
is_charge charge p = p.service_type == telegram_stars && p.invoice_id == charge

abbrev pub is_paid_charge : ℕ → Payment → Bool
is_paid_charge charge p = is_charge charge p && is_paid p.status

abbrev pub take_back : Payment → Payment
take_back p = record p { status = refunded }

-- Whether the plan gives hours back: a debt, a running plan with a price, and no grant.
abbrev pub gives_hours : ℤ → ℕ → Plan → Option Grant → Bool
gives_hours balance price p g =
    ltb 0 (neg_part balance)
    && (ltb 0 p.tariff_id && (ltb 0 price && (ltb 0 p.time_left && not (is_some g))))

-- The hours that a debt needs at the plan's price, as many as the plan has.
abbrev pub hours_for : ℕ → ℕ → ℕ → ℕ → ℕ
hours_for debt price period time_left = min time_left ((debt * period + price - 1) / price)

-- min(0, balance + hours * price // period)
abbrev pub debt_after : ℕ → ℕ → ℕ → ℕ → ℤ
debt_after debt price period hours =
    let back : ℕ = hours * price / period in
    if leb debt back then pos 0 else negsuc (debt - back - 1)

-- The balance after, and the hours that the plan gives back.
abbrev pub settle : ℤ → ℕ → ℕ → Plan → Option Grant → ℤ × ℕ
settle balance price period p g =
    if gives_hours balance price p g
    then (let hours : ℕ = hours_for (neg_part balance) price period p.time_left in
        (debt_after (neg_part balance) price period hours, hours))
    else (balance, 0)

abbrev pub set_refunded : ℤ → ℕ → Plan → Plan
set_refunded balance time_left p = record p { balance = balance; time_left = time_left }

abbrev pub taken : Payment → Plan → ℤ × ℕ → Bank → Refunded × Bank
taken x p (balance, hours) b = (
  record {
    user_id = x.user_id;
    amount = x.amount;
    hours = hours;
    time_left = p.time_left - hours;
    balance = balance;
    tariff_id = p.tariff_id;
  },
  record b {
    tables = record b.tables {
      plans =
          update_where (has_uid x.user_id) (set_refunded balance (p.time_left - hours))
            b.tables.plans;
    };
  },
)

abbrev pub take_from : Option Plan → Payment → ℕ → Bank → Refunded × Bank
take_from none x period b = (
  record {
    user_id = x.user_id;
    amount = x.amount;
    hours = 0;
    time_left = 0;
    balance = pos 0;
    tariff_id = 0;
  },
  b,
)
take_from (some p) x period b =
    taken x p
      (settle (p.balance -ℤ pos x.amount)
        (price_or_zero (find_where (is_tariff p.tariff_id) b.tables.tariffs)) period p
        (active x.user_id b.tables))
      b

abbrev pub refund_of : Option Payment → ℕ → ℕ → Bank → Option Refunded × Bank
refund_of none charge period b = (none, b)
refund_of (some x) charge period b =
    let (r, c) =
      take_from (plan_of x.user_id b.tables) x period
        (record b { history = update_where (is_charge charge) take_back b.history }) in
    (some r, c)

unfoldable pub apply_refund : ℕ → ℕ → Bank → Option Refunded × Bank
apply_refund charge period b =
    refund_of (find_where (is_paid_charge charge) b.history) charge period b

-- `paid_charge_ids`, in the order of the rows
abbrev pub charge_ids : List Payment → List ℕ
charge_ids [] = []
charge_ids (p ∷ ps) = p.invoice_id ∷ charge_ids ps

abbrev pub is_paid_stars : Payment → Bool
is_paid_stars p = p.service_type == telegram_stars && is_paid p.status

unfoldable pub paid_charge_ids : Bank → List ℕ
paid_charge_ids b = charge_ids (select_where is_paid_stars b.history)
