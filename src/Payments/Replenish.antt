-- ===== src/Payments/Replenish.antt =====
-- `apply_balance_replenishment` of app/service/payment/paymentSafeModule.py, which credits money with no
-- invoice; its reads and its write are one step here.
use yourcastbot.Grants.{Plan, Store}
use yourcastbot.Grants.Hold.{is_tariff}
use yourcastbot.Grants.Start.{plan_of}
use yourcastbot.Payments.Apply.{notify_of, price_or_zero}
use yourcastbot.Payments.Subscribe.{subscribe}
use yourcastbot.Prelude.{
  Option, if◌then◌else◌, leb_ℤ, ltb, none, not, pos, some, ℕ, ℤ, ◌+ℤ◌, ◌-ℤ◌, ◌==◌,
}
use yourcastbot.Table.{find_where}
use yourcastbot.Tick.{price}

-- The result_mode beside the tables; `none` where the write raises.
abbrev pub with_mode : ℕ → Option Store → Option (ℕ × Store)
with_mode mode none = none
with_mode mode (some s) = some (mode, s)

-- The last branch: a plan with no days, and the price of its tariff.
abbrev pub renew_or_keep : ℕ → Plan → ℕ → ℤ → ℤ → ℕ → ℕ → Store → Option (ℕ × Store)
renew_or_keep u p price notify balance period now s =
    if not (price == 0)
    then (if leb_ℤ (pos price) balance
        then with_mode 2 (subscribe u p.tariff_id (balance -ℤ pos price) period (some notify) now s)
        else with_mode 3 (subscribe u p.tariff_id balance p.time_left (some (pos 0)) now s))
    else with_mode 0 (subscribe u p.tariff_id balance p.time_left (some (pos 0)) now s)

abbrev pub replenish_row : Option Plan → ℕ → ℕ → ℕ → ℕ → Store → Option (ℕ × Store)
replenish_row none u amount period now s =
    with_mode 0 (subscribe u 0 (pos amount) 0 (some (pos 0)) now s)
replenish_row (some p) u amount period now s =
    if ltb 0 p.time_left
    then with_mode 1
        (subscribe u p.tariff_id (p.balance +ℤ pos amount) p.time_left p.notify_count now s)
    else (let t = find_where (is_tariff p.tariff_id) s.tariffs in
        renew_or_keep u p (price_or_zero t) (notify_of t) (p.balance +ℤ pos amount) period now s)

unfoldable pub apply_balance_replenishment : ℕ → ℕ → ℕ → ℕ → Store → Option (ℕ × Store)
apply_balance_replenishment u amount period now s =
    replenish_row (plan_of u s) u amount period now s
