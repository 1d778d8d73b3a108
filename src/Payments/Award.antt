-- ===== src/Payments/Award.antt =====
-- `giveAward` of app/service/payment/paymentSafeModule.py: days for who invited, for who was invited and
-- paid, and for a new user. Whether the user is new to the bot is an argument.
use yourcastbot.Grants.{Plan, Store, Tariff, other_reason}
use yourcastbot.Grants.Hold.{end}
use yourcastbot.Grants.Start.{plan_of}
use yourcastbot.Payments.Subscribe.{subscribe}
use yourcastbot.Prelude.{
  Bool, Option, false, if◌then◌else◌, ltb, negsuc, none, pos, some, true, zero, ℕ, ℤ, ◌*◌, ◌+ℤ◌,
  ◌+◌,
}
use yourcastbot.Table.{best_where}

pub data AwardMode : Type 0 where
  reged : AwardMode
  replenished : AwardMode
  new : AwardMode

-- Hours, as in config.py.
abbrev pub tariff_ref_period : ℕ
tariff_ref_period = 5 * 24

abbrev pub tariff_new_user_period : ℕ
tariff_new_user_period = 14 * 24

abbrev pub tariff_secret_start_cmd_period : ℕ
tariff_secret_start_cmd_period = 2 * 24

abbrev pub tariff_ref_no_subscription_period : ℕ
tariff_ref_no_subscription_period = 3 * 24

abbrev pub tariff_ref_notifies : ℕ
tariff_ref_notifies = 20

abbrev pub tariff_ref_sub_period : ℕ
tariff_ref_sub_period = 15 * 24

abbrev pub tariff_ref_invitee_period : ℕ
tariff_ref_invitee_period = 7 * 24

abbrev pub any_tariff : Tariff → Bool
any_tariff t = true

abbrev pub is_lower : Tariff → Tariff → Bool
is_lower a b = ltb a.level b.level

abbrev pub is_higher : Tariff → Tariff → Bool
is_higher a b = ltb b.level a.level

-- `getExtremeTariff` of db/sqliteAdapter.py
abbrev pub min_tariff : Store → Option Tariff
min_tariff s = best_where any_tariff is_lower s.tariffs

abbrev pub max_tariff : Store → Option Tariff
max_tariff s = best_where any_tariff is_higher s.tariffs

-- -1 is unlimited and stays so.
abbrev pub raise_count : ℤ → ℤ
raise_count (negsuc zero) = negsuc zero
raise_count n = n +ℤ pos tariff_ref_notifies

-- `none` where int(None) raises.
abbrev pub notify_count_after_referral : Option ℤ → Option ℤ
notify_count_after_referral none = none
notify_count_after_referral (some n) = some (raise_count n)

-- Whether the award raised, with the tables.
abbrev pub gave : Option Store → Store → Bool × Store
gave none s = (true, s)
gave (some t) s = (false, t)

-- A plan on the tariff `t`, with its deliveries.
abbrev pub put_on : Option Tariff → ℕ → ℤ → ℕ → ℕ → Store → Bool × Store
put_on none u balance time_left now s = (true, s)
put_on (some t) u balance time_left now s =
    gave (subscribe u t.id balance time_left (some t.notify_count) now s) s

abbrev pub longer : Option ℤ → Plan → ℕ → ℕ → Store → Bool × Store
longer none p u now s = (true, s)
longer (some n) p u now s =
    gave (subscribe u p.tariff_id p.balance (p.time_left + tariff_ref_period) (some n) now s) s

-- The invited user began to use the bot; the first argument is whether a grant ended.
abbrev pub award_reged : Bool → Option Plan → ℕ → ℕ → Store → Bool × Store
award_reged true none u now s = (true, s)
award_reged true (some p) u now s = put_on (max_tariff s) u p.balance tariff_ref_period now s
award_reged false none u now s =
    put_on (min_tariff s) u (pos 0) tariff_ref_no_subscription_period now s
award_reged false (some p) u now s = longer (notify_count_after_referral p.notify_count) p u now s

abbrev pub award_replenished : Option Plan → ℕ → ℕ → Store → Bool × Store
award_replenished none u now s = put_on (max_tariff s) u (pos 0) tariff_ref_sub_period now s
award_replenished (some p) u now s =
    put_on (max_tariff s) u p.balance (p.time_left + tariff_ref_sub_period) now s

abbrev pub welcome_hours : Bool → Bool → ℕ
welcome_hours is_new invited =
    if is_new
    then tariff_new_user_period + (if invited then tariff_ref_invitee_period else 0)
    else tariff_secret_start_cmd_period

abbrev pub award_new : Option Plan → Bool → Bool → ℕ → ℕ → Store → Bool × Store
award_new none is_new invited u now s =
    put_on (max_tariff s) u (pos 0) (welcome_hours is_new invited) now s
award_new (some p) is_new invited u now s = (false, s)

abbrev pub award_after : Bool × Store → ℕ → ℕ → Bool × Store
award_after (granted, s) u now = award_reged granted (plan_of u s) u now s

unfoldable pub give_award : AwardMode → Bool → Bool → ℕ → ℕ → Store → Bool × Store
give_award reged is_new invited u now s = award_after (end u (other_reason 1) now false s) u now
give_award replenished is_new invited u now s =
    let t : Store = (end u (other_reason 1) now false s).1 in
    award_replenished (plan_of u t) u now t
give_award new is_new invited u now s = award_new (plan_of u s) is_new invited u now s
