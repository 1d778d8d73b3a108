-- ===== src/Grants/Tests.antt =====
-- Runs of the grants on small tables, and the theorems at concrete inputs.
-- User 1 (chat 500) has no plan running and held Silver once; user 2 (chat 600) pays for Relay.
use yourcastbot.Grants.{Grant, Plan, Store, Tariff, User, other_reason, stopped, unsubscribed}
use yourcastbot.Grants.Check.{Conf, check, missing, warn_message, warned}
use yourcastbot.Grants.Grace.{FollowsUp, check-FollowsUp}
use yourcastbot.Grants.Hold.{end, hold}
use yourcastbot.Grants.Paid.{IsReplaced, check-plans}
use yourcastbot.Grants.Restore.{IsRestored, start-IsRestored}
use yourcastbot.Grants.Runs.{
  IsGood, Op, apply_all, apply_all-IsSingle, check_op, end_op, plans_op, start_op,
}
use yourcastbot.Grants.Single.{IsSingle}
use yourcastbot.Grants.Start.{busy, new_grant, put_plan, start, started}
use yourcastbot.Prelude.{
  Bool, List, Option, [], arith, false, pos, refl, some, true, ℕ, ◌==◌, ◌∷◌, ◌≡◌,
}

abbrev bronze : Tariff
bronze = record { id = 4; level = 1; price = 100; notify_count = pos 30 }

abbrev poor : User
poor = record { id = 1; telegram_id = 500; is_deleted = false }

abbrev old_plan : Plan
old_plan = record {
  uid = 1;
  tariff_id = 5;
  balance = pos 40;
  time_left = 0;
  notify_count = some (pos 0);
}

abbrev paid_plan : Plan
paid_plan = record {
  uid = 2;
  tariff_id = 6;
  balance = pos 900;
  time_left = 300;
  notify_count = some (pos 99);
}

abbrev tables : Store
tables = record {
  users = poor ∷ record { id = 2; telegram_id = 600; is_deleted = false } ∷ [];
  tariffs = record { id = 6; level = 3; price = 500; notify_count = pos 99 } ∷ bronze ∷ [];
  plans = old_plan ∷ paid_plan ∷ [];
  grants = [];
}

abbrev given_grant : Grant
given_grant = new_grant 1 1 7 4 5 1000

abbrev with_grant : Store
with_grant = record tables {
  plans = put_plan bronze old_plan ∷ paid_plan ∷ [];
  grants = given_grant ∷ [];
}

-- The user then bought Relay.
abbrev bought : Store
bought = record with_grant { plans = record paid_plan { uid = 1 } ∷ paid_plan ∷ [] }

abbrev two_channels : Conf
two_channels = record { is_enabled = true; channels = 11 ∷ 12 ∷ [] }

-- In channel 11 only.
abbrev in_one : ℕ → Option Bool
in_one c = some (c == 11)

abbrev run : List Op
run =
    start_op 500 7 1 1000
    ∷ check_op 1 two_channels 4600 in_one
    ∷ end_op 1 (other_reason 3) 5000 false
    ∷ plans_op (paid_plan ∷ [])
    ∷ []

tables-IsSingle : IsSingle tables
tables-IsSingle = record { one_active = λ u. ground arith; one_id = λ i. ground arith }

with_grant-IsSingle : IsSingle with_grant
with_grant-IsSingle = record { one_active = λ u. ground arith; one_id = λ i. ground arith }

bought-IsReplaced : IsReplaced 1 bought
bought-IsReplaced g e = ground arith

start_works : start 500 7 1 1000 tables ≡ some (started, with_grant)
unfolding start hold
start_works = refl

start_busy : start 600 7 1 1000 tables ≡ some (busy, tables)
unfolding start hold
start_busy = refl

misses_one : missing in_one (11 ∷ 12 ∷ []) ≡ some (12 ∷ [])
unfolding missing
misses_one = refl

apply_all-IsSingle_example :
    IsSingle (apply_all run tables) × IsGood (start 600 7 1 6000 (apply_all run tables))
apply_all-IsSingle_example = apply_all-IsSingle run 600 7 1 6000 tables tables-IsSingle

check-plans_example :
    ((check 1 two_channels 4600 in_one bought).store.plans ≡ bought.plans)
    × ((end 1 unsubscribed 4600 true bought).1.plans ≡ bought.plans)
check-plans_example =
    check-plans 1 two_channels unsubscribed 4600 true in_one bought bought-IsReplaced

check-FollowsUp_example :
    ((check 1 two_channels 4600 in_one with_grant).verdict ≡ warned)
    × ((check 1 two_channels 4600 in_one with_grant).messages ≡ warn_message (12 ∷ []) ∷ [])
    × FollowsUp 1 4600 99000 given_grant
        (12 ∷ [])
        with_grant.plans
        (check 1 two_channels 99000 in_one (check 1 two_channels 4600 in_one with_grant).store)
check-FollowsUp_example =
    check-FollowsUp 1 two_channels 4600 12 99000 12 [] [] in_one in_one with_grant given_grant
      with_grant-IsSingle refl refl refl misses_one misses_one (omega arith)

start-IsRestored_example : IsRestored 1 old_plan stopped 2000 (start 500 7 1 1000 tables)
start-IsRestored_example =
    start-IsRestored 500 7 1 1000 2000 stopped poor bronze old_plan tables refl refl refl refl refl
