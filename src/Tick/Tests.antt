-- ===== src/Tick/Tests.antt =====
-- An hour of three plans, and the theorems at it.
-- User 1 pays for Relay and is on the last hour; user 2 cannot pay; user 3 is deleted.
use yourcastbot.Grants.{Plan, Store, Tariff, User}
use yourcastbot.Prelude.{
  Bool, Member, [], arith, false, inl, map, or_else, pos, refl, some, true, ℕ, ◌+◌, ◌-ℤ◌, ◌<◌, ◌∷◌,
  ◌≡◌,
}
use yourcastbot.Tick.{price, run_tariff_tick}
use yourcastbot.Tick.Charged.{
  HasUsers, IsCharged, run_tariff_tick-IsCharged, run_tariff_tick-time_left,
}
use yourcastbot.Tick.Hour.{hour, run_tariff_tick_lem}

abbrev relay : Tariff
relay = record { id = 6; level = 3; price = 500; notify_count = pos 99 }

abbrev user : ℕ → Bool → User
user i deleted = record { id = i; telegram_id = 100 + i; is_deleted = deleted }

abbrev plan : ℕ → ℕ → Plan
plan uid balance = record {
  uid = uid;
  tariff_id = 6;
  balance = pos balance;
  time_left = 1;
  notify_count = some (pos 3);
}

abbrev tables : Store
tables = record {
  users = user 1 false ∷ user 2 false ∷ user 3 true ∷ [];
  tariffs = relay ∷ [];
  plans = plan 1 700 ∷ plan 2 300 ∷ plan 3 900 ∷ [];
  grants = [];
}

ticked :
    (run_tariff_tick 720 tables).store.plans
    ≡ record (plan 1 200) { time_left = 720; notify_count = some (pos 99) }
      ∷ record (plan 2 300) { time_left = 0 }
      ∷ plan 3 900
      ∷ []
unfolding run_tariff_tick ◌-ℤ◌
ticked = refl

tables-HasUsers : HasUsers tables
tables-HasUsers p m = ground arith

run_tariff_tick_lem_example :
    (run_tariff_tick 720 tables).store
    ≡ record tables { plans = map (hour 720 tables) tables.plans }
run_tariff_tick_lem_example = run_tariff_tick_lem 720 tables

run_tariff_tick-IsCharged_example :
    (Member (plan 1 700) (run_tariff_tick 720 tables).prolonged
      → IsCharged 720 tables (plan 1 700) (or_else (price tables (plan 1 700)) 0))
    × ((Member (plan 1 700) (run_tariff_tick 720 tables).prolonged → ⊥)
        → IsCharged 720 tables (plan 1 700) 0)
run_tariff_tick-IsCharged_example =
    run_tariff_tick-IsCharged 720 tables (plan 1 700) tables-HasUsers (inl refl)

run_tariff_tick-time_left_example :
    (0 < (hour 720 tables (plan 1 700)).time_left)
    × Member (hour 720 tables (plan 1 700)) (run_tariff_tick 720 tables).store.plans
run_tariff_tick-time_left_example =
    run_tariff_tick-time_left 720 tables (plan 1 700) (omega arith) refl refl refl (inl refl)
