-- ===== src/Tick.antt =====
-- The hourly clock of the plans: app/jobs/tariff_tick.py with the statements of db/sqliteAdapter.py
-- that it runs. The tables are those of the grants. Prices and balances are cents.
pub mod Hour
pub mod Charged
mod Tests
use yourcastbot.Grants.{Plan, Store, Tariff, User, is_active}
use yourcastbot.Grants.Hold.{deliveries, is_tariff}
use yourcastbot.Prelude.{
  Bool, List, Option, false, leb, leb_ℤ, ltb, ltb_ℤ, none, not, or_else, pos, some, ℕ, ℤ, ◌&&◌, ◌+◌,
  ◌-ℤ◌, ◌-◌, ◌==◌,
}
use yourcastbot.Table.{exists_where, find_where, select_where, update_where}

abbrev pub price_of : Option Tariff → Option ℕ
price_of none = none
price_of (some t) = some t.price

abbrev pub price : Store → Plan → Option ℕ
price s p = price_of (find_where (is_tariff p.tariff_id) s.tariffs)

abbrev pub is_marked : ℕ → User → Bool
is_marked uid u = u.id == uid && u.is_deleted

-- EXISTS (SELECT 1 FROM users .. deleted_at IS NOT NULL)
abbrev pub is_frozen : Store → Plan → Bool
is_frozen s p = exists_where (is_marked p.uid) s.users

-- NOT NOT_HELD_SQL
abbrev pub is_held_by_grant : Store → Plan → Bool
is_held_by_grant s p = exists_where (is_active p.uid) s.grants

abbrev pub affords : Option ℕ → ℤ → Bool
affords none balance = false
affords (some q) balance = leb_ℤ (pos q) balance

-- The WHERE of `prolong_users`
abbrev pub is_due : Store → Plan → Bool
is_due s p =
    (affords (price s p) p.balance && leb p.time_left 1)
    && (not (is_frozen s p) && not (is_held_by_grant s p))

abbrev pub prolong : ℕ → Store → Plan → Plan
prolong period s p = record p {
  time_left = p.time_left + period;
  balance = p.balance -ℤ pos (or_else (price s p) 0);
  notify_count = deliveries (find_where (is_tariff p.tariff_id) s.tariffs);
}

abbrev pub prolong_users : ℕ → Store → Store
prolong_users period s = record s { plans = update_where (is_due s) (prolong period s) s.plans }

-- The WHERE of `decrease_all_time_left`
abbrev pub is_counted_down : Store → Plan → Bool
is_counted_down s p = (ltb 0 p.time_left && not (p.tariff_id == 0)) && not (is_frozen s p)

abbrev pub count_down : Plan → Plan
count_down p = record p { time_left = p.time_left - 1 }

abbrev pub decrease_all_time_left : Store → Store
decrease_all_time_left s = record s { plans = update_where (is_counted_down s) count_down s.plans }

abbrev pub is_id : ℕ → User → Bool
is_id i u = u.id == i

-- The INNER JOIN users with its deleted_at IS NULL
abbrev pub is_alive : Option User → Bool
is_alive none = false
is_alive (some u) = not u.is_deleted

abbrev pub is_prolonged : Store → Plan → Bool
is_prolonged s p =
    (affords (price s p) p.balance && leb p.time_left 1)
    && (is_alive (find_where (is_id p.uid) s.users) && not (is_held_by_grant s p))

abbrev pub lacks : Option ℕ → ℤ → Bool
lacks none balance = false
lacks (some q) balance = ltb_ℤ balance (pos q)

abbrev pub is_not_prolonged : Store → Plan → Bool
is_not_prolonged s p =
    (lacks (price s p) p.balance && p.time_left == 1)
    && (is_alive (find_where (is_id p.uid) s.users) && not (is_held_by_grant s p))

-- The plan rows of `get_users_who_can_be_prolonged` and of `get_users_who_cannot_be_prolonged`;
-- their order by language is left out.
abbrev pub get_users_who_can_be_prolonged : Store → List Plan
get_users_who_can_be_prolonged s = select_where (is_prolonged s) s.plans

abbrev pub get_users_who_cannot_be_prolonged : Store → List Plan
get_users_who_cannot_be_prolonged s = select_where (is_not_prolonged s) s.plans

pub record Ticked : Type 0 where
  pub prolonged : List Plan
  pub not_prolonged : List Plan
  pub store : Store

unfoldable pub run_tariff_tick : ℕ → Store → Ticked
run_tariff_tick period s = record {
  prolonged = get_users_who_can_be_prolonged s;
  not_prolonged = get_users_who_cannot_be_prolonged s;
  store = decrease_all_time_left (prolong_users period s);
}
