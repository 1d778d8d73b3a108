-- ===== src/Payments/Subscribe.antt =====
-- `subscribeUserToTariffByUid` of db/sqliteAdapter.py: `none` where it raises. A `notify_count` of
-- None that an UPDATE writes is `none` here (the text 'None' in the table).
use yourcastbot.Grants.{Plan, Store, Tariff, replaced}
use yourcastbot.Grants.Hold.{end, is_tariff}
use yourcastbot.Grants.Start.{plan_of}
use yourcastbot.Payments.{insert_plan, write_plan}
use yourcastbot.Prelude.{Option, false, if◌then◌else◌, none, pos, some, ℕ, ℤ, ◌&&◌, ◌==◌}
use yourcastbot.Table.{find_where}

-- SELECT notify_count FROM tariffs, whose missing row cannot be indexed.
abbrev pub count_or_raise : Option Tariff → Option ℤ
count_or_raise none = none
count_or_raise (some t) = some t.notify_count

abbrev pub first_count : Option ℤ → ℕ → Store → Option ℤ
first_count (some n) tariff s = some n
first_count none tariff s =
    if tariff == 0 then some (pos 0) else count_or_raise (find_where (is_tariff tariff) s.tariffs)

abbrev pub insert_counted : Option ℤ → ℕ → ℕ → ℤ → ℕ → Store → Option Store
insert_counted none u tariff balance time_left s = none
insert_counted (some n) u tariff balance time_left s =
    some (insert_plan u tariff balance time_left (some n) s)

-- Another plan or other days replace a grant.
abbrev pub give_way : ℕ → ℕ → ℕ → ℕ → Plan → Store → Store
give_way u tariff time_left now p s =
    if p.tariff_id == tariff && p.time_left == time_left then s else (end u replaced now false s).1

abbrev pub subscribe_row : Option Plan → ℕ → ℕ → ℤ → ℕ → Option ℤ → ℕ → Store → Option Store
subscribe_row none u tariff balance time_left notify now s =
    insert_counted (first_count notify tariff s) u tariff balance time_left s
subscribe_row (some p) u tariff balance time_left notify now s =
    some (write_plan u tariff balance time_left notify (give_way u tariff time_left now p s))

unfoldable pub subscribe : ℕ → ℕ → ℤ → ℕ → Option ℤ → ℕ → Store → Option Store
subscribe u tariff balance time_left notify now s =
    subscribe_row (plan_of u s) u tariff balance time_left notify now s
