-- ===== src/Grants/Hold.antt =====
-- `end`, `_hold`, `mark_missing`, `end_for_chat`, `holders` and `active_kind` of db/plan_grants.py.
use yourcastbot.Grants.{
  Grant, Plan, Reason, Store, Tariff, User, active, has_id, has_uid, hold_hours, holds, replaced,
  tariff_period,
}
use yourcastbot.Prelude.{
  Bool, List, Option, false, if◌then◌else◌, leb, max, none, or_else, pos, some, true, ℕ, ℤ, ◌*◌,
  ◌+◌, ◌==◌,
}
use yourcastbot.Table.{count_where, find_where, update_where}

abbrev pub close : ℕ → Reason → Grant → Grant
close now reason g = record g { ended_at = some now; end_reason = some reason }

-- No days, no deliveries. A row's days are a number: a NULL is not modelled.
abbrev pub switch_off : ℕ → Plan → Plan
switch_off tariff p = record p { tariff_id = tariff; time_left = 0; notify_count = some (pos 0) }

abbrev pub end_grant : Option Grant → ℕ → Reason → ℕ → Bool → Store → Bool × Store
end_grant none u reason now restore s = (false, s)
end_grant (some g) u reason now restore s = (
  true,
  record s {
    grants = update_where (has_id g.id) (close now reason) s.grants;
    plans =
        update_where (holds u g.tariff_id)
          (switch_off (if restore then g.prev_tariff_id else g.tariff_id)) s.plans;
  },
)

unfoldable pub end : ℕ → Reason → ℕ → Bool → Store → Bool × Store
end u reason now restore s = end_grant (active u s) u reason now restore s

abbrev pub extend : Plan → Plan
extend p = record p { time_left = max p.time_left hold_hours }

abbrev pub deliveries : Option Tariff → Option ℤ
deliveries none = none
deliveries (some t) = some t.notify_count

abbrev pub is_tariff : ℕ → Tariff → Bool
is_tariff i t = t.id == i

abbrev pub give_deliveries : Option ℤ → Plan → Plan
give_deliveries n p = record p { notify_count = n }

abbrev pub start_period : ℕ → Grant → Grant
start_period now g = record g { period_started_at = now }

abbrev pub note_check : ℕ → Grant → Grant
note_check now g = record g { checked_at = some now; missing_since = none }

-- A new period: the tariff's deliveries again.
abbrev pub new_period : Grant → ℕ → ℕ → Store → Store
new_period g u now s = record s {
  plans =
      update_where (has_uid u)
        (give_deliveries (deliveries (find_where (is_tariff g.tariff_id) s.tariffs))) s.plans;
  grants = update_where (has_id g.id) (start_period now) s.grants;
}

abbrev pub renew : Grant → ℕ → ℕ → Store → Store
renew g u now s =
    if leb (g.period_started_at + tariff_period * 3600) now then new_period g u now s else s

abbrev pub noted : Grant → ℕ → Store → Store
noted g now s = record s { grants = update_where (has_id g.id) (note_check now) s.grants }

abbrev pub extended : Grant → ℕ → Store → Store
extended g u s = record s { plans = update_where (holds u g.tariff_id) extend s.plans }

abbrev pub end_replaced : Grant → ℕ → Store → Store
end_replaced g now s = record s {
  grants = update_where (has_id g.id) (close now replaced) s.grants;
}

abbrev pub hold_grant : Option Grant → ℕ → ℕ → Store → Bool × Store
hold_grant none u now s = (false, s)
hold_grant (some g) u now s =
    if count_where (holds u g.tariff_id) s.plans == 0
    then (false, end_replaced g now s)
    else (true, noted g now (renew g u now (extended g u s)))

-- `_hold`, and `hold` around it
unfoldable pub hold : ℕ → ℕ → Store → Bool × Store
hold u now s = hold_grant (active u s) u now s

abbrev pub miss : ℕ → Grant → Grant
miss now g = record g { checked_at = some now; missing_since = some (or_else g.missing_since now) }

abbrev pub missing_of : Option Grant → Option ℕ
missing_of none = none
missing_of (some g) = g.missing_since

abbrev pub mark_grant : Option Grant → ℕ → Store → Option ℕ × Store
mark_grant none now s = (none, s)
mark_grant (some g) now s =
    let rows : List Grant = update_where (has_id g.id) (miss now) s.grants in
    (missing_of (find_where (has_id g.id) rows), record s { grants = rows })

unfoldable pub mark_missing : ℕ → ℕ → Store → Option ℕ × Store
mark_missing u now s = mark_grant (active u s) now s

abbrev pub is_chat : ℕ → User → Bool
is_chat chat u = u.telegram_id == chat

abbrev pub end_for : Option User → Reason → ℕ → Bool → Store → Bool × Store
end_for none reason now restore s = (false, s)
end_for (some u) reason now restore s = end u.id reason now restore s

unfoldable pub end_for_chat : ℕ → Reason → ℕ → Bool → Store → Bool × Store
end_for_chat chat reason now restore s =
    end_for (find_where (is_chat chat) s.users) reason now restore s
