-- ===== src/Grants/Start.antt =====
-- `start` of db/plan_grants.py.
use yourcastbot.Grants.{Grant, Plan, Store, Tariff, User, has_uid, hold_hours, is_active}
use yourcastbot.Grants.Hold.{hold, is_chat}
use yourcastbot.Prelude.{
  Bool, List, Option, [], false, if◌then◌else◌, ltb, max, none, pos, some, true, ℕ, ◌&&◌, ◌++◌, ◌+◌,
  ◌==◌, ◌∷◌,
}
use yourcastbot.Table.{best_where, exists_where, find_where, update_where}

pub data Started : Type 0 where
  started : Started
  held : Started
  busy : Started
  unknown : Started

-- The id that SQLite gives a new row: one above the highest.
abbrev pub highest : List Grant → ℕ
highest [] = 0
highest (g ∷ gs) = max g.id (highest gs)

-- INSERT, which the unique index plan_grants_active refuses (`none`) while a grant runs.
abbrev pub insert_grant : Grant → List Grant → Option (List Grant)
insert_grant g gs = if exists_where (is_active g.user_id) gs then none else some (gs ++ g ∷ [])

abbrev pub new_grant : ℕ → ℕ → ℕ → ℕ → ℕ → ℕ → Grant
new_grant i u kind tariff prev now = record {
  id = i;
  user_id = u;
  kind = kind;
  tariff_id = tariff;
  prev_tariff_id = prev;
  started_at = now;
  checked_at = some now;
  period_started_at = now;
  missing_since = none;
  ended_at = none;
  end_reason = none;
}

abbrev pub put_plan : Tariff → Plan → Plan
put_plan t p = record p {
  tariff_id = t.id;
  time_left = hold_hours;
  notify_count = some t.notify_count;
}

abbrev pub new_plan : ℕ → Tariff → Plan
new_plan u t = record {
  uid = u;
  tariff_id = t.id;
  balance = pos 0;
  time_left = hold_hours;
  notify_count = some t.notify_count;
}

abbrev pub is_running : Option Plan → Bool
is_running none = false
is_running (some p) = ltb 0 p.tariff_id && ltb 0 p.time_left

abbrev pub tariff_of : Option Plan → ℕ
tariff_of none = 0
tariff_of (some p) = p.tariff_id

abbrev pub write_plan : Option Plan → ℕ → Tariff → List Plan → List Plan
write_plan none u t ps = ps ++ new_plan u t ∷ []
write_plan (some _) u t ps = update_where (has_uid u) (put_plan t) ps

abbrev pub with_grants : Option (List Grant) → List Plan → Store → Option (Started × Store)
with_grants none ps s = none
with_grants (some gs) ps s = some (started, record s { grants = gs; plans = ps })

abbrev pub plan_of : ℕ → Store → Option Plan
plan_of u s = find_where (has_uid u) s.plans

-- From the second SELECT on.
abbrev pub give : Option Plan → ℕ → ℕ → Tariff → ℕ → Store → Option (Started × Store)
give p u kind t now s =
    if is_running p
    then some (busy, s)
    else with_grants
        (insert_grant (new_grant (highest s.grants + 1) u kind t.id (tariff_of p) now) s.grants)
        (write_plan p u t s.plans) s

abbrev pub hold_or_give : Bool × Store → ℕ → ℕ → Tariff → ℕ → Option (Started × Store)
hold_or_give (true, s) u kind t now = some (held, s)
hold_or_give (false, s) u kind t now = give (plan_of u s) u kind t now s

abbrev pub is_level : ℕ → Tariff → Bool
is_level l t = t.level == l

abbrev pub lower_id : Tariff → Tariff → Bool
lower_id a b = ltb a.id b.id

abbrev pub start_for : Option User → Option Tariff → ℕ → ℕ → Store → Option (Started × Store)
start_for none t kind now s = some (unknown, s)
start_for (some u) none kind now s = some (unknown, s)
start_for (some u) (some t) kind now s = hold_or_give (hold u.id now s) u.id kind t now

-- `start`: `none` when the INSERT raises, and then nothing changes.
unfoldable pub start : ℕ → ℕ → ℕ → ℕ → Store → Option (Started × Store)
start chat kind level now s =
    start_for (find_where (is_chat chat) s.users) (best_where (is_level level) lower_id s.tariffs)
      kind now s
