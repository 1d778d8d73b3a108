-- ===== src/Grants/Restore.antt =====
-- A grant given and taken back.
use mathlib.Core.Option
use yourcastbot.Grants.{
  Grant, Plan, Reason, Store, Tariff, User, active, has_uid, hold_hours, holds, is_active,
}
use yourcastbot.Grants.Hold.{end, hold, is_chat, switch_off}
use yourcastbot.Grants.Start.{
  Started, highest, is_level, is_running, lower_id, new_grant, plan_of, put_plan, start, started,
}
use yourcastbot.Prelude.{
  List, Option, [], arith, false, if◌then◌else◌, none, pos, refl, some, true, ℕ, ◌++◌, ◌+◌, ◌∷◌,
  ◌≡◌,
}
use yourcastbot.Table.{best_where, count_where, exists_where, find_where, update_where}

none_active :
    (u : ℕ) (gs : List Grant)
    → count_where (is_active u) gs ≡ 0
    → find_where (is_active u) gs ≡ none
none_active u [] h = refl
none_active u (g ∷ gs) h = ground (arith, none_active u gs)

find-append :
    (u : ℕ) (gs : List Grant) (g : Grant)
    → find_where (is_active u) gs ≡ none
    → is_active u g ≡ true
    → find_where (is_active u) (gs ++ g ∷ []) ≡ some g
find-append u [] g h k = rw (k, if◌then◌else◌) refl
find-append u (x ∷ xs) g h k = ground (arith, find-append u xs g)

exists-none :
    (u : ℕ) (gs : List Grant)
    → find_where (is_active u) gs ≡ none
    → exists_where (is_active u) gs ≡ false
exists-none u [] h = refl
exists-none u (g ∷ gs) h = ground (arith, exists-none u gs)

-- The user's plan row `p` after a grant of `t` in its place, and after the end of that grant.
abbrev pub IsRestored : ℕ → Plan → Reason → ℕ → Option (Started × Store) → Type 0
IsRestored u p r later none = ⊥
IsRestored u p r later (some (x, s)) =
    (x ≡ started)
    × (Option.map (λ (q : Plan). q.time_left) (plan_of u s) ≡ some hold_hours)
    × (plan_of u (end u r later true s).1
        ≡ some (record p { time_left = 0; notify_count = some (pos 0) }))
    × ((end u r later true s).0 ≡ true)

twice :
    (u prev : ℕ) (t : Tariff) (ps : List Plan) (p : Plan)
    → find_where (has_uid u) ps ≡ some p
    → find_where
        (has_uid u)
        (update_where (holds u t.id) (switch_off prev) (update_where (has_uid u) (put_plan t) ps))
      ≡ some (record p { tariff_id = prev; time_left = 0; notify_count = some (pos 0) })
twice u prev t [] p h = cc
twice u prev t (x ∷ xs) p h = ground (arith, twice u prev t xs p)

given :
    (u : ℕ) (t : Tariff) (ps : List Plan) (p : Plan)
    → find_where (has_uid u) ps ≡ some p
    → find_where (has_uid u) (update_where (has_uid u) (put_plan t) ps) ≡ some (put_plan t p)
given u t [] p h = cc
given u t (x ∷ xs) p h = ground (arith, given u t xs p)

ended_row :
    (u i kind now later : ℕ) (r : Reason) (t : Tariff) (p : Plan) (s : Store)
    → active u s ≡ none
    → plan_of u s ≡ some p
    → IsRestored u p r later (
        some (
          started,
          record s {
            grants = s.grants ++ new_grant i u kind t.id p.tariff_id now ∷ [];
            plans = update_where (has_uid u) (put_plan t) s.plans;
          },
        ))
unfolding end
ended_row u i kind now later r t p s e k =
    let g = new_grant i u kind t.id p.tariff_id now in
    let own : is_active u g ≡ true = ground arith in
    let a = find-append u s.grants g e own in
    (refl, rw (given u t s.plans p k) refl, rw (a) (twice u p.tariff_id t s.plans p k), rw (a) refl)

-- For a known chat with a plan row that does not run, no grant, and a tariff of the level: `start`
-- succeeds and puts HOLD_HOURS on the row; ending that grant later with `restore` succeeds, and puts
-- back the tariff that stood there, with the same balance, no days and no deliveries.
pub start-IsRestored :
    (chat kind level now later : ℕ) (r : Reason) (v : User) (t : Tariff) (p : Plan) (s : Store)
    → find_where (is_chat chat) s.users ≡ some v
    → best_where (is_level level) lower_id s.tariffs ≡ some t
    → active v.id s ≡ none
    → plan_of v.id s ≡ some p
    → is_running (some p) ≡ false
    → IsRestored v.id p r later (start chat kind level now s)
unfolding start hold
start-IsRestored chat kind level now later r v t p s eu et ea ep off =
    let ex = exists-none v.id s.grants ea in
    rw (eu, et, ea, ep, off, if◌then◌else◌, ex, if◌then◌else◌)
      (ended_row v.id (highest s.grants + 1) kind now later r t p s ea ep)
