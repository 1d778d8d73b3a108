-- ===== src/Tick/Hour.antt =====
-- An hour of one plan row, described on its own.
use mathlib.Core.Path.{ap₂}
use yourcastbot.Grants.{Plan, Store}
use yourcastbot.Prelude.{
  Bool, List, [], ap, arith, false, if◌then◌else◌, leb, ltb, map, not, refl, true, ℕ, ◌&&◌, ◌==◌,
  ◌∷◌, ◌≡◌,
}
use yourcastbot.Table.{update_where}
use yourcastbot.Tick.{
  affords, count_down, is_counted_down, is_due, is_frozen, is_held_by_grant, price, prolong,
  run_tariff_tick,
}

-- A plan that runs loses an hour.
abbrev pub spend : Plan → Plan
spend p = if ltb 0 p.time_left && not (p.tariff_id == 0) then count_down p else p

-- The plan is on its last hour, the balance pays for more, and no grant holds it.
abbrev pub is_payable : Store → Plan → Bool
is_payable s p = (affords (price s p) p.balance && leb p.time_left 1) && not (is_held_by_grant s p)

-- What a tick leaves of the row `p`: a deleted user's row stays, a payable one is renewed first.
abbrev pub hour : ℕ → Store → Plan → Plan
hour period s p =
    if is_frozen s p then p else if is_payable s p then spend (prolong period s p) else spend p

abbrev updated : (Plan → Bool) → (Plan → Plan) → Plan → Plan
updated p f r = if p r then f r else r

update_twice :
    (p q : Plan → Bool) (f g h : Plan → Plan)
    → ((r : Plan) → updated q g (updated p f r) ≡ h r)
    → (ps : List Plan) → update_where q g (update_where p f ps) ≡ map h ps
update_twice p q f g h e [] = refl
update_twice p q f g h e (r ∷ rs) = ap₂ (λ x xs. x ∷ xs) (e r) (update_twice p q f g h e rs)

-- The two UPDATEs on one row, its tests given.
both :
    (period : ℕ) (s : Store) (p : Plan) (a frozen kept : Bool)
    → is_frozen s p ≡ frozen
    → (updated
        (is_counted_down s)
        count_down
        (if a && (not frozen && not kept) then prolong period s p else p))
      ≡ (if frozen then p else if a && not kept then spend (prolong period s p) else spend p)
both period s p true true kept e = rw (e) (ground arith)
both period s p false true kept e = rw (e) (ground arith)
both period s p true false true e = rw (e) (ground arith)
both period s p true false false e = rw (e) (ground arith)
both period s p false false kept e = rw (e) (ground arith)

-- A tick turns each plan row into the row that `hour` describes, and no other table changes.
pub run_tariff_tick_lem :
    (period : ℕ) (s : Store)
    → (run_tariff_tick period s).store ≡ record s { plans = map (hour period s) s.plans }
unfolding run_tariff_tick
run_tariff_tick_lem period s =
    ap (λ (ps : List Plan). record s { plans = ps })
      (update_twice (is_due s) (is_counted_down s) (prolong period s) count_down (hour period s)
        (λ r.
          both period s r (affords (price s r) r.balance && leb r.time_left 1) (is_frozen s r)
            (is_held_by_grant s r) refl)
        s.plans)
