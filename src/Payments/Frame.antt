-- ===== src/Payments/Frame.antt =====
-- What one statement on the plan rows leaves of them.
use yourcastbot.Grants.{Grant, Plan, Reason, Store, has_uid, holds}
use yourcastbot.Grants.Hold.{end_grant, switch_off}
use yourcastbot.Grants.Start.{plan_of}
use yourcastbot.Payments.{insert_plan, set_plan, write_plan}
use yourcastbot.Prelude.{
  Option, arith, false, if◌then◌else◌, none, pos, refl, some, true, ℕ, ℤ, ◌≡◌, ◌≢◌,
}
use yourcastbot.Table.Append.{
  find-append_none, find-append_other, find-update_found, find-update_other,
}
use yourcastbot.Table.Laws.{find-Member}

abbrev pub money : Option Plan → ℤ
money none = pos 0
money (some p) = p.balance

-- The other users' plan rows are the same.
abbrev pub KeepsOthers : ℕ → Store → Store → Type 0
KeepsOthers u s t = (v : ℕ) → v ≢ u → plan_of v t ≡ plan_of v s

pub other_row : (u v : ℕ) (p : Plan) → v ≢ u → has_uid u p ≡ true → has_uid v p ≡ false
other_row u v p n h = ground arith

pub write_plan-KeepsOthers :
    (u tariff : ℕ) (balance : ℤ) (left : ℕ) (notify : Option ℤ) (s : Store)
    → KeepsOthers u s (write_plan u tariff balance left notify s)
write_plan-KeepsOthers u tariff balance left notify s v n =
    find-update_other (has_uid u) (has_uid v) (set_plan tariff balance left notify)
      (λ p h. other_row u v p n h) (λ p h. other_row u v p n h) s.plans

pub write_plan-found :
    (u tariff : ℕ) (balance : ℤ) (left : ℕ) (notify : Option ℤ) (p : Plan) (s : Store)
    → plan_of u s ≡ some p
    → plan_of u (write_plan u tariff balance left notify s)
      ≡ some (set_plan tariff balance left notify p)
write_plan-found u tariff balance left notify p s e =
    let k = (find-Member (has_uid u) s.plans p e).1 in
    rw
      (
        find-update_found (has_uid u) (has_uid u) (set_plan tariff balance left notify)
            (λ r _. refl) s.plans p e,
        k,
        if◌then◌else◌,
      )
      refl

new_row_other : (u v : ℕ) (p : Plan) → p.uid ≡ u → v ≢ u → has_uid v p ≡ false
new_row_other u v p e n = ground arith

abbrev pub plan_row : ℕ → ℕ → ℤ → ℕ → Option ℤ → Plan
plan_row u tariff balance time_left notify = record {
  uid = u;
  tariff_id = tariff;
  balance = balance;
  time_left = time_left;
  notify_count = notify;
}

pub insert_plan-found :
    (u tariff : ℕ) (balance : ℤ) (time_left : ℕ) (notify : Option ℤ) (s : Store)
    → plan_of u s ≡ none
    → plan_of u (insert_plan u tariff balance time_left notify s)
      ≡ some (plan_row u tariff balance time_left notify)
insert_plan-found u tariff balance time_left notify s e =
    let x : Plan = plan_row u tariff balance time_left notify in
    let own : has_uid u x ≡ true = ground arith in
    rw (find-append_none (has_uid u) s.plans x e, own, if◌then◌else◌) refl

pub insert_plan-KeepsOthers :
    (u tariff : ℕ) (balance : ℤ) (time_left : ℕ) (notify : Option ℤ) (s : Store)
    → KeepsOthers u s (insert_plan u tariff balance time_left notify s)
insert_plan-KeepsOthers u tariff balance time_left notify s v n =
    let x : Plan = plan_row u tariff balance time_left notify in
    find-append_other (has_uid v) s.plans x (new_row_other u v x refl n)

-- What the end of a grant leaves of the plan rows.
pub record Ended (u : ℕ) (s t : Store) : Type 0 where
  pub row : Plan
  pub found : plan_of u t ≡ some row
  pub others : KeepsOthers u s t

pub end-Ended :
    (u : ℕ) (reason : Reason) (g : Option Grant) (now : ℕ) (p : Plan) (s : Store)
    → plan_of u s ≡ some p
    → Ended u s (end_grant g u reason now false s).1
end-Ended u reason none now p s e = record { row = p; found = e; others = λ v n. refl }
end-Ended u reason (some g) now p s e = record {
  row = if holds u g.tariff_id p then switch_off g.tariff_id p else p;
  found =
      find-update_found (holds u g.tariff_id) (has_uid u) (switch_off g.tariff_id) (λ r _. refl)
        s.plans p e;
  others = λ v n.
      find-update_other (holds u g.tariff_id) (has_uid v) (switch_off g.tariff_id)
        (λ r h. ground arith) (λ r h. ground arith) s.plans;
}
