-- ===== src/Payments/Write.antt =====
-- When the write of a plan raises, and what it leaves.
use yourcastbot.Grants.{Plan, Store, Tariff, active, has_uid, replaced}
use yourcastbot.Grants.Hold.{end, is_tariff}
use yourcastbot.Grants.Start.{plan_of}
use yourcastbot.Payments.{insert_plan, write_plan}
use yourcastbot.Payments.Frame.{
  Ended, KeepsOthers, end-Ended, insert_plan-KeepsOthers, insert_plan-found, plan_row,
  write_plan-KeepsOthers, write_plan-found,
}
use yourcastbot.Payments.Subscribe.{
  count_or_raise, first_count, give_way, insert_counted, subscribe, subscribe_row,
}
use yourcastbot.Prelude.{
  Bool-cases, List, Option, ap, arith, false, if◌then◌else◌, inl, inr, none, pos, refl, some, true,
  ℕ, ℤ, ◌&&◌, ◌==◌, ◌∙◌, ◌≡◌, ◌≢◌, ◌⊎◌,
}
use yourcastbot.Table.{find_where}
use yourcastbot.Table.Laws.{find-Member}

-- The count of deliveries that a new row cannot get.
abbrev pub IsUncounted : Option ℤ → ℕ → Store → Type 0
IsUncounted notify tariff s =
    (notify ≡ none) × (tariff ≢ 0) × (find_where (is_tariff tariff) s.tariffs ≡ none)

-- The count of deliveries of a new row: the one given, or the tariff's.
pub data Counted (tariff : ℕ) (s : Store) : Option ℤ → ℤ → Type 0 where
  given : {n : ℤ} → Counted tariff s (some n) n
  off : tariff ≡ 0 → Counted tariff s none (pos 0)
  listed :
      (t : Tariff)
      → tariff ≢ 0
      → find_where (is_tariff tariff) s.tariffs ≡ some t
      → Counted tariff s none t.notify_count

-- The three ends of a write of the plan of `u`, by conditions of which exactly one holds: it raises, a
-- row comes, or the row is written over, where another plan or other days end a grant.
pub data Write (u tariff : ℕ) (balance : ℤ) (time_left : ℕ) (notify : Option ℤ) (now : ℕ)
    (s : Store) : Option Store → Type 0 where
  raises :
      plan_of u s ≡ none
      → IsUncounted notify tariff s
      → Write u tariff balance time_left notify now s none
  inserts :
      (t : Store) (n : ℤ)
      → plan_of u s ≡ none
      → Counted tariff s notify n
      → plan_of u t ≡ some (plan_row u tariff balance time_left (some n))
      → KeepsOthers u s t
      → t.grants ≡ s.grants
      → Write u tariff balance time_left notify now s (some t)
  updates :
      (t : Store) (p : Plan)
      → plan_of u s ≡ some p
      → plan_of u t ≡ some (plan_row u tariff balance time_left notify)
      → KeepsOthers u s t
      → (p.tariff_id ≡ tariff → p.time_left ≡ time_left → t.grants ≡ s.grants)
      → ((p.tariff_id ≢ tariff) ⊎ (p.time_left ≢ time_left)
          → t.grants ≡ (end u replaced now false s).1.grants)
      → Write u tariff balance time_left notify now s (some t)

listed_or_raise :
    (o : Option Tariff) (u tariff : ℕ) (balance : ℤ) (time_left now : ℕ) (s : Store)
    → plan_of u s ≡ none
    → tariff ≢ 0
    → find_where (is_tariff tariff) s.tariffs ≡ o
    → Write u tariff balance time_left none now s
        (insert_counted (count_or_raise o) u tariff balance time_left s)
listed_or_raise none u tariff balance time_left now s k z e = raises k (refl, z, e)
listed_or_raise (some t) u tariff balance time_left now s k z e =
    inserts (insert_plan u tariff balance time_left (some t.notify_count) s) t.notify_count k
      (listed t z e) (insert_plan-found u tariff balance time_left (some t.notify_count) s k)
      (insert_plan-KeepsOthers u tariff balance time_left (some t.notify_count) s) refl

insert_Write :
    (notify : Option ℤ) (u tariff : ℕ) (balance : ℤ) (time_left now : ℕ) (s : Store)
    → plan_of u s ≡ none
    → Write u tariff balance time_left notify now s
        (insert_counted (first_count notify tariff s) u tariff balance time_left s)
insert_Write (some n) u tariff balance time_left now s k =
    inserts (insert_plan u tariff balance time_left (some n) s) n k given
      (insert_plan-found u tariff balance time_left (some n) s k)
      (insert_plan-KeepsOthers u tariff balance time_left (some n) s) refl
insert_Write none u tariff balance time_left now s k = elim (Bool-cases (tariff == 0)) [
  | inl y ↦
      rw (y, if◌then◌else◌)
        (inserts (insert_plan u tariff balance time_left (some (pos 0)) s) (pos 0) k
          (off (ground arith)) (insert_plan-found u tariff balance time_left (some (pos 0)) s k)
          (insert_plan-KeepsOthers u tariff balance time_left (some (pos 0)) s) refl)
  | inr y ↦
      rw (y, if◌then◌else◌)
        (listed_or_raise (find_where (is_tariff tariff) s.tariffs) u tariff balance time_left now s
          k (ground arith) refl)
]

give_way-Ended :
    (u tariff time_left now : ℕ) (p : Plan) (s : Store)
    → plan_of u s ≡ some p
    → Ended u s (give_way u tariff time_left now p s)
unfolding end
give_way-Ended u tariff time_left now p s e =
    elim (Bool-cases (p.tariff_id == tariff && p.time_left == time_left)) [
      | inl y ↦ rw (y, if◌then◌else◌) (record { row = p; found = e; others = λ v n. refl })
      | inr y ↦ rw (y, if◌then◌else◌) (end-Ended u replaced (active u s) now p s e)
    ]

give_way-grants :
    (u tariff time_left now : ℕ) (p : Plan) (s : Store)
    → p.tariff_id ≡ tariff
    → p.time_left ≡ time_left
    → (give_way u tariff time_left now p s).grants ≡ s.grants
give_way-grants u tariff time_left now p s a b =
    let y : (p.tariff_id == tariff && p.time_left == time_left) ≡ true = ground arith in
    rw (y, if◌then◌else◌) refl

give_way-ends :
    (u tariff time_left now : ℕ) (p : Plan) (s : Store)
    → (p.tariff_id ≢ tariff) ⊎ (p.time_left ≢ time_left)
    → (give_way u tariff time_left now p s).grants ≡ (end u replaced now false s).1.grants
give_way-ends u tariff time_left now p s d =
    let y : (p.tariff_id == tariff && p.time_left == time_left) ≡ false = ground arith in
    rw (y, if◌then◌else◌) refl

uid_found : (u : ℕ) (ps : List Plan) (p : Plan) → find_where (has_uid u) ps ≡ some p → p.uid ≡ u
uid_found u ps p e = let k = (find-Member (has_uid u) ps p e).1 in ground arith

row-Write :
    (o : Option Plan) (u tariff : ℕ) (balance : ℤ) (time_left : ℕ) (notify : Option ℤ) (now : ℕ)
    (s : Store)
    → plan_of u s ≡ o
    → Write u tariff balance time_left notify now s
        (subscribe_row o u tariff balance time_left notify now s)
row-Write none u tariff balance time_left notify now s e =
    insert_Write notify u tariff balance time_left now s e
row-Write (some p) u tariff balance time_left notify now s e =
    let s' : Store = give_way u tariff time_left now p s in
    let k : Ended u s s' = give_way-Ended u tariff time_left now p s e in
    updates (write_plan u tariff balance time_left notify s') p e
      (write_plan-found u tariff balance time_left notify k.row s' k.found
        ∙ ap (λ (i : ℕ). some (plan_row i tariff balance time_left notify))
            (uid_found u s'.plans k.row k.found))
      (λ v n. write_plan-KeepsOthers u tariff balance time_left notify s' v n ∙ k.others v n)
      (give_way-grants u tariff time_left now p s) (give_way-ends u tariff time_left now p s)

-- A write of a plan raises exactly when the chat has no plan row, no count of deliveries was given, and
-- the tariff, which is not 0, is not there. A new row has the count given, or that of the tariff, 0 for
-- tariff 0; a row that was there is written over with what was asked for, the count included. The other
-- users' plans are the same. A write that changes neither plan nor days ends no grant, and one that
-- changes either ends the running grant as replaced.
pub subscribe-Write :
    (u tariff : ℕ) (balance : ℤ) (time_left : ℕ) (notify : Option ℤ) (now : ℕ) (s : Store)
    → Write u tariff balance time_left notify now s
        (subscribe u tariff balance time_left notify now s)
unfolding subscribe
subscribe-Write u tariff balance time_left notify now s =
    row-Write (plan_of u s) u tariff balance time_left notify now s refl
