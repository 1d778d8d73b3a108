-- ===== src/Grants/Runs.antt =====
-- The grants through any run of operations, from the tables of a new bot on.
use yourcastbot.Grants.{Grant, Plan, Reason, Store, Tariff, User, active, has_id, is_active}
use yourcastbot.Grants.Cases.{check-elim}
use yourcastbot.Grants.Check.{Conf, check}
use yourcastbot.Grants.Hold.{end, hold}
use yourcastbot.Grants.Single.{
  IsSingle, end-IsSingle, hold-IsSingle, hold-none, mark_missing-IsSingle,
}
use yourcastbot.Grants.Start.{
  Started, busy, highest, hold_or_give, insert_grant, is_running, new_grant, plan_of, start,
  start_for, tariff_of, with_grants, write_plan,
}
use yourcastbot.Prelude.{
  Bool, List, Option, [], ap, arith, false, if◌then◌else◌, none, refl, some, true, ℕ, ◌++◌, ◌+◌,
  ◌<◌, ◌∷◌, ◌≡◌,
}
use yourcastbot.Table.{count_where, exists_where}
use yourcastbot.Table.Append.{count-append}
use yourcastbot.Table.Laws.{exists-count}

-- A payment or an admin writes the user's plan row as they will, ending the grant first or not.
pub data Op : Type 0 where
  start_op : ℕ → ℕ → ℕ → ℕ → Op
  check_op : ℕ → Conf → ℕ → (ℕ → Option Bool) → Op
  end_op : ℕ → Reason → ℕ → Bool → Op
  plans_op : List Plan → Op

abbrev started_or : Store → Option (Started × Store) → Store
started_or s none = s
started_or s (some (r, t)) = t

abbrev pub apply : Op → Store → Store
apply (start_op chat kind level now) s = started_or s (start chat kind level now s)
apply (check_op u conf now is_member) s = (check u conf now is_member s).store
apply (end_op u r now restore) s = (end u r now restore s).1
apply (plans_op ps) s = record s { plans = ps }

abbrev pub apply_all : List Op → Store → Store
apply_all [] s = s
apply_all (o ∷ os) s = apply_all os (apply o s)

check-IsSingle :
    (u : ℕ) (conf : Conf) (now : ℕ) (m : ℕ → Option Bool) (s : Store)
    → IsSingle s
    → IsSingle (check u conf now m s).store
check-IsSingle u conf now m s i =
    check-elim IsSingle IsSingle u conf now m s i (hold-IsSingle u now s i)
      (mark_missing-IsSingle u now s i) (mark_missing-IsSingle u now s i)
      (λ r t k. end-IsSingle u r now true t k)

highest-le : (gs : List Grant) (i : ℕ) → highest gs < i → count_where (has_id i) gs ≡ 0
highest-le [] i h = refl
highest-le (g ∷ gs) i h = ground (arith, highest-le gs i)

insert-IsSingle :
    (u kind tariff prev now : ℕ) (s : Store) (ps : List Plan)
    → exists_where (is_active u) s.grants ≡ false
    → IsSingle s
    → IsSingle (record s {
      grants = s.grants ++ new_grant (highest s.grants + 1) u kind tariff prev now ∷ [];
      plans = ps;
    })
insert-IsSingle u kind tariff prev now s ps e i = record {
  one_active = λ v. rw (count-append (is_active v) s.grants _) (
      ground (
        arith,
        i.one_active v,
        exists-count (is_active u) s.grants e,
        ap (λ (w : ℕ). count_where (is_active w) s.grants),
      ));
  one_id = λ n.
      rw (count-append (has_id n) s.grants _) (ground (arith, i.one_id n, highest-le s.grants n));
}

-- `start` raises nothing and keeps the grants single.
abbrev pub IsGood : Option (Started × Store) → Type 0
IsGood none = ⊥
IsGood (some (r, t)) = IsSingle t

with_grants-IsGood :
    (p : Option Plan) (u kind : ℕ) (t : Tariff) (now : ℕ) (s : Store) (b : Bool)
    → exists_where (is_active u) s.grants ≡ false
    → IsSingle s
    → IsGood (
        if b
        then some (busy, s)
        else with_grants
            (insert_grant (new_grant (highest s.grants + 1) u kind t.id (tariff_of p) now) s.grants)
            (write_plan p u t s.plans)
            s)
with_grants-IsGood p u kind t now s true e i = i
with_grants-IsGood p u kind t now s false e i =
    rw (e, if◌then◌else◌) (insert-IsSingle u kind t.id (tariff_of p) now s _ e i)

hold_or_give-IsGood :
    (x : Bool × Store) (u kind : ℕ) (t : Tariff) (now : ℕ)
    → (x.0 ≡ false → exists_where (is_active u) x.1.grants ≡ false)
    → IsSingle x.1
    → IsGood (hold_or_give x u kind t now)
hold_or_give-IsGood (true, s) u kind t now e i = i
hold_or_give-IsGood (false, s) u kind t now e i =
    with_grants-IsGood (plan_of u s) u kind t now s (is_running (plan_of u s)) (e refl) i

start_for-IsGood :
    (o : Option User) (t : Option Tariff) (kind now : ℕ) (s : Store)
    → IsSingle s
    → IsGood (start_for o t kind now s)
unfolding hold
start_for-IsGood none t kind now s i = i
start_for-IsGood (some u) none kind now s i = i
start_for-IsGood (some u) (some t) kind now s i =
    hold_or_give-IsGood (hold u.id now s) u.id kind t now
      (hold-none u.id now s (active u.id s) refl i) (hold-IsSingle u.id now s i)

pub start-IsGood :
    (chat kind level now : ℕ) (s : Store) → IsSingle s → IsGood (start chat kind level now s)
unfolding start
start-IsGood chat kind level now s i = start_for-IsGood _ _ kind now s i

good-IsSingle : (s : Store) (x : Option (Started × Store)) → IsGood x → IsSingle (started_or s x)
good-IsSingle s none g = absurd g
good-IsSingle s (some (r, t)) g = g

apply-IsSingle : (o : Op) (s : Store) → IsSingle s → IsSingle (apply o s)
apply-IsSingle (start_op chat kind level now) s i =
    good-IsSingle s _ (start-IsGood chat kind level now s i)
apply-IsSingle (check_op u conf now m) s i = check-IsSingle u conf now m s i
apply-IsSingle (end_op u r now restore) s i = end-IsSingle u r now restore s i
apply-IsSingle (plans_op ps) s i = record { one_active = i.one_active; one_id = i.one_id }

-- After any run of operations on tables where each user has at most one running grant, this still
-- holds, and the next `start` is not refused by the unique index.
pub apply_all-IsSingle :
    (os : List Op) (chat kind level now : ℕ) (s : Store)
    → IsSingle s
    → IsSingle (apply_all os s) × IsGood (start chat kind level now (apply_all os s))
apply_all-IsSingle [] chat kind level now s i = (i, start-IsGood chat kind level now s i)
apply_all-IsSingle (o ∷ os) chat kind level now s i =
    apply_all-IsSingle os chat kind level now (apply o s) (apply-IsSingle o s i)
