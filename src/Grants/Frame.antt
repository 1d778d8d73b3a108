-- ===== src/Grants/Frame.antt =====
-- What the check of one holder leaves alone.
use mathlib.Core.Path.{subst}
use yourcastbot.Grants.{Grant, Plan, Reason, Store, active, has_uid, holds}
use yourcastbot.Grants.Cases.{check-elim}
use yourcastbot.Grants.Check.{Conf, check}
use yourcastbot.Grants.Hold.{
  end, end_grant, extend, extended, hold, hold_grant, mark_grant, mark_missing, new_period,
}
use yourcastbot.Prelude.{
  Bool, List, Option, arith, false, if◌then◌else◌, leb, map, none, not, refl, some, sym, true, ℕ, ℤ,
  ◌*◌, ◌+◌, ◌==◌, ◌∙◌, ◌≡◌,
}
use yourcastbot.Table.{count_where, select_where, update_where}
use yourcastbot.Table.Laws.{map-update, select-update}

abbrev pub is_other : ℕ → Plan → Bool
is_other u p = not (has_uid u p)

abbrev pub balances : List Plan → List ℤ
balances = map (λ (p : Plan). p.balance)

-- The plan rows of every other user, and every balance, are the same.
pub record IsFramed (u : ℕ) (ps qs : List Plan) : Type 0 where
  pub others : select_where (is_other u) qs ≡ select_where (is_other u) ps
  pub money : balances qs ≡ balances ps

same-IsFramed : (u : ℕ) (ps : List Plan) → IsFramed u ps ps
same-IsFramed u ps = record { others = refl; money = refl }

join-IsFramed :
    (u : ℕ) (ps qs rs : List Plan) → IsFramed u ps qs → IsFramed u qs rs → IsFramed u ps rs
join-IsFramed u ps qs rs a b = record { others = b.others ∙ a.others; money = b.money ∙ a.money }

update-IsFramed :
    (u : ℕ) (p : Plan → Bool) (f : Plan → Plan) (ps : List Plan)
    → ((r : Plan) → p r ≡ true → has_uid u r ≡ true)
    → ((r : Plan) → (f r).uid ≡ r.uid)
    → ((r : Plan) → (f r).balance ≡ r.balance)
    → IsFramed u ps (update_where p f ps)
update-IsFramed u p f ps own same money = record {
  others =
      select-update p (is_other u) f (λ r h. rw (same r, own r h) refl) (λ r h. rw (own r h) refl)
        ps;
  money = map-update (λ r. r.balance) p f money ps;
}

holds-own : (u t : ℕ) (p : Plan) → holds u t p ≡ true → has_uid u p ≡ true
holds-own u t p h = ground arith

pub end_grant-IsFramed :
    (o : Option Grant) (u : ℕ) (r : Reason) (now : ℕ) (b : Bool) (s : Store)
    → IsFramed u s.plans (end_grant o u r now b s).1.plans
end_grant-IsFramed none u r now b s = same-IsFramed u s.plans
end_grant-IsFramed (some g) u r now b s =
    update-IsFramed u (holds u g.tariff_id) _ s.plans (holds-own u g.tariff_id) (λ p. refl)
      (λ p. refl)

pub end-IsFramed :
    (u : ℕ) (r : Reason) (now : ℕ) (b : Bool) (s : Store)
    → IsFramed u s.plans (end u r now b s).1.plans
unfolding end
end-IsFramed u r now b s = end_grant-IsFramed (active u s) u r now b s

renew-IsFramed :
    (g : Grant) (u now : ℕ) (s : Store) (b : Bool)
    → IsFramed u s.plans (if b then new_period g u now s else s).plans
renew-IsFramed g u now s true =
    update-IsFramed u (has_uid u) _ s.plans (λ p h. h) (λ p. refl) (λ p. refl)
renew-IsFramed g u now s false = same-IsFramed u s.plans

pick :
    (u : ℕ) (ps : List Plan) (b : Bool) (x y : Bool × Store)
    → IsFramed u ps x.1.plans
    → IsFramed u ps y.1.plans
    → IsFramed u ps (if b then x else y).1.plans
pick u ps true x y h k = h
pick u ps false x y h k = k

pub hold_grant-IsFramed :
    (o : Option Grant) (u now : ℕ) (s : Store) → IsFramed u s.plans (hold_grant o u now s).1.plans
hold_grant-IsFramed none u now s = same-IsFramed u s.plans
hold_grant-IsFramed (some g) u now s =
    pick u s.plans (count_where (holds u g.tariff_id) s.plans == 0) _ _ (same-IsFramed u s.plans) (
      join-IsFramed u _ _ _
        (update-IsFramed u (holds u g.tariff_id) extend s.plans (holds-own u g.tariff_id)
          (λ p. refl) (λ p. refl))
        (renew-IsFramed g u now (extended g u s) (leb (g.period_started_at + 720 * 3600) now)))

pub hold-IsFramed : (u now : ℕ) (s : Store) → IsFramed u s.plans (hold u now s).1.plans
unfolding hold
hold-IsFramed u now s = hold_grant-IsFramed (active u s) u now s

mark_grant-plans : (o : Option Grant) (now : ℕ) (s : Store) → (mark_grant o now s).1.plans ≡ s.plans
mark_grant-plans none now s = refl
mark_grant-plans (some g) now s = refl

pub mark_missing-plans : (u now : ℕ) (s : Store) → (mark_missing u now s).1.plans ≡ s.plans
unfolding mark_missing
mark_missing-plans u now s = mark_grant-plans (active u s) now s

mark_missing-IsFramed : (u now : ℕ) (s : Store) → IsFramed u s.plans (mark_missing u now s).1.plans
mark_missing-IsFramed u now s =
    subst (λ ps. IsFramed u s.plans ps) (sym (mark_missing-plans u now s)) (same-IsFramed u s.plans)

-- The check of one holder changes no plan row of another user, and no balance at all.
pub check-IsFramed :
    (u : ℕ) (conf : Conf) (now : ℕ) (is_member : ℕ → Option Bool) (s : Store)
    → IsFramed u s.plans (check u conf now is_member s).store.plans
check-IsFramed u conf now is_member s =
    check-elim (λ t. IsFramed u s.plans t.plans) (λ t. IsFramed u s.plans t.plans) u conf now
      is_member s (same-IsFramed u s.plans) (hold-IsFramed u now s) (mark_missing-IsFramed u now s)
      (mark_missing-IsFramed u now s)
      (λ r t h. join-IsFramed u _ _ _ h (end-IsFramed u r now true t))
