-- ===== src/Payments/Kept.antt =====
-- What an award adds, and what it ends.
use mathlib.Core.Option
use yourcastbot.Grants.{Grant, Plan, Reason, Store, Tariff, active, has_uid, holds, other_reason}
use yourcastbot.Grants.Hold.{end, end_grant, switch_off}
use yourcastbot.Grants.Single.{IsSingle, end_grant-none}
use yourcastbot.Grants.Start.{plan_of}
use yourcastbot.Payments.Award.{
  AwardMode, award_after, award_new, award_reged, award_replenished, give_award, max_tariff,
  min_tariff, new, notify_count_after_referral, put_on, reged, replenished,
  tariff_ref_no_subscription_period, tariff_ref_period, tariff_ref_sub_period, welcome_hours,
}
use yourcastbot.Payments.Awarded.{IsAwarded, IsKept, hours_of, longer-IsAwarded, put-IsAwarded}
use yourcastbot.Payments.Frame.{KeepsOthers, money}
use yourcastbot.Payments.Subscribe.{subscribe, subscribe_row}
use yourcastbot.Prelude.{
  Bool, Option, ap, arith, false, if◌then◌else◌, none, pos, refl, some, true, ℕ, ℤ, ◌+◌, ◌==◌, ◌∙◌,
  ◌≡◌,
}
use yourcastbot.Table.Append.{find-update_other}
use yourcastbot.Table.Laws.{find-Member, find-update}

-- The hours of the plan row when the running grant has ended: a row on its plan has none left.
abbrev pub hours_kept : Option Grant → Option Plan → ℕ
hours_kept none o = hours_of o
hours_kept (some g) none = 0
hours_kept (some g) (some p) = if p.tariff_id == g.tariff_id then 0 else p.time_left

-- The hours that an award of a mode leaves, from the running grant and the plan row before.
abbrev pub award_hours : AwardMode → Bool → Bool → Option Grant → Option Plan → ℕ
award_hours new is_new invited g none = welcome_hours is_new invited
award_hours new is_new invited g (some p) = p.time_left
award_hours reged is_new invited none none = tariff_ref_no_subscription_period
award_hours reged is_new invited none (some p) = p.time_left + tariff_ref_period
award_hours reged is_new invited (some g) o = tariff_ref_period
award_hours replenished is_new invited g o = hours_kept g o + tariff_ref_sub_period

-- What the award does to the running grant: that for a new user leaves it, the others end it.
abbrev pub Ends : AwardMode → ℕ → Store → Store → Type 0
Ends new u s t = t.grants ≡ s.grants
Ends _ u s t = active u t ≡ none

after_grant :
    (o : Option Plan) (u now : ℕ) (s : Store)
    → (award_reged true o u now s).0 ≡ false
    → IsAwarded u (money o) tariff_ref_period s (award_reged true o u now s).1
after_grant none u now s e = absurd cc
after_grant (some p) u now s e = put-IsAwarded (max_tariff s) u p.balance tariff_ref_period now s e

without_grant :
    (o : Option Plan) (is_new invited : Bool) (u now : ℕ) (s : Store)
    → (award_reged false o u now s).0 ≡ false
    → IsAwarded u
        (money o)
        (award_hours reged is_new invited none o)
        s
        (award_reged false o u now s).1
without_grant none is_new invited u now s e =
    put-IsAwarded (min_tariff s) u (pos 0) tariff_ref_no_subscription_period now s e
without_grant (some p) is_new invited u now s e =
    longer-IsAwarded (notify_count_after_referral p.notify_count) p u now s e

replenished-IsAwarded :
    (o : Option Plan) (u now : ℕ) (s : Store)
    → (award_replenished o u now s).0 ≡ false
    → IsAwarded u (money o) (hours_of o + tariff_ref_sub_period) s (award_replenished o u now s).1
replenished-IsAwarded none u now s e =
    put-IsAwarded (max_tariff s) u (pos 0) tariff_ref_sub_period now s e
replenished-IsAwarded (some p) u now s e =
    put-IsAwarded (max_tariff s) u p.balance (p.time_left + tariff_ref_sub_period) now s e

-- A grant that ends leaves the balance, the hours of another plan, and the other users' plans.
if_money :
    (b : Bool) (tariff : ℕ) (p : Plan) → (if b then switch_off tariff p else p).balance ≡ p.balance
if_money true tariff p = refl
if_money false tariff p = refl

map_money :
    (u tariff : ℕ) (o : Option Plan)
    → money (Option.map (λ r. if holds u tariff r then switch_off tariff r else r) o) ≡ money o
map_money u tariff none = refl
map_money u tariff (some p) = if_money (holds u tariff p) tariff p

map_hours :
    (u : ℕ) (g : Grant) (s : Store) (o : Option Plan)
    → plan_of u s ≡ o
    → hours_of (Option.map (λ r. if holds u g.tariff_id r then switch_off g.tariff_id r else r) o)
      ≡ hours_kept (some g) o
map_hours u g s none e = refl
map_hours u g s (some p) e =
    let own = (find-Member (has_uid u) s.plans p e).1 in ground (arith, own)

module _ (g : Grant) (u : ℕ) (reason : Reason) (now : ℕ) (s : Store) where
  abbrev after : Store
  after = (end_grant (some g) u reason now false s).1

  plan_after :
      plan_of u after
      ≡ Option.map
          (λ r. if holds u g.tariff_id r then switch_off g.tariff_id r else r)
          (plan_of u s)
  plan_after =
      find-update (holds u g.tariff_id) (has_uid u) (switch_off g.tariff_id) (λ r _. refl) s.plans

  end-money : money (plan_of u after) ≡ money (plan_of u s)
  end-money = ap money plan_after ∙ map_money u g.tariff_id (plan_of u s)

  end-hours : hours_of (plan_of u after) ≡ hours_kept (some g) (plan_of u s)
  end-hours = ap hours_of plan_after ∙ map_hours u g s (plan_of u s) refl

  end-KeepsOthers : KeepsOthers u s after
  end-KeepsOthers v n =
      find-update_other (holds u g.tariff_id) (has_uid v) (switch_off g.tariff_id)
        (λ r h. ground arith) (λ r h. ground arith) s.plans

  -- An award on the store after the end of the grant, seen from before.
  from_end :
      (balance : ℤ) (left : ℕ) (t : Store)
      → active u s ≡ some g
      → IsSingle s
      → balance ≡ money (plan_of u s)
      → IsAwarded u balance left after t
      → IsKept u (money (plan_of u s)) left s t × (active u t ≡ none)
  from_end balance left t run i b k = (
    record {
      row = k.0.row;
      found = k.0.found;
      same_balance = k.0.same_balance ∙ b;
      exact = k.0.exact;
      others = λ v n. k.0.others v n ∙ end-KeepsOthers v n;
    },
    k.1 (end_grant-none (some g) u reason now false s run i),
  )

reged_end :
    (g : Option Grant) (is_new invited : Bool) (u : ℕ) (reason : Reason) (now : ℕ) (s : Store)
    → active u s ≡ g
    → IsSingle s
    → (award_after (end_grant g u reason now false s) u now).0 ≡ false
    → let t = (award_after (end_grant g u reason now false s) u now).1 in
      IsKept u (money (plan_of u s)) (award_hours reged is_new invited g (plan_of u s)) s t
      × (active u t ≡ none)
reged_end none is_new invited u reason now s run i e =
    let k = without_grant (plan_of u s) is_new invited u now s e in (k.0, k.1 run)
reged_end (some g) is_new invited u reason now s run i e =
    from_end g u reason now s _ _ _ run i (end-money g u reason now s)
      (after_grant (plan_of u (after g u reason now s)) u now (after g u reason now s) e)

replenished_end :
    (g : Option Grant) (u : ℕ) (reason : Reason) (now : ℕ) (s : Store)
    → active u s ≡ g
    → IsSingle s
    → (award_replenished
        (plan_of u (end_grant g u reason now false s).1)
        u
        now
        (end_grant g u reason now false s).1).0
      ≡ false
    → let m : Store = (end_grant g u reason now false s).1 in
      let t = (award_replenished (plan_of u m) u now m).1 in
      IsKept u (money (plan_of u s)) (hours_kept g (plan_of u s) + tariff_ref_sub_period) s t
      × (active u t ≡ none)
replenished_end none u reason now s run i e =
    let k = replenished-IsAwarded (plan_of u s) u now s e in (k.0, k.1 run)
replenished_end (some g) u reason now s run i e =
    let m = after g u reason now s in
    let k =
      from_end g u reason now s _ _ _ run i (end-money g u reason now s)
        (replenished-IsAwarded (plan_of u m) u now m e) in
    (
      record {
        row = k.0.row;
        found = k.0.found;
        same_balance = k.0.same_balance;
        others = k.0.others;
        exact = k.0.exact ∙ ap (λ (n : ℕ). n + tariff_ref_sub_period) (end-hours g u reason now s);
      },
      k.1,
    )

new_user :
    (o : Option Tariff) (u : ℕ) (time_left now : ℕ) (s : Store)
    → plan_of u s ≡ none
    → (put_on o u (pos 0) time_left now s).0 ≡ false
    → (put_on o u (pos 0) time_left now s).1.grants ≡ s.grants
unfolding subscribe
new_user none u time_left now s k e = refl
new_user (some t) u time_left now s k e = rw (k, subscribe_row) refl

new-IsKept :
    (o : Option Plan) (is_new invited : Bool) (u now : ℕ) (s : Store)
    → plan_of u s ≡ o
    → (award_new o is_new invited u now s).0 ≡ false
    → IsKept u
        (money o)
        (award_hours new is_new invited (active u s) o)
        s
        (award_new o is_new invited u now s).1
      × ((award_new o is_new invited u now s).1.grants ≡ s.grants)
new-IsKept none is_new invited u now s k e = (
  (put-IsAwarded (max_tariff s) u (pos 0) (welcome_hours is_new invited) now s e).0,
  new_user (max_tariff s) u (welcome_hours is_new invited) now s k e,
)
new-IsKept (some p) is_new invited u now s k e =
    (record { row = p; found = k; same_balance = refl; exact = refl; others = λ v n. refl }, refl)

-- On tables with single grants, an award that does not raise leaves the user a plan with the balance
-- from before, and the other users' plans the same. For a new user it writes the welcome hours where
-- there is no plan row, and leaves the hours of a row and the grants as they are. The other modes leave
-- no grant of the user running. Where no grant ran, they add their hours: `reged` 5 days, or 3
-- where there is no row, `replenished` 15 days. Where a grant ran, `reged` replaces the hours, whatever
-- they were, by 5 days, and `replenished` adds 15 days to those of a row on another plan than the
-- grant's, and to none otherwise.
pub give_award-IsKept :
    (mode : AwardMode) (is_new invited : Bool) (u now : ℕ) (s : Store)
    → IsSingle s
    → (give_award mode is_new invited u now s).0 ≡ false
    → let t = (give_award mode is_new invited u now s).1 in
      IsKept u
        (money (plan_of u s))
        (award_hours mode is_new invited (active u s) (plan_of u s))
        s
        t
      × Ends mode u s t
unfolding give_award end
give_award-IsKept reged is_new invited u now s i e =
    reged_end (active u s) is_new invited u (other_reason 1) now s refl i e
give_award-IsKept replenished is_new invited u now s i e =
    replenished_end (active u s) u (other_reason 1) now s refl i e
give_award-IsKept new is_new invited u now s i e =
    new-IsKept (plan_of u s) is_new invited u now s refl e
