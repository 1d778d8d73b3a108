-- ===== src/Grants/Paid.antt =====
-- A plan that was bought stays as it was bought: no operation on the grant it replaced writes it.
use mathlib.Core.Option
use yourcastbot.Grants.{Grant, Reason, Store, active, has_id, holds, is_active}
use yourcastbot.Grants.Cases.{check-elim}
use yourcastbot.Grants.Check.{Conf, check}
use yourcastbot.Grants.Frame.{mark_missing-plans}
use yourcastbot.Grants.Hold.{end, end_grant, hold, hold_grant, mark_grant, mark_missing, miss}
use yourcastbot.Prelude.{
  Bool, Option, Option-cases, ap, arith, if◌then◌else◌, inl, inr, none, refl, some, sym, true, ℕ,
  ◌==◌, ◌∙◌, ◌≡◌,
}
use yourcastbot.Table.{count_where}
use yourcastbot.Table.Laws.{find-update, update_none}

-- The user's plan row is not the running grant's any more: something bought replaced it.
abbrev pub IsReplaced : ℕ → Store → Type 0
IsReplaced u s = (g : Grant) → active u s ≡ some g → count_where (holds u g.tariff_id) s.plans ≡ 0

end_grant-plans :
    (o : Option Grant) (u : ℕ) (r : Reason) (now : ℕ) (b : Bool) (s : Store)
    → ((g : Grant) → o ≡ some g → count_where (holds u g.tariff_id) s.plans ≡ 0)
    → (end_grant o u r now b s).1.plans ≡ s.plans
end_grant-plans none u r now b s h = refl
end_grant-plans (some g) u r now b s h = update_none (holds u g.tariff_id) _ s.plans (h g refl)

pub end-plans :
    (u : ℕ) (r : Reason) (now : ℕ) (b : Bool) (s : Store)
    → IsReplaced u s
    → (end u r now b s).1.plans ≡ s.plans
unfolding end
end-plans u r now b s h = end_grant-plans (active u s) u r now b s h

hold_grant-plans :
    (o : Option Grant) (u now : ℕ) (s : Store)
    → ((g : Grant) → o ≡ some g → count_where (holds u g.tariff_id) s.plans ≡ 0)
    → (hold_grant o u now s).1.plans ≡ s.plans
hold_grant-plans none u now s h = refl
hold_grant-plans (some g) u now s h =
    let z : (count_where (holds u g.tariff_id) s.plans == 0) ≡ true = ground (arith, h g refl) in
    rw (z, if◌then◌else◌) refl

pub hold-plans : (u now : ℕ) (s : Store) → IsReplaced u s → (hold u now s).1.plans ≡ s.plans
unfolding hold
hold-plans u now s h = hold_grant-plans (active u s) u now s h

-- A grant marked as missing is the same grant.
mark_grant-IsReplaced :
    (o : Option Grant) (u now : ℕ) (s : Store)
    → IsReplaced u s
    → IsReplaced u (mark_grant o now s).1
mark_grant-IsReplaced none u now s h g e = h g e
mark_grant-IsReplaced (some x) u now s h g e =
    let e' = sym (find-update (has_id x.id) (is_active u) (miss now) (λ y _. refl) s.grants) ∙ e in
    elim (Option-cases (active u s)) [
      | inl n ↦ cc (n, e')
      | inr (y, k) ↦
          let e'' =
            sym (ap (λ o. Option.map (λ z. if has_id x.id z then miss now z else z) o) k) ∙ e' in
          ground (arith, h y k)
    ]

mark_missing-IsReplaced :
    (u now : ℕ) (s : Store) → IsReplaced u s → IsReplaced u (mark_missing u now s).1
unfolding mark_missing
mark_missing-IsReplaced u now s h = mark_grant-IsReplaced (active u s) u now s h

-- While a plan that was bought stands on the user's plan row instead of the running grant's, no
-- check of the holder and no end of the grant changes the plan rows.
pub check-plans :
    (u : ℕ) (conf : Conf) (r : Reason) (now : ℕ) (restore : Bool) (is_member : ℕ → Option Bool)
    (s : Store)
    → IsReplaced u s
    → ((check u conf now is_member s).store.plans ≡ s.plans)
      × ((end u r now restore s).1.plans ≡ s.plans)
check-plans u conf r now restore is_member s h = (
  check-elim (λ t. t.plans ≡ s.plans) (λ t. IsReplaced u t × (t.plans ≡ s.plans)) u conf now
      is_member s (h, refl) (hold-plans u now s h) (mark_missing-plans u now s)
      (mark_missing-IsReplaced u now s h, mark_missing-plans u now s)
      (λ r t k. end-plans u r now true t k.0 ∙ k.1),
  end-plans u r now restore s h,
)
