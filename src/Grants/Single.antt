-- ===== src/Grants/Single.antt =====
-- One running grant a user, ids given once; and then `start` never meets the unique index.
use mathlib.Core.Path.{subst}
use native.Mathlib.Nat.{le_trans}
use yourcastbot.Grants.{Grant, Plan, Reason, Store, active, has_id, holds, is_active, replaced}
use yourcastbot.Grants.Hold.{
  close, end, end_grant, extended, hold, hold_grant, mark_grant, mark_missing, miss, note_check,
  renew, start_period,
}
use yourcastbot.Prelude.{
  Bool, Bool-cases, List, Option, [], arith, false, if◌then◌else◌, inl, inr, leb, none, refl, some,
  true, ℕ, ◌*◌, ◌+◌, ◌==◌, ◌∷◌, ◌≡◌, ◌≤◌,
}
use yourcastbot.Table.{count_where, exists_where, find_where, update_where}
use yourcastbot.Table.Laws.{count-exists, count-update-le, count_zero, find-none}

pub record IsSingle (s : Store) : Type 0 where
  pub one_active : (u : ℕ) → count_where (is_active u) s.grants ≤ 1
  pub one_id : (i : ℕ) → count_where (has_id i) s.grants ≤ 1

-- An update that renames nothing and opens nothing.
pub update-IsSingle :
    (p : Grant → Bool) (f : Grant → Grant) (s : Store) (ps : List Plan)
    → ((g : Grant) → (f g).id ≡ g.id)
    → ((u : ℕ) (g : Grant) → is_active u (f g) ≡ true → is_active u g ≡ true)
    → IsSingle s
    → IsSingle (record s { grants = update_where p f s.grants; plans = ps })
update-IsSingle p f s ps same old i = record {
  one_active =
      λ u. le_trans (count-update-le p (is_active u) f (λ g _. old u g) s.grants) (i.one_active u);
  one_id = λ n.
      le_trans
        (count-update-le p (has_id n) f (λ g _ h. subst (λ k. (k == n) ≡ true) (same g) h) s.grants)
        (i.one_id n);
}

close-opens :
    (now : ℕ) (r : Reason) (u : ℕ) (g : Grant)
    → is_active u (close now r g) ≡ true
    → is_active u g ≡ true
close-opens now r u g h = ground arith

end_grant-IsSingle :
    (o : Option Grant) (u : ℕ) (r : Reason) (now : ℕ) (restore : Bool) (s : Store)
    → IsSingle s
    → IsSingle (end_grant o u r now restore s).1
end_grant-IsSingle none u r now restore s i = i
end_grant-IsSingle (some g) u r now restore s i =
    update-IsSingle (has_id g.id) (close now r) s _ (λ x. refl) (close-opens now r) i

pub end-IsSingle :
    (u : ℕ) (r : Reason) (now : ℕ) (restore : Bool) (s : Store)
    → IsSingle s
    → IsSingle (end u r now restore s).1
unfolding end
end-IsSingle u r now restore s i = end_grant-IsSingle (active u s) u r now restore s i

pick :
    (b : Bool) (x y : Bool × Store) → IsSingle x.1 → IsSingle y.1 → IsSingle (if b then x else y).1
pick true x y h k = h
pick false x y h k = k

choose : (b : Bool) (x y : Store) → IsSingle x → IsSingle y → IsSingle (if b then x else y)
choose true x y h k = h
choose false x y h k = k

extended-IsSingle : (g : Grant) (u : ℕ) (s : Store) → IsSingle s → IsSingle (extended g u s)
extended-IsSingle g u s i = record { one_active = i.one_active; one_id = i.one_id }

renew-IsSingle : (g : Grant) (u now : ℕ) (s : Store) → IsSingle s → IsSingle (renew g u now s)
renew-IsSingle g u now s i =
    choose (leb (g.period_started_at + 720 * 3600) now) _ s
      (update-IsSingle (has_id g.id) (start_period now) s _ (λ x. refl) (λ v x h. h) i) i

hold_grant-IsSingle :
    (o : Option Grant) (u now : ℕ) (s : Store) → IsSingle s → IsSingle (hold_grant o u now s).1
hold_grant-IsSingle none u now s i = i
hold_grant-IsSingle (some g) u now s i =
    pick (count_where (holds u g.tariff_id) s.plans == 0) _ _
      (update-IsSingle (has_id g.id) (close now replaced) s _ (λ x. refl) (close-opens now replaced)
        i)
      (update-IsSingle (has_id g.id) (note_check now) (renew g u now (extended g u s)) _ (λ x. refl)
        (λ v x h. h) (renew-IsSingle g u now (extended g u s) (extended-IsSingle g u s i)))

pub hold-IsSingle : (u now : ℕ) (s : Store) → IsSingle s → IsSingle (hold u now s).1
unfolding hold
hold-IsSingle u now s i = hold_grant-IsSingle (active u s) u now s i

mark_grant-IsSingle :
    (o : Option Grant) (now : ℕ) (s : Store) → IsSingle s → IsSingle (mark_grant o now s).1
mark_grant-IsSingle none now s i = i
mark_grant-IsSingle (some g) now s i =
    update-IsSingle (has_id g.id) (miss now) s _ (λ x. refl) (λ v x h. h) i

pub mark_missing-IsSingle : (u now : ℕ) (s : Store) → IsSingle s → IsSingle (mark_missing u now s).1
unfolding mark_missing
mark_missing-IsSingle u now s i = mark_grant-IsSingle (active u s) now s i

-- A running grant that is closed by its id was the only one.
pub close_only :
    (u now : ℕ) (r : Reason) (gs : List Grant) (g : Grant)
    → find_where (is_active u) gs ≡ some g
    → count_where (is_active u) gs ≤ 1
    → count_where (is_active u) (update_where (has_id g.id) (close now r) gs) ≡ 0
close_only u now r [] g h c = cc
close_only u now r (x ∷ xs) g h c =
    let le =
      count-update-le (has_id g.id) (is_active u) (close now r) (λ y _. close-opens now r u y) xs in
    ground (arith, close_only u now r xs g, close-opens now r u x)

-- The store after `_hold` said that nothing is held: no grant of the user runs.
pub hold-none :
    (u now : ℕ) (s : Store) (o : Option Grant)
    → find_where (is_active u) s.grants ≡ o
    → IsSingle s
    → (hold_grant o u now s).0 ≡ false
    → exists_where (is_active u) (hold_grant o u now s).1.grants ≡ false
hold-none u now s none e i h =
    count-exists (is_active u) s.grants
      (count_zero (is_active u) s.grants (find-none (is_active u) s.grants e))
hold-none u now s (some g) e i h =
    elim (Bool-cases (count_where (holds u g.tariff_id) s.plans == 0)) [
      | inl z ↦
          rw (z, if◌then◌else◌)
            (count-exists (is_active u) _ (close_only u now replaced s.grants g e (i.one_active u)))
      | inr n ↦ absurd (ground arith)
    ]

none_counted : (p : Grant → Bool) (gs : List Grant) → count_where p gs ≡ 0 → find_where p gs ≡ none
none_counted p [] h = refl
none_counted p (x ∷ xs) h = ground (arith, none_counted p xs)

-- The store after the end of the running grant: none of the user runs.
pub end_grant-none :
    (o : Option Grant) (u : ℕ) (r : Reason) (now : ℕ) (restore : Bool) (s : Store)
    → active u s ≡ o
    → IsSingle s
    → active u (end_grant o u r now restore s).1 ≡ none
end_grant-none none u r now restore s e i = e
end_grant-none (some g) u r now restore s e i =
    none_counted (is_active u) _ (close_only u now r s.grants g e (i.one_active u))
