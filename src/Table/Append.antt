-- ===== src/Table/Append.antt =====
-- What a statement reads once a row was inserted at the end, or after an UPDATE.
use mathlib.Core.Option
use yourcastbot.Prelude.{
  Bool, List, [], ap, arith, false, if◌then◌else◌, none, refl, some, true, ◌++◌, ◌+◌, ◌||◌, ◌∙◌,
  ◌∷◌, ◌≡◌,
}
use yourcastbot.Table.{count_where, exists_where, find_where, update_where}
use yourcastbot.Table.Laws.{find-update}

module _ {R : Type 0} (p : R → Bool) where
  pub count-append :
      (rs : List R) (r : R)
      → count_where p (rs ++ r ∷ []) ≡ count_where p rs + (if p r then 1 else 0)
  count-append [] r = ground arith
  count-append (x ∷ rs) r = ground (arith, count-append rs r)

  pub exists-append :
      (rs : List R) (r : R) → exists_where p (rs ++ r ∷ []) ≡ (exists_where p rs || p r)
  exists-append [] r = ground arith
  exists-append (x ∷ rs) r = ground (arith, exists-append rs r)

  pub find-append :
      (rs : List R) (r x : R) → find_where p rs ≡ some x → find_where p (rs ++ r ∷ []) ≡ some x
  find-append [] r x h = absurd (ground arith)
  find-append (y ∷ rs) r x h = ground (arith, find-append rs r x)

  pub find-append_none :
      (rs : List R) (r : R)
      → find_where p rs ≡ none
      → find_where p (rs ++ r ∷ []) ≡ (if p r then some r else none)
  find-append_none [] r h = ground arith
  find-append_none (y ∷ rs) r h = ground (arith, find-append_none rs r)

  pub find-append_other :
      (rs : List R) (r : R) → p r ≡ false → find_where p (rs ++ r ∷ []) ≡ find_where p rs
  find-append_other [] r h = ground arith
  find-append_other (y ∷ rs) r h = ground (arith, find-append_other rs r h)

module _ {R : Type 0} (p q : R → Bool) (f : R → R) where
  pub exists-update :
      ((r : R) → p r ≡ true → q (f r) ≡ q r)
      → (rs : List R) → exists_where q (update_where p f rs) ≡ exists_where q rs
  exists-update h [] = refl
  exists-update h (r ∷ rs) = ground (arith, h r, exists-update h rs)

  pub find-update_other :
      ((r : R) → p r ≡ true → q r ≡ false)
      → ((r : R) → p r ≡ true → q (f r) ≡ false)
      → (rs : List R) → find_where q (update_where p f rs) ≡ find_where q rs
  find-update_other h k [] = refl
  find-update_other h k (r ∷ rs) = ground (arith, h r, k r, find-update_other h k rs)

  pub find-update_found :
      ((r : R) → p r ≡ true → q (f r) ≡ q r)
      → (rs : List R) (x : R) → find_where q rs ≡ some x
      → find_where q (update_where p f rs) ≡ some (if p x then f x else x)
  find-update_found h rs x e =
      find-update p q f h rs ∙ ap (λ o. Option.map (λ r. if p r then f r else r) o) e
