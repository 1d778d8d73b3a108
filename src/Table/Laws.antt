-- ===== src/Table/Laws.antt =====
-- Counts and membership under the statements.
use mathlib.Core.Option
use yourcastbot.Prelude.{
  All, Bool, Bool-cases, List, Member, [], ap, arith, false, if◌then◌else◌, inl, inr, map, none,
  refl, some, true, ◌&&◌, ◌+◌, ◌∷◌, ◌≡◌, ◌≤◌,
}
use yourcastbot.Table.{
  count_where, delete_where, exists_where, find_where, select_where, update_where,
}

module _ {R : Type 0} (p q : R → Bool) (f : R → R) where
  pub count-update-le :
      ((r : R) → p r ≡ true → q (f r) ≡ true → q r ≡ true)
      → (rs : List R) → count_where q (update_where p f rs) ≤ count_where q rs
  count-update-le h [] = omega arith
  count-update-le h (r ∷ rs) = ground (arith, h r, count-update-le h rs)

  -- A row that the update brings into `q` is counted once.
  pub count-update-le-add :
      (rs : List R)
      → count_where q (update_where p f rs)
        ≤ count_where q rs + count_where (λ r. p r && q (f r)) rs
  count-update-le-add [] = omega arith
  count-update-le-add (r ∷ rs) = ground (arith, count-update-le-add rs)

  pub count-update_same :
      ((r : R) → p r ≡ true → q (f r) ≡ q r)
      → (rs : List R) → count_where q (update_where p f rs) ≡ count_where q rs
  count-update_same h [] = refl
  count-update_same h (r ∷ rs) = ground (arith, h r, count-update_same h rs)

  pub count-update_zero :
      ((r : R) → p r ≡ true → q (f r) ≡ false)
      → ((r : R) → p r ≡ false → q r ≡ false)
      → (rs : List R) → count_where q (update_where p f rs) ≡ 0
  count-update_zero h k [] = refl
  count-update_zero h k (r ∷ rs) = ground (arith, h r, k r, count-update_zero h k rs)

module _ {R : Type 0} (p q : R → Bool) where
  pub count-delete-le : (rs : List R) → count_where q (delete_where p rs) ≤ count_where q rs
  count-delete-le [] = omega arith
  count-delete-le (r ∷ rs) = ground (arith, count-delete-le rs)

  pub count-le :
      ((r : R) → p r ≡ true → q r ≡ true) → (rs : List R) → count_where p rs ≤ count_where q rs
  count-le h [] = omega arith
  count-le h (r ∷ rs) = ground (arith, h r, count-le h rs)

module _ {R : Type 0} (p : R → Bool) where
  pub count_zero : (rs : List R) → All (λ r. p r ≡ false) rs → count_where p rs ≡ 0
  count_zero [] h = refl
  count_zero (r ∷ rs) h = ground (arith, count_zero rs h.1)

  pub exists-count : (rs : List R) → exists_where p rs ≡ false → count_where p rs ≡ 0
  exists-count [] h = refl
  exists-count (r ∷ rs) h = ground (arith, exists-count rs)

  pub find-Member : (rs : List R) (r : R) → find_where p rs ≡ some r → Member r rs × (p r ≡ true)
  find-Member [] r h = cc
  find-Member (x ∷ rs) r h = ground (arith, find-Member rs r)

  pub find-none : (rs : List R) → find_where p rs ≡ none → All (λ r. p r ≡ false) rs
  find-none [] h = tt
  find-none (x ∷ rs) h = ground (arith, find-none rs)

module _ {R : Type 0} (P : R → Type 0) where
  pub All-Member : (rs : List R) (r : R) → All P rs → Member r rs → P r
  All-Member [] r h m = absurd m
  All-Member (x ∷ rs) r h m = elim m [ inl e ↦ rw e h.0 | inr m' ↦ All-Member rs r h.1 m' ]

  pub All-intro : (rs : List R) → ((r : R) → Member r rs → P r) → All P rs
  All-intro [] h = tt
  All-intro (x ∷ rs) h = (h x (inl refl), All-intro rs (λ r m. h r (inr m)))

module _ {R : Type 0} (p : R → Bool) (f : R → R) where
  -- An updated table consists of the images of the rows.
  pub update-Member :
      (rs : List R) (r : R)
      → Member r (update_where p f rs)
      → (x : R) × Member x rs × (r ≡ (if p x then f x else x))
  update-Member [] r m = absurd m
  update-Member (x ∷ rs) r m = elim m [
    | inl e ↦ (x, inl refl, e)
    | inr m' ↦ let (y, my, e) = update-Member rs r m' in (y, inr my, e)
  ]

  pub Member-update :
      (rs : List R) (x : R) → Member x rs → Member (if p x then f x else x) (update_where p f rs)
  Member-update [] x m = absurd m
  Member-update (y ∷ rs) x m = elim m [
    | inl e ↦ inl (ap (λ z. if p z then f z else z) e)
    | inr m' ↦ inr (Member-update rs x m')
  ]

  pub All-update :
      (P : R → Type 0)
      → ((r : R) → P r → P (if p r then f r else r))
      → (rs : List R) → All P rs
      → All P (update_where p f rs)
  All-update P h [] a = tt
  All-update P h (r ∷ rs) a = (h r a.0, All-update P h rs a.1)

module _ {R : Type 0} (p : R → Bool) where
  pub Member-select :
      (rs : List R) (r : R) → Member r rs → p r ≡ true → Member r (select_where p rs)
  Member-select [] r m h = absurd m
  Member-select (x ∷ rs) r m h = elim m [
    | inl e ↦ rw (← e, h, if◌then◌else◌) (inl refl)
    | inr m' ↦ elim (Bool-cases (p x)) [
      | inl t ↦ rw (t, if◌then◌else◌) (inr (Member-select rs r m' h))
      | inr t ↦ rw (t, if◌then◌else◌) (Member-select rs r m' h)
    ]
  ]

  pub select-Member :
      (rs : List R) (r : R) → Member r (select_where p rs) → Member r rs × (p r ≡ true)
  select-Member [] r m = absurd m
  select-Member (x ∷ rs) r m = ground (arith, select-Member rs r)

module _ {R : Type 0} (p : R → Bool) where
  pub Member-count : (rs : List R) (x : R) → Member x rs → p x ≡ true → 1 ≤ count_where p rs
  Member-count [] x m h = absurd m
  Member-count (y ∷ rs) x m h = elim m [
    | inl e ↦ rw (← e, h, if◌then◌else◌) (omega arith)
    | inr m' ↦ ground (arith, Member-count rs x m' h)
  ]

module _ {R : Type 0} (p : R → Bool) where
  pub count-exists : (rs : List R) → count_where p rs ≡ 0 → exists_where p rs ≡ false
  count-exists [] h = refl
  count-exists (r ∷ rs) h = ground (arith, count-exists rs)

  pub update_none : (f : R → R) (rs : List R) → count_where p rs ≡ 0 → update_where p f rs ≡ rs
  update_none f [] h = refl
  update_none f (r ∷ rs) h = ground (arith, update_none f rs)

-- What is read after an UPDATE that leaves alone what is asked about.
module _ {R : Type 0} (p q : R → Bool) (f : R → R) where
  pub find-update :
      ((r : R) → p r ≡ true → q (f r) ≡ q r)
      → (rs : List R)
      → find_where q (update_where p f rs)
        ≡ Option.map (λ r. if p r then f r else r) (find_where q rs)
  find-update h [] = refl
  find-update h (r ∷ rs) = ground (arith, h r, find-update h rs)

  pub select-update :
      ((r : R) → p r ≡ true → q (f r) ≡ false)
      → ((r : R) → p r ≡ true → q r ≡ false)
      → (rs : List R) → select_where q (update_where p f rs) ≡ select_where q rs
  select-update h k [] = refl
  select-update h k (r ∷ rs) = ground (arith, h r, k r, select-update h k rs)

pub map-update :
    {R : Type 0} {A : Type 0} (w : R → A) (p : R → Bool) (f : R → R)
    → ((r : R) → w (f r) ≡ w r)
    → (rs : List R) → map w (update_where p f rs) ≡ map w rs
map-update w p f h [] = refl
map-update w p f h (r ∷ rs) = ground (arith, h r, map-update w p f h rs)
