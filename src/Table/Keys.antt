-- ===== src/Table/Keys.antt =====
-- A condition that at most one row meets, as a test on the primary key is.
use yourcastbot.Prelude.{
  Bool, List, Member, [], ap, arith, if◌then◌else◌, inl, inr, some, sym, true, ◌∙◌, ◌∷◌, ◌≡◌, ◌≤◌,
}
use yourcastbot.Table.{count_where, find_where}
use yourcastbot.Table.Laws.{Member-count}

module _ {R : Type 0} (p : R → Bool) where
  pub only_row :
      (rs : List R) (x y : R)
      → count_where p rs ≤ 1
      → Member x rs
      → Member y rs
      → p x ≡ true
      → p y ≡ true
      → y ≡ x
  only_row [] x y c m n ex ey = absurd m
  only_row (r ∷ rs) x y c m n ex ey = elim m [
    | inl a ↦ elim n [
      | inl b ↦ b ∙ sym a
      | inr n' ↦
          let er : p r ≡ true = rw (← a) ex in absurd (ground (arith, Member-count p rs y n' ey))
    ]
    | inr m' ↦ elim n [
      | inl b ↦
          let er : p r ≡ true = rw (← b) ey in absurd (ground (arith, Member-count p rs x m' ex))
      | inr n' ↦ ground (arith, only_row rs x y)
    ]
  ]

  pub find_only :
      (rs : List R) (x : R)
      → count_where p rs ≤ 1
      → Member x rs
      → p x ≡ true
      → find_where p rs ≡ some x
  find_only [] x c m e = absurd m
  find_only (r ∷ rs) x c m e = elim m [
    | inl a ↦ let er : p r ≡ true = rw (← a) e in rw (er, if◌then◌else◌) (ap some (sym a))
    | inr m' ↦ ground (arith, Member-count p rs x m' e, find_only rs x)
  ]
