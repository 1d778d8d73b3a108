-- ===== src/Table/Best.antt =====
-- ORDER BY .. LIMIT 1 picks a row that no other candidate stands before.
use yourcastbot.Prelude.{
  ◌≡◌, Bool, true, false, none, some, List, [], ◌∷◌, inl, inr, arith, Member, Option-cases,
}
use yourcastbot.Table.{best_where}

-- A strict weak order: what ORDER BY needs of its comparison.
pub record IsOrder {R : Type 0} (before : R → R → Bool) : Type 0 where
  pub asym : (a b : R) → before a b ≡ true → before b a ≡ false
  pub neg_trans : (a b c : R) → before a b ≡ false → before b c ≡ false → before a c ≡ false

module _ {R : Type 0} (p : R → Bool) (before : R → R → Bool) where
  pub best-Member :
      (rs : List R) (r : R) → best_where p before rs ≡ some r → Member r rs × (p r ≡ true)
  best-Member [] r h = cc
  best-Member (x ∷ rs) r h = elim (Option-cases (best_where p before rs)) [
    | inl e ↦ ground arith
    | inr (b, e) ↦ ground (arith, best-Member rs b e)
  ]

  pub best-none : (rs : List R) (y : R) → best_where p before rs ≡ none → Member y rs → p y ≡ false
  best-none [] y h m = absurd m
  best-none (x ∷ rs) y h m = ground (arith, best-none rs y)

  -- Nothing that is selected stands before the best row.
  pub best-least :
      IsOrder before
      → (rs : List R) (r y : R) → best_where p before rs ≡ some r
      → Member y rs
      → p y ≡ true
      → before y r ≡ false
  best-least o [] r y h m e = absurd m
  best-least o (x ∷ rs) r y h m e = elim (Option-cases (best_where p before rs)) [
    | inl n ↦ ground (arith, best-none rs y n, o.asym x x)
    | inr (b, n) ↦ ground (arith, best-least o rs b y n, o.asym x x, o.asym b x, o.neg_trans y b x)
  ]
