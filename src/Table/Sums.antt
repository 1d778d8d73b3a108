-- ===== src/Table/Sums.antt =====
-- Weights of the rows, summed, under an update.
use yourcastbot.Prelude.{
  Bool, List, Member, [], arith, inl, inr, refl, true, ℕ, ◌+◌, ◌<◌, ◌∷◌, ◌≡◌, ◌≤◌,
}
use yourcastbot.Table.{update_where}

module _ {R : Type 0} (w : R → ℕ) where
  abbrev pub total : List R → ℕ
  total [] = 0
  total (r ∷ rs) = w r + total rs

  pub total-update-le :
      (p : R → Bool) (f : R → R) (rs : List R)
      → ((r : R) → Member r rs → p r ≡ true → w (f r) ≤ w r)
      → total (update_where p f rs) ≤ total rs
  total-update-le p f [] h = omega arith
  total-update-le p f (r ∷ rs) h =
      ground (arith, h r (inl refl), total-update-le p f rs (λ x m. h x (inr m)))

  -- The sum falls if one updated row's weight falls and none rises.
  pub total-update-lt :
      (p : R → Bool) (f : R → R) (rs : List R) (x : R)
      → ((r : R) → Member r rs → p r ≡ true → w (f r) ≤ w r)
      → Member x rs
      → p x ≡ true
      → w (f x) < w x
      → total (update_where p f rs) < total rs
  total-update-lt p f [] x h m e l = absurd m
  total-update-lt p f (r ∷ rs) x h m e l = elim m [
    | inl q ↦
        let le = total-update-le p f rs (λ y k. h y (inr k)) in
        let e' : p r ≡ true = rw (← q) e in let l' : w (f r) < w r = rw (← q) l in ground arith
    | inr m' ↦ ground (arith, h r (inl refl), total-update-lt p f rs x (λ y k. h y (inr k)) m' e l)
  ]
