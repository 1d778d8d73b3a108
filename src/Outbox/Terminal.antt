-- ===== src/Outbox/Terminal.antt =====
-- A finished job stays finished, and an open one is never lost: what every operation but
-- `purge_old` does to the rows that stand in the table.
pub mod Ops
pub mod Runs
-- A table after an operation: the finished rows stand in it as they were, and every row still
-- has its place.
use mathlib.Core.Path.{subst}
use yourcastbot.Outbox.{Row, is_legacy, is_open, split}
use yourcastbot.Outbox.Safety.{IsSound}
use yourcastbot.Prelude.{
  Bool, List, Member, [], ap, arith, false, if◌then◌else◌, inl, inr, map, refl, true, ◌++◌, ◌∷◌,
  ◌≡◌,
}
use yourcastbot.Table.{update_where}
use yourcastbot.Table.Laws.{All-Member, Member-update}

pub record Transition (rs rs' : List Row) : Type 0 where
  pub closed : (r : Row) → Member r rs → is_open r.status ≡ false → Member r rs'
  pub kept :
      (r : Row)
      → Member r rs
      → (x : Row) × Member x rs' × (x.id ≡ r.id) × (x.user_id ≡ r.user_id) × (x.action ≡ r.action)

pub Transition-refl : (rs : List Row) → Transition rs rs
Transition-refl rs = record { closed = λ r m c. m; kept = λ r m. (r, m, refl, refl, refl) }

Member-split : (rs : List Row) (r : Row) → Member r rs → Member (split r) (map split rs)
Member-split [] r m = absurd m
Member-split (x ∷ rs) r m = elim m [
  | inl e ↦ inl (ap split e)
  | inr m' ↦ inr (Member-split rs r m')
]

split_same : (r : Row) → is_legacy r ≡ false → split r ≡ r
split_same r h = ground arith

Member-split_same :
    (rs : List Row) (r : Row) → is_legacy r ≡ false → Member r rs → Member r (map split rs)
Member-split_same rs r h m =
    subst (λ x. Member x (map split rs)) (split_same r h) (Member-split rs r m)

same_legacy :
    (x r : Row)
    → x.user_id ≡ r.user_id
    → x.action ≡ r.action
    → is_legacy r ≡ false
    → is_legacy x ≡ false
same_legacy x r u a h = rw (u, a) h

pub split-Transition :
    (rs rs' : List Row) → IsSound rs → Transition rs rs' → Transition rs (map split rs')
split-Transition rs rs' h t = record {
  closed = λ r m c. Member-split_same rs' r (All-Member _ rs r h.up_to_date m) (t.closed r m c);
  kept = λ r m.
      let (x, mx, i, u, a) = t.kept r m in
      (
        x,
        Member-split_same rs' x (same_legacy x r u a (All-Member _ rs r h.up_to_date m)) mx,
        i,
        u,
        a,
      );
}

module _ (p : Row → Bool) (f : Row → Row) (rs : List Row)
    (skips : (r : Row) → Member r rs → is_open r.status ≡ false → p r ≡ false)
    (same : (r : Row)
      → ((f r).id ≡ r.id) × ((f r).user_id ≡ r.user_id) × ((f r).action ≡ r.action)) where
  image :
      (r : Row) (b : Bool)
      → ((if b then f r else r).id ≡ r.id)
        × ((if b then f r else r).user_id ≡ r.user_id)
        × ((if b then f r else r).action ≡ r.action)
  image r true = same r
  image r false = (refl, refl, refl)

  pub update-Transition : Transition rs (update_where p f rs)
  update-Transition = record {
    closed = λ r m c.
        subst (λ b. Member (if b then f r else r) (update_where p f rs)) (skips r m c)
          (Member-update p f rs r m);
    kept = λ r m.
        let (i, u, a) = image r (p r) in
        (if p r then f r else r, Member-update p f rs r m, i, u, a);
  }

pub Member-append : (rs ys : List Row) (r : Row) → Member r rs → Member r (rs ++ ys)
Member-append [] ys r m = absurd m
Member-append (x ∷ rs) ys r m = elim m [ inl e ↦ inl e | inr m' ↦ inr (Member-append rs ys r m') ]

pub append-Transition : (rs ys : List Row) → Transition rs (rs ++ ys)
append-Transition rs ys = record {
  closed = λ r m c. Member-append rs ys r m;
  kept = λ r m. (r, Member-append rs ys r m, refl, refl, refl);
}
