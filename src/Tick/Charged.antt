-- ===== src/Tick/Charged.antt =====
-- Who is charged, who is told, and who keeps a plan.
use mathlib.Core.Path.{subst}
use yourcastbot.Grants.{Plan, Store, User}
use yourcastbot.Prelude.{
  +ℤ_zero, -ℤ-+ℤ, Bool-cases, List, Member, [], ap, arith, false, if◌then◌else◌, inl, inr, map, not,
  or_else, pos, refl, sym, true, ℕ, ◌+ℤ◌, ◌<◌, ◌∙◌, ◌∷◌, ◌≡◌, ◌≤◌,
}
use yourcastbot.Table.{count_where, exists_where, find_where}
use yourcastbot.Table.Laws.{Member-select, select-Member}
use yourcastbot.Tick.{
  affords, is_alive, is_due, is_frozen, is_held_by_grant, is_id, is_marked, is_prolonged, price,
  prolong, run_tariff_tick,
}
use yourcastbot.Tick.Hour.{hour, is_payable, run_tariff_tick_lem, spend}

-- Every plan row is of a user, whose id stands once.
abbrev pub HasUsers : Store → Type 0
HasUsers s = (p : Plan) → Member p s.plans → count_where (is_id p.uid) s.users ≡ 1

none_marked :
    (us : List User) (i : ℕ) → count_where (is_id i) us ≡ 0 → exists_where (is_marked i) us ≡ false
none_marked [] i c = refl
none_marked (x ∷ xs) i c = ground (arith, none_marked xs i)

alive_frozen :
    (us : List User) (i : ℕ)
    → count_where (is_id i) us ≡ 1
    → is_alive (find_where (is_id i) us) ≡ not (exists_where (is_marked i) us)
alive_frozen [] i c = absurd (ground arith)
alive_frozen (x ∷ xs) i c = ground (arith, alive_frozen xs i, none_marked xs i)

told_due : (s : Store) (p : Plan) → HasUsers s → Member p s.plans → is_prolonged s p ≡ is_due s p
told_due s p h m = rw (alive_frozen s.users p.uid (h p m)) refl

prolonged-balance :
    (period : ℕ) (s : Store) (p : Plan)
    → (prolong period s p).balance +ℤ pos (or_else (price s p) 0) ≡ p.balance
prolonged-balance period s p = -ℤ-+ℤ p.balance (pos (or_else (price s p) 0))

due_split :
    (s : Store) (p : Plan) → is_due s p ≡ true → (is_frozen s p ≡ false) × (is_payable s p ≡ true)
due_split s p d = ground arith

spend-balance : (p : Plan) → (spend p).balance ≡ p.balance
spend-balance p = ground arith

due_charged :
    (period : ℕ) (s : Store) (p : Plan)
    → is_due s p ≡ true
    → (hour period s p).balance +ℤ pos (or_else (price s p) 0) ≡ p.balance
due_charged period s p d =
    let (f, y) = due_split s p d in
    rw (f, y, if◌then◌else◌, spend-balance (prolong period s p)) (prolonged-balance period s p)

not_due_kept :
    (period : ℕ) (s : Store) (p : Plan) → is_due s p ≡ false → (hour period s p).balance ≡ p.balance
not_due_kept period s p d = elim (Bool-cases (is_frozen s p)) [
  | inl f ↦ rw (f, if◌then◌else◌) refl
  | inr f ↦
      let n : is_payable s p ≡ false = ground arith in rw (f, n, if◌then◌else◌) (spend-balance p)
]

Member-hour : (f : Plan → Plan) (ps : List Plan) (p : Plan) → Member p ps → Member (f p) (map f ps)
Member-hour f [] p m = absurd m
Member-hour f (x ∷ xs) p m = elim m [ inl e ↦ inl (ap f e) | inr k ↦ inr (Member-hour f xs p k) ]

-- The row after the tick stands in the table, with `cost` less on its balance.
pub record IsCharged (period : ℕ) (s : Store) (p : Plan) (cost : ℕ) : Type 0 where
  pub stands : Member (hour period s p) (run_tariff_tick period s).store.plans
  pub paid : (hour period s p).balance +ℤ pos cost ≡ p.balance

stays-Member :
    (period : ℕ) (s : Store) (p : Plan)
    → Member p s.plans
    → Member (hour period s p) (run_tariff_tick period s).store.plans
stays-Member period s p m =
    subst (λ (t : Store). Member (hour period s p) t.plans) (sym (run_tariff_tick_lem period s))
      (Member-hour (hour period s) s.plans p m)

-- Where every plan row has its one user: a row that is reported as renewed pays its tariff's price
-- in the same tick, and a row that is not reported pays nothing.
pub run_tariff_tick-IsCharged :
    (period : ℕ) (s : Store) (p : Plan)
    → HasUsers s
    → Member p s.plans
    → (Member p (run_tariff_tick period s).prolonged → IsCharged period s p (or_else (price s p) 0))
      × ((Member p (run_tariff_tick period s).prolonged → ⊥) → IsCharged period s p 0)
unfolding run_tariff_tick
run_tariff_tick-IsCharged period s p h m =
    let same = told_due s p h m in
    (
      λ told. record {
        stands = stays-Member period s p m;
        paid =
            due_charged period s p (sym same ∙ (select-Member (is_prolonged s) s.plans p told).1);
      },
      λ untold. record {
        stands = stays-Member period s p m;
        paid = elim (Bool-cases (is_due s p)) [
          | inl d ↦ absurd (untold (Member-select (is_prolonged s) s.plans p m (same ∙ d)))
          | inr d ↦ +ℤ_zero (hour period s p).balance ∙ not_due_kept period s p d
        ];
      },
    )

-- A plan whose tariff the balance pays, of a user who is not deleted and holds no grant, has time
-- left after every tick, whatever it had before, for a period of two hours or more.
pub run_tariff_tick-time_left :
    (period : ℕ) (s : Store) (p : Plan)
    → 2 ≤ period
    → affords (price s p) p.balance ≡ true
    → is_frozen s p ≡ false
    → is_held_by_grant s p ≡ false
    → Member p s.plans
    → (0 < (hour period s p).time_left)
      × Member (hour period s p) (run_tariff_tick period s).store.plans
run_tariff_tick-time_left period s p two pays alive free m =
    ((rw (alive, pays, free, if◌then◌else◌) (ground arith)), stays-Member period s p m)
