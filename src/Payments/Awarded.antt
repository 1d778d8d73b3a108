-- ===== src/Payments/Awarded.antt =====
-- What one write of a plan for an award leaves.
use yourcastbot.Grants.{Plan, Store, Tariff, active}
use yourcastbot.Grants.Hold.{end}
use yourcastbot.Grants.Start.{plan_of}
use yourcastbot.Payments.Award.{gave, longer, put_on, tariff_ref_period}
use yourcastbot.Payments.Frame.{KeepsOthers, plan_row}
use yourcastbot.Payments.Write.{Write, inserts, raises, subscribe-Write, updates}
use yourcastbot.Prelude.{
  Bool-cases, Option, arith, false, inl, inr, none, refl, some, ℕ, ℤ, ◌&&◌, ◌+◌, ◌==◌, ◌≡◌, ◌≢◌,
  ◌⊎◌,
}

abbrev pub hours_of : Option Plan → ℕ
hours_of none = 0
hours_of (some p) = p.time_left

-- What an award leaves, from a balance and with a number of hours.
pub record IsKept (u : ℕ) (balance : ℤ) (left : ℕ) (s t : Store) : Type 0 where
  pub row : Plan
  pub found : plan_of u t ≡ some row
  pub same_balance : row.balance ≡ balance
  pub exact : row.time_left ≡ left
  pub others : KeepsOthers u s t

-- No grant runs where none ran before.
stays_off : (u : ℕ) (s t : Store) → t.grants ≡ s.grants → active u s ≡ none → active u t ≡ none
stays_off u s t e n = rw (e) n

-- What an award on a store leaves.
abbrev pub IsAwarded : ℕ → ℤ → ℕ → Store → Store → Type 0
IsAwarded u balance left s t = IsKept u balance left s t × (active u s ≡ none → active u t ≡ none)

gave-IsAwarded :
    (u tariff : ℕ) (balance : ℤ) (time_left : ℕ) (notify : Option ℤ) (now : ℕ) (s : Store)
    (r : Option Store)
    → Write u tariff balance time_left notify now s r
    → (gave r s).0 ≡ false
    → IsAwarded u balance time_left s (gave r s).1
unfolding end
gave-IsAwarded u tariff balance time_left notify now s _ (raises a b) e = absurd cc
gave-IsAwarded u tariff balance time_left notify now s _ (inserts t n k c f o g) e = (
  record {
    row = plan_row u tariff balance time_left (some n);
    found = f;
    same_balance = refl;
    exact = refl;
    others = o;
  },
  stays_off u s t g,
)
gave-IsAwarded u tariff balance time_left notify now s _ (updates t p k f o same ends) e = (
  record {
    row = plan_row u tariff balance time_left notify;
    found = f;
    same_balance = refl;
    exact = refl;
    others = o;
  },
  λ n. elim (Bool-cases (p.tariff_id == tariff && p.time_left == time_left)) [
    | inl y ↦ stays_off u s t (same (ground arith) (ground arith)) n
    | inr y ↦
        let d : (p.tariff_id ≢ tariff) ⊎ (p.time_left ≢ time_left) = ground arith in
        rw (ends d, n) n
  ],
)

pub put-IsAwarded :
    (o : Option Tariff) (u : ℕ) (balance : ℤ) (time_left now : ℕ) (s : Store)
    → (put_on o u balance time_left now s).0 ≡ false
    → IsAwarded u balance time_left s (put_on o u balance time_left now s).1
put-IsAwarded none u balance time_left now s e = absurd cc
put-IsAwarded (some t) u balance time_left now s e =
    gave-IsAwarded u t.id balance time_left (some t.notify_count) now s _
      (subscribe-Write u t.id balance time_left (some t.notify_count) now s) e

pub longer-IsAwarded :
    (o : Option ℤ) (p : Plan) (u now : ℕ) (s : Store)
    → (longer o p u now s).0 ≡ false
    → IsAwarded u p.balance (p.time_left + tariff_ref_period) s (longer o p u now s).1
longer-IsAwarded none p u now s e = absurd cc
longer-IsAwarded (some n) p u now s e =
    gave-IsAwarded u p.tariff_id p.balance (p.time_left + tariff_ref_period) (some n) now s _
      (subscribe-Write u p.tariff_id p.balance (p.time_left + tariff_ref_period) (some n) now s) e
