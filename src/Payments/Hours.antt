-- ===== src/Payments/Hours.antt =====
-- The hours that a refund takes off the plan.
use native.Mathlib.Nat.{le-div_iff_mul-le, lt-div-mul-add}
use yourcastbot.Payments.Refund.{debt_after, hours_for}
use yourcastbot.Prelude.{
  Bool-cases, arith, inl, inr, leb, min, pos, pos_part, suc, zero, ℕ, ℤ, ◌*◌, ◌+◌, ◌-◌, ◌/◌, ◌<◌,
  ◌≡◌, ◌≤◌, ◌⊎◌,
}
use yourcastbot.Tick.{price}

ceil_enough : (n p : ℕ) → 1 ≤ p → n ≤ (n + p - 1) / p * p
ceil_enough n p h = let l : n + p - 1 < (n + p - 1) / p * p + p = lt-div-mul-add h in omega arith

ceil_least : (n p k : ℕ) → 1 ≤ p → k < (n + p - 1) / p → k * p < n
ceil_least n p k h l = let m : suc k * p ≤ n + p - 1 = (le-div_iff_mul-le h).0 l in omega arith

-- The hours that a debt takes off a plan, at its price for a period.
pub record IsFewest (debt price period time_left hours : ℕ) (balance : ℤ) : Type 0 where
  pub at_most : hours ≤ time_left
  pub no_gain : pos_part balance ≡ 0
  -- The debt is paid, or the plan has no hours left.
  pub enough : (balance ≡ pos 0) ⊎ (hours ≡ time_left)
  -- One hour fewer would be worth less than the debt.
  pub fewest : (k : ℕ) → k < hours → k * price < debt * period

debt_after_no_gain :
    (debt price period hours : ℕ) → pos_part (debt_after debt price period hours) ≡ 0
debt_after_no_gain debt price period hours = ground arith

debt_after_zero :
    (debt price period hours : ℕ)
    → 1 ≤ period
    → debt * period ≤ hours * price
    → debt_after debt price period hours ≡ pos 0
debt_after_zero debt price period hours h l =
    let m : debt ≤ hours * price / period = (le-div_iff_mul-le h).1 l in ground arith

min_cases : (a b : ℕ) → (min a b ≡ b) ⊎ (min a b ≡ a)
min_cases a b = elim (Bool-cases (leb b a)) [
  | inl l ↦ inl (ground arith)
  | inr l ↦ inr (ground arith)
]

pays_or_all :
    (debt price period time_left : ℕ)
    → 1 ≤ price
    → 1 ≤ period
    → (debt_after debt price period (hours_for debt price period time_left) ≡ pos 0)
      ⊎ (hours_for debt price period time_left ≡ time_left)
pays_or_all debt price period time_left h j =
    elim (min_cases time_left ((debt * period + price - 1) / price)) [
      | inl e ↦ inl (
          rw (hours_for, e)
            (debt_after_zero debt price period ((debt * period + price - 1) / price) j
              (ceil_enough (debt * period) price h)))
      | inr e ↦ inr e
    ]

pub hours_for-IsFewest :
    (debt price period time_left : ℕ)
    → 1 ≤ price
    → 1 ≤ period
    → IsFewest debt price period time_left
        (hours_for debt price period time_left)
        (debt_after debt price period (hours_for debt price period time_left))
hours_for-IsFewest debt price period time_left h j = record {
  at_most = omega arith;
  no_gain = debt_after_no_gain debt price period (hours_for debt price period time_left);
  enough = pays_or_all debt price period time_left h j;
  fewest = λ k l. ceil_least (debt * period) price k h (omega arith);
}

product_pos : (d n : ℕ) → 1 ≤ d → 1 ≤ n → 1 ≤ d * n
product_pos zero n h k = absurd (omega arith)
product_pos (suc d) n h k = let e : suc d * n ≡ n + d * n = omega arith in omega arith

-- A debt takes an hour at least.
pub hours_for_some :
    (debt price period time_left : ℕ)
    → 1 ≤ debt
    → 1 ≤ price
    → 1 ≤ period
    → 1 ≤ time_left
    → 1 ≤ hours_for debt price period time_left
hours_for_some debt price period time_left d h j l =
    let n = product_pos debt period d j in
    let q : 1 ≤ (debt * period + price - 1) / price = (le-div_iff_mul-le h).1 (omega arith) in
    omega arith
