-- ===== src/Limits/Hours.antt =====
-- New summaries: the hours of the plan and its budget.
use yourcastbot.Limits.AiQuota.{
  Budget, Quota, budget, cent_share, check, cost_of, fits, hours_limit, in_budget, quota_seconds,
}
use yourcastbot.Plan.{Entitlements}
use yourcastbot.Prelude.{
  Bool, List, arith, false, if◌then◌else◌, leb, leb→le, ltb, none, not, refl, some, true, ℕ, ◌&&◌,
  ◌*◌, ◌+◌, ◌<◌, ◌↔◌, ◌≡◌, ◌≤◌,
}
use yourcastbot.Usage.{Event, ai_spent_since}

-- What a plan's numbers allow, in plain arithmetic.
pub record Affords (rights : Entitlements) (u needed used now : ℕ) (es : List Event) : Type 0 where
  pub with_ai : rights.features.ai ≡ true
  pub hours : used + needed ≤ rights.features.ai_hours * 3600
  pub some_hours : 0 < rights.features.ai_hours
  pub money :
      rights.features.ai_budget ≡ true
      → 0 < rights.price
      → ai_spent_since u quota_seconds now es + cost_of needed ≤ rights.price * cent_share

chosen_fits :
    (b c : Bool) (x : Budget) (cost : ℕ)
    → in_budget (if b && c then some x else none) cost ≡ true
    → b ≡ true
    → c ≡ true
    → fits x cost ≡ true
chosen_fits true true x cost h k l = h
chosen_fits true false x cost h k l = cc
chosen_fits false c x cost h k l = cc

chosen_budget :
    (b c : Bool) (x : Budget) (cost : ℕ)
    → (b ≡ true → c ≡ true → fits x cost ≡ true)
    → in_budget (if b && c then some x else none) cost ≡ true
chosen_budget true true x cost h = h refl refl
chosen_budget true false x cost h = refl
chosen_budget false c x cost h = refl

-- The Boolean tests of `check`, one by one.
refused_by :
    (ok b fit : Bool) (x y : Quota)
    → x.is_allowed ≡ false
    → y.is_allowed ≡ ok
    → ((if ok && (b && not fit) then x else y).is_allowed ≡ true)
      ↔ ((ok ≡ true) × (b ≡ true → fit ≡ true))
refused_by true true true x y h k = (λ e. (refl, λ _. refl), λ e. k)
refused_by true true false x y h k = (λ e. cc, λ e. absurd (ground (arith, e.1 refl)))
refused_by true false fit x y h k = (λ e. (refl, λ d. cc), λ e. k)
refused_by false b fit x y h k = (λ e. cc, λ e. cc)

abbrev within_hours : Entitlements → ℕ → ℕ → Bool
within_hours rights needed used =
    ltb 0 (hours_limit rights) && leb (used + needed) (hours_limit rights)

within_iff :
    (rights : Entitlements) (needed used : ℕ) (b : Bool)
    → rights.features.ai ≡ b
    → (within_hours rights needed used ≡ true) ↔ (
        (b ≡ true)
        × (0 < rights.features.ai_hours)
        × (used + needed ≤ rights.features.ai_hours * 3600))
within_iff rights needed used true e = rw (e, if◌then◌else◌) (ground arith)
within_iff rights needed used false e = rw (e, if◌then◌else◌) (ground arith)

check_tests :
    (rights : Entitlements) (u needed used now : ℕ) (es : List Event)
    → ((check rights u needed used now es).is_allowed ≡ true) ↔ (
        (within_hours rights needed used ≡ true)
        × (rights.features.ai_budget ≡ true
            → in_budget (budget rights u now es) (cost_of needed) ≡ true))
unfolding check
check_tests rights u needed used now es =
    refused_by (within_hours rights needed used) rights.features.ai_budget
      (in_budget (budget rights u now es) (cost_of needed)) _ _ refl refl

-- A new summary is allowed exactly when the plan has AI and hours, the seconds used in the last 30
-- days and those needed stay within the hours, and, where the profile has a budget and the plan a
-- price, the AI's cost of the last 30 days and the reckoned cost stay within the price's share.
pub check_iff :
    (rights : Entitlements) (u needed used now : ℕ) (es : List Event)
    → ((check rights u needed used now es).is_allowed ≡ true) ↔ Affords rights u needed used now es
check_iff rights u needed used now es =
    let tests = check_tests rights u needed used now es in
    let hours = within_iff rights needed used rights.features.ai refl in
    (
      λ e.
          let (w, b) = tests.0 e in
          let (a, some_h, h) = hours.0 w in
          record {
            with_ai = a;
            hours = h;
            some_hours = some_h;
            money = λ k p.
                leb→le (ai_spent_since u quota_seconds now es + cost_of needed)
                  (rights.price * cent_share)
                  (chosen_fits rights.features.ai_budget (ltb 0 rights.price) _ (cost_of needed)
                    (b k) k (ground arith));
          },
      λ a. tests.1 (
        hours.1 (a.with_ai, a.some_hours, a.hours),
        λ k.
            chosen_budget rights.features.ai_budget (ltb 0 rights.price) _ (cost_of needed)
              (λ b p. let le = a.money b (ground arith) in ground arith),
      ),
    )
