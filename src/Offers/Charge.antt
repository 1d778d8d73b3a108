-- ===== src/Offers/Charge.antt =====
-- The charge of what is sold.
use native.Mathlib.Nat.{le_trans, mul-le-mul_left}
use yourcastbot.Offers.{
  Offer, bundle_discount, charged_cents, no_offer, offer_discount, unknown_offer, winback_offer,
}
use yourcastbot.Prelude.{arith, some, ℕ, ◌*◌, ◌+◌, ◌-◌, ◌/◌, ◌<◌, ◌≡◌, ◌≤◌}

-- The charge is the discounted price, rounded up to a cent.
pub record IsRounded (credit discount charge : ℕ) : Type 0 where
  pub enough : credit * (100 - discount) ≤ charge * 100
  pub nearest : charge * 100 < credit * (100 - discount) + 100
  pub at_most : charge ≤ credit

rounds : (n : ℕ) → (n ≤ (n + 99) / 100 * 100) × ((n + 99) / 100 * 100 < n + 100)
rounds n = (omega arith, omega arith)

share : (c k : ℕ) → k ≤ 100 → c * k ≤ c * 100
share c k h = mul-le-mul_left c h

charged_cents-IsRounded :
    (credit discount : ℕ) → IsRounded credit discount (charged_cents credit discount)
unfolding charged_cents
charged_cents-IsRounded credit discount =
    let (a, b) = rounds (credit * (100 - discount)) in
    let s = share credit (100 - discount) (omega arith) in
    record { enough = a; nearest = b; at_most = omega arith }

bundle-le : (months d : ℕ) → bundle_discount months ≡ some d → d ≤ 25
bundle-le months d h = ground arith

discount-le : (months d : ℕ) (o : Offer) → offer_discount months o ≡ some d → d ≤ 30
discount-le months d no_offer h = let l = bundle-le months d h in omega arith
discount-le months d winback_offer h = ground arith
discount-le months d unknown_offer h = cc

-- Whatever is sold, in whatever offer, is charged at its discounted price rounded up to a cent, never
-- above the price, and never more than 30 % under it.
pub offer_discount-charged_cents :
    (months credit d : ℕ) (o : Offer)
    → offer_discount months o ≡ some d
    → IsRounded credit d (charged_cents credit d) × (credit * 70 ≤ charged_cents credit d * 100)
offer_discount-charged_cents months credit d o h =
    let l = discount-le months d o h in
    let r = charged_cents-IsRounded credit d in
    let m : 70 ≤ 100 - d = omega arith in
    let k = mul-le-mul_left credit m in (r, le_trans k r.enough)
