-- ===== src/Offers/Tests.antt =====
-- The storefront of four rows, and the theorems at concrete inputs.
use yourcastbot.Offers.{
  Sku, charged_cents, no_offer, tariffs_for_change_plan, tariffs_for_storefront,
}
use yourcastbot.Offers.Charge.{IsRounded, offer_discount-charged_cents}
use yourcastbot.Offers.Order.{IsStorefront, tariffs_for_storefront-IsStorefront}
use yourcastbot.Prelude.{List, [], if◌then◌else◌, refl, ℕ, ◌*◌, ◌==◌, ◌∷◌, ◌≡◌, ◌≤◌}
use yourcastbot.Table.{count_where, exists_where}

abbrev row : ℕ → ℕ → Sku
row i level = record { id = i; level = level; price = 100 * level }

-- Row 5 comes twice; the chat has plan 4.
abbrev live : List Sku
live = row 0 0 ∷ row 5 2 ∷ row 4 1 ∷ row 5 2 ∷ row 6 3 ∷ []

shown : tariffs_for_storefront 4 live ≡ row 6 3 ∷ row 4 1 ∷ row 5 2 ∷ []
unfolding tariffs_for_storefront tariffs_for_change_plan
shown = refl

charge : charged_cents 999 15 ≡ 850
unfolding charged_cents
charge = refl

offer_discount-charged_cents_example :
    IsRounded 999 15 (charged_cents 999 15) × (999 * 70 ≤ charged_cents 999 15 * 100)
offer_discount-charged_cents_example = offer_discount-charged_cents 6 999 15 no_offer refl

tariffs_for_storefront-IsStorefront_example :
    IsStorefront 4 (tariffs_for_change_plan live) (tariffs_for_storefront 4 live)
    × ((n : ℕ)
        → count_where (λ t. t.id == n) (tariffs_for_storefront 4 live)
          ≡ (if n == 0 then 0 else if exists_where (λ t. t.id == n) live then 1 else 0))
tariffs_for_storefront-IsStorefront_example = tariffs_for_storefront-IsStorefront 4 live
