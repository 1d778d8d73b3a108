-- ===== src/Offers.antt =====
-- app/service/payment/offers.py and storefront.py: what a plan is sold for, and in what order the
-- plans are shown. Prices are cents; what the database says of a user is a parameter.
pub mod Charge
pub mod Order
mod Tests
use yourcastbot.Prelude.{
  Bool, List, Option, [], false, if◌then◌else◌, ltb, none, not, some, true, ℕ, ◌&&◌, ◌*◌, ◌++◌, ◌+◌,
  ◌-◌, ◌/◌, ◌==◌, ◌||◌, ◌∷◌,
}
use yourcastbot.Table.{select_where}

-- Relay's level
abbrev pub showcase_tariff_level : ℕ
showcase_tariff_level = 3

abbrev pub prepay_bundles : List (ℕ × ℕ)
prepay_bundles = (3, 10) ∷ (6, 15) ∷ (12, 25) ∷ []

abbrev pub winback_offer_discount : ℕ
winback_offer_discount = 30

abbrev pub bundle_of : List (ℕ × ℕ) → ℕ → Option ℕ
bundle_of [] months = none
bundle_of ((m, d) ∷ l) months = if m == months then some d else bundle_of l months

abbrev pub bundle_discount : ℕ → Option ℕ
bundle_discount months = if months == 1 then some 0 else bundle_of prepay_bundles months

-- The payload's "o": none, WINBACK_OFFER, or a text that a forged payload may hold.
pub data Offer : Type 0 where
  no_offer : Offer
  winback_offer : Offer
  unknown_offer : Offer

abbrev pub offer_discount : ℕ → Offer → Option ℕ
offer_discount months winback_offer = if months == 1 then some winback_offer_discount else none
offer_discount months unknown_offer = none
offer_discount months no_offer = bundle_discount months

-- Python's floor of the negated product, negated: rounded up.
unfoldable pub charged_cents : ℕ → ℕ → ℕ
charged_cents credit_cents discount = (credit_cents * (100 - discount) + 99) / 100

abbrev pub prepaid_months_sold : ℕ → Bool → Bool
prepaid_months_sold current_level plan_running =
    current_level == showcase_tariff_level || not plan_running

-- The user's flags WINBACK_OFFER_FLAG and OFFER_SENT_FLAG, and `winback.messages_sent`.
pub record Sent : Type 0 where
  pub is_used : Bool
  pub is_sent : Bool
  pub has_messages : Bool

abbrev pub offer_open : Sent → Offer → Bool
offer_open user no_offer = true
offer_open user unknown_offer = false
offer_open user winback_offer =
    if user.is_used then false else if user.is_sent then true else user.has_messages

pub record Sku : Type 0 where
  pub id : ℕ
  pub level : ℕ
  pub price : ℕ

abbrev pub seen : ℕ → List ℕ → Bool
seen i [] = false
seen i (j ∷ js) = if i == j then true else seen i js

-- The loop of `tariffs_for_change_plan`, with the ids seen so far.
abbrev pub visible_after : List ℕ → List Sku → List Sku
visible_after ids [] = []
visible_after ids (t ∷ ts) =
    let rest = visible_after ids ts in
    let more = visible_after (t.id ∷ ids) ts in
    if t.id == 0 || seen t.id ids then rest else t ∷ more

unfoldable pub tariffs_for_change_plan : List Sku → List Sku
tariffs_for_change_plan tariffs = visible_after [] tariffs

abbrev pub is_showcase : Sku → Bool
is_showcase t = t.level == showcase_tariff_level

abbrev pub is_current : ℕ → Sku → Bool
is_current i t = not (is_showcase t) && t.id == i

abbrev pub is_rest : ℕ → Sku → Bool
is_rest i t = not (is_showcase t) && not (t.id == i)

abbrev pub is_priced : Sku → Bool
is_priced t = ltb 0 t.price

abbrev pub or_list : List Sku → List Sku → List Sku
or_list [] other = other
or_list (t ∷ ts) other = t ∷ ts

abbrev pub ordered : ℕ → List Sku → List Sku
ordered i rows =
    select_where is_showcase rows
    ++ select_where (is_current i) rows
    ++ select_where (is_rest i) rows

abbrev pub storefront_rows : ℕ → List Sku → List Sku
storefront_rows i rows = or_list (ordered i rows) (or_list (select_where is_priced rows) rows)

unfoldable pub tariffs_for_storefront : ℕ → List Sku → List Sku
tariffs_for_storefront current_tariff_id tariffs =
    storefront_rows current_tariff_id (tariffs_for_change_plan tariffs)
