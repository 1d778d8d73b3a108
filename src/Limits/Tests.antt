-- ===== src/Limits/Tests.antt =====
-- Runs of the limits on a small ledger, and the theorems at concrete inputs.
use yourcastbot.Limits.{may, wait, window_check}
use yourcastbot.Limits.AiQuota.{check}
use yourcastbot.Limits.Asks.{IsUnder, Question, ask_all, ask_all-IsUnder}
use yourcastbot.Limits.Clicks.{Clicks, IsWithin, Op, deliver, steps, steps-IsWithin, tap}
use yourcastbot.Limits.Hours.{Affords, check_iff}
use yourcastbot.Limits.Wait.{wait_exact}
use yourcastbot.Plan.{Entitlements, for_plan, profile}
use yourcastbot.Prelude.{List, [], arith, none, refl, true, ℕ, ◌+◌, ◌<◌, ◌↔◌, ◌∷◌, ◌≡◌, ◌≢◌, ◌≤◌}
use yourcastbot.Usage.{Event, delivery, rec}

-- Chat 5 had episode 1 at 100 and again at 500, and episode 2 at 300.
abbrev ledger : List Event
ledger = delivery rec 1 100 5 ∷ delivery rec 2 300 5 ∷ delivery rec 1 500 5 ∷ []

-- A paid Silver of 3 dollars.
abbrev silver : Entitlements
silver = for_plan [] 2 true 300 none

abbrev clicks : Clicks
clicks = record { events = ledger; waiting = 3 ∷ [] }

abbrev taps : List (ℕ × Op)
taps = (600, tap 4) ∷ (610, deliver 3) ∷ (620, tap 5) ∷ (1400, tap 6) ∷ []

abbrev asks : List Question
asks = record { at = 700; ref = 1; cost = 9 } ∷ record { at = 800; ref = 1; cost = 9 } ∷ []

refused : window_check 5 3 [] 2 1000 600 ledger ≡ wait 700
unfolding window_check
refused = refl

tapped_once : (steps 5 4 1000 taps clicks).waiting ≡ 6 ∷ 4 ∷ []
unfolding window_check
tapped_once = refl

steps-IsWithin_example : IsWithin 5 4 1000 2000 (steps 5 4 1000 taps clicks)
steps-IsWithin_example =
    steps-IsWithin 5 4 1000 550 2000 taps clicks
      (omega arith, (omega arith, (omega arith, (omega arith, omega arith)))) (omega arith)

wait_exact_example :
    (600 + 700 < 1301 → window_check 5 3 [] 2 1000 1301 ledger ≡ may)
    × (60 < 700 → 1301 ≤ 600 + 700 → window_check 5 3 [] 2 1000 1301 ledger ≢ may)
wait_exact_example =
    wait_exact 5 3 2 1000 600 700 1301 ledger (omega arith) (omega arith) refused (omega arith)

silver-IsUnder : IsUnder silver 5 600 ledger
unfolding for_plan profile
silver-IsUnder = record { day = omega arith; month = λ k. omega arith }

ask_all-IsUnder_example : IsUnder silver 5 900 (ask_all silver 5 asks ledger)
ask_all-IsUnder_example =
    ask_all-IsUnder silver 5 600 900 asks ledger (omega arith, (omega arith, omega arith))
      silver-IsUnder

silver-ai : silver.features.ai ≡ true
unfolding for_plan profile
silver-ai = refl

check_iff_example :
    ((check silver 5 3600 7200 600 ledger).is_allowed ≡ true)
    ↔ Affords silver 5 3600 7200 600 ledger
check_iff_example = check_iff silver 5 3600 7200 600 ledger
