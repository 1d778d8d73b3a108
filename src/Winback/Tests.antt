-- ===== src/Winback/Tests.antt =====
-- A chat whose plan stopped, two workers, and the theorem at them.
use yourcastbot.Prelude.{List, [], arith, none, refl, some, ℕ, ◌∷◌, ◌≡◌}
use yourcastbot.Winback.{Row, claim, due, forget, give_back, messages_sent, start}
use yourcastbot.Winback.Claims.{Took, claim_all, claim_all-Took}

abbrev row : Row
row = record { user_telegram_id = 7; ended_at = 100; stage = 0 }

abbrev rows : List Row
rows = row ∷ record { user_telegram_id = 8; ended_at = 90; stage = 1 } ∷ []

due_first : due (50 ∷ 500 ∷ []) 200 rows ≡ (7, 0) ∷ []
unfolding due
due_first = refl

-- Both workers call for the first message; then the second is claimed.
abbrev calls : List (ℕ × ℕ)
calls = (7, 0) ∷ (7, 0) ∷ (8, 1) ∷ (7, 1) ∷ []

taken_once : (claim_all 7 calls rows).0 ≡ 0 ∷ 1 ∷ []
unfolding claim
taken_once = refl

restarted : messages_sent 7 (start 7 900 (claim_all 7 calls rows).1) ≡ some 0
unfolding messages_sent start claim
restarted = refl

given_back : messages_sent 8 (give_back 8 0 rows) ≡ some 0
unfolding messages_sent give_back
given_back = refl

forgotten : messages_sent 7 (forget 7 rows) ≡ none
unfolding messages_sent forget
forgotten = refl

claim_all-Took_example : Took 7 row (claim_all 7 calls rows).0 (claim_all 7 calls rows).1
claim_all-Took_example = claim_all-Took 7 calls rows row (omega arith) refl
