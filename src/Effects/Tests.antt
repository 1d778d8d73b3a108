-- ===== src/Effects/Tests.antt =====
-- Effects of two payments, and the theorem at them.
use yourcastbot.Effects.{Effect, new_effect, payment_key, queue}
use yourcastbot.Effects.Ends.{HasEnded, IsKeyed, run_due-HasEnded}
use yourcastbot.Effects.Run.{run_due}
use yourcastbot.Prelude.{
  List, Option, [], arith, if◌then◌else◌, none, refl, some, ℕ, ◌==◌, ◌∷◌, ◌≡◌,
}

abbrev rows : List Effect
rows = new_effect 1 (payment_key 5) 1 0 100 ∷ new_effect 2 (payment_key 6) 2 0 100 ∷ []

queued : queue 2 (payment_key 6) 100 (queue 1 (payment_key 5) 100 []) ≡ rows
unfolding queue
queued = refl

queued_again : queue 1 (payment_key 5) 200 rows ≡ rows
unfolding queue
queued_again = refl

-- The handler raises for the user 2.
abbrev handler : Effect → Option ℕ
handler e = if e.user_id == 2 then some 13 else none

rows-IsKeyed : IsKeyed rows
rows-IsKeyed i = ground arith

run_due-HasEnded_example : HasEnded 200 2 (run_due 3 handler 200 rows)
run_due-HasEnded_example = run_due-HasEnded 3 handler 200 rows (omega arith) rows-IsKeyed
