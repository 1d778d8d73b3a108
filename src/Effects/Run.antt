-- ===== src/Effects/Run.antt =====
-- `run_due` of app/jobs/payment_effects.py. What a handler does to the row's user is a parameter:
-- the error that it raises, or none. The pass has one time, where the
-- source reads the clock again for each row.
use yourcastbot.Effects.{Effect, claim, finish}
use yourcastbot.Outbox.{Status, failed}
use yourcastbot.Prelude.{List, Option, [], none, some, suc, zero, ℕ, ◌+◌, ◌∷◌}

pub record Pass : Type 0 where
  pub ran : ℕ
  -- The effects that failed for good, whom the creator is told of.
  pub told : List Effect
  pub rows : List Effect

abbrev pub tell : Status → Effect → List Effect → List Effect
tell failed e es = e ∷ es
tell _ e es = es

abbrev pub counted : Status → Effect → Pass → Pass
counted st e p = record { ran = p.ran + 1; told = tell st e p.told; rows = p.rows }

abbrev pub count_in : Status → Effect → Option Pass → Option Pass
count_in st e none = none
count_in st e (some p) = some (counted st e p)

abbrev pub after_claim :
    (List Effect → Option Pass)
    → (Effect → Option ℕ)
    → ℕ
    → Option Effect × List Effect
    → Option Pass
after_claim rest handler now (none, es) = some (record { ran = 0; told = []; rows = es })
after_claim rest handler now (some e, es) =
    let (st, t) = finish e (handler e) now es in count_in st e (rest t)

-- `none` if the fuel runs out.
unfoldable pub run_due : ℕ → (Effect → Option ℕ) → ℕ → List Effect → Option Pass
run_due zero handler now es = none
run_due (suc fuel) handler now es =
    after_claim (run_due fuel handler now) handler now (claim now es)
