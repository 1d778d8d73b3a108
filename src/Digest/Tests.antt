-- ===== src/Digest/Tests.antt =====
-- Runs of the digest queue on small tables, and the theorems at concrete inputs.
-- Users 7 and 8 wait; 9 has failed.
use yourcastbot.Digest.{Digest, Row}
use yourcastbot.Digest.Flag.{IsFlagged, enqueue-IsFlagged}
use yourcastbot.Digest.Oldest.{IsOldest, claim-IsOldest}
use yourcastbot.Digest.Once.{IsUnique}
use yourcastbot.Digest.Progress.{round-work-lt, work_left}
use yourcastbot.Digest.Queue.{
  claim, claim_order, enqueue, fail_or_retry, give_up, job_of, leased_state, new_row, reclaim,
}
use yourcastbot.Digest.Watcher.{Sent, raised, returned, round}
use yourcastbot.Outbox.Finish.{SendError, flood_wait_seconds}
use yourcastbot.Prelude.{[], arith, false, if◌then◌else◌, none, refl, some, ℕ, ◌<◌, ◌==◌, ◌∷◌, ◌≡◌}

abbrev waiting : Digest
waiting = record {
  rows = new_row 7 100 ∷ new_row 8 120 ∷ give_up (new_row 9 50) ∷ [];
  in_flight = [];
}

abbrev flood : SendError
flood = record {
  own = record { retry_after_seconds = none; bot_wait = some 30; client_wait = none };
  cause = none;
  source_gone = false;
}

-- Telegram answers 429 to user 7, and takes the rest.
abbrev sending : ℕ → Sent
sending u = if u == 7 then raised flood else returned

waiting-IsUnique : IsUnique waiting.rows
waiting-IsUnique u = ground arith

flooded : round sending 200 waiting ≡ record waiting {
  rows =
      record (new_row 7 100) { attempts = 1; available_at = 231 }
      ∷ new_row 8 120
      ∷ give_up (new_row 9 50)
      ∷ [];
}
unfolding round reclaim claim claim_order fail_or_retry flood_wait_seconds
flooded = refl

claimed_first : (claim 200 (reclaim 200 false waiting).1).0 ≡ some (job_of (new_row 7 100))
unfolding reclaim claim claim_order
claimed_first = refl

claimed_state :
    claim 200 waiting ≡ (some (job_of (new_row 7 100)), leased_state 200 (new_row 7 100) waiting)
unfolding claim claim_order
claimed_state = refl

enqueue-IsFlagged_example : IsFlagged 9 300 waiting.rows (enqueue 9 300 waiting).rows
enqueue-IsFlagged_example = enqueue-IsFlagged 9 300 waiting

claim-IsOldest_example : (r : Row) × IsOldest 200 waiting.rows (job_of (new_row 7 100)) r
claim-IsOldest_example =
    claim-IsOldest 200 waiting (leased_state 200 (new_row 7 100) waiting) (job_of (new_row 7 100))
      claimed_state

round-work-lt_example : work_left (round sending 200 waiting) < work_left waiting
round-work-lt_example =
    round-work-lt sending 200 waiting (job_of (new_row 7 100)) waiting-IsUnique claimed_first
