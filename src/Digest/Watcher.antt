-- ===== src/Digest/Watcher.antt =====
-- A round of the loop of `digest_watcher`, with what sending to a user does as a parameter.
use yourcastbot.Digest.{Digest}
use yourcastbot.Digest.Queue.{Job, claim, fail_or_retry, mark_done, reclaim}
use yourcastbot.Outbox.Finish.{SendError}
use yourcastbot.Prelude.{Option, false, none, some, ℕ}

-- `send_digest_to_user`: it returns (whether it sent or skipped), or raises.
pub data Sent : Type 0 where
  returned : Sent
  raised : SendError → Sent

abbrev pub after_send : Sent → Job → ℕ → Digest → Digest
after_send returned job now s = mark_done job.user_telegram_id (some job.attempts) s
after_send (raised e) job now s =
    (fail_or_retry job.user_telegram_id (some e) (some job.attempts) now s).1

abbrev pub serve : (ℕ → Sent) → Option Job × Digest → ℕ → Digest
serve send (none, s) now = s
serve send (some job, s) now = after_send (send job.user_telegram_id) job now s

unfoldable pub round : (ℕ → Sent) → ℕ → Digest → Digest
round send now s = serve send (claim now (reclaim now false s).1) now
