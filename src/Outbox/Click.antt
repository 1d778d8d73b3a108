-- ===== src/Outbox/Click.antt =====
-- `enqueue_user_rec`: what a tap on an episode does.
use yourcastbot.Prelude.{ℕ, Option, none, some}
use yourcastbot.Outbox.{Outbox, Job, UserId, chat, channel, connect}
use yourcastbot.Outbox.Queue.{enqueue, find_open_user_rec, drop_circle_recipient}

-- A user id that is no number is in no circle row's recipients.
abbrev pub drop_user : UserId → Option ℕ → Outbox → Outbox
drop_user (chat c) episode s = (drop_circle_recipient c episode s).1
drop_user (channel _) none s = s
drop_user (channel _) (some _) s = connect s

abbrev pub reuse : Option ℕ → Job → ℕ → Outbox → ℕ × Outbox
reuse (some existing) job now s = (existing, connect s)
reuse none job now s = enqueue job now s

-- The id of the click's row, new or still open.
unfoldable pub enqueue_user_rec : Job → ℕ → Outbox → ℕ × Outbox
unfolding connect drop_circle_recipient find_open_user_rec enqueue
enqueue_user_rec job now s =
    let t = drop_user job.user_id job.params.record_uniq_id s in
    reuse (find_open_user_rec job.user_id job.params.record_uniq_id t) job now t
