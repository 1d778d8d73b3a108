-- ===== src/Outbox/Safety/Runs.antt =====
-- Soundness of the table after any sequence of operations.
use yourcastbot.Outbox.{Job, Outbox, UserId, channel, chat, connect, split}
use yourcastbot.Outbox.Click.{drop_user, enqueue_user_rec, reuse}
use yourcastbot.Outbox.Lease.{release_stalled}
use yourcastbot.Outbox.Safety.{map-split_same}
use yourcastbot.Outbox.Safety.Ops.{
  Sound, claim-Sound, drop-Sound, enqueue-Sound, fail_exhausted-Sound, fail_or_retry-Sound,
  heartbeat-Sound, mark_done-Sound, purge_old-Sound, reclaim-Sound, rewrite-Sound, touch-Sound,
}
use yourcastbot.Outbox.Steps.{
  Op, claim_op, clear_in_flight, click_op, crash, done_op, drop_op, enqueue_op, exhaust_op, fail_op,
  heartbeat_op, purge_op, reclaim_op, release_op, rewrite_op, run, run_all, touch_op,
}
use yourcastbot.Prelude.{List, Option, [], map, none, some, ℕ, ◌∷◌}

connect-Sound : (s : Outbox) → Sound s → Sound (connect s)
unfolding connect
connect-Sound s h = rw (map-split_same (map split s.rows) h.up_to_date) h

pub drop_user-Sound : (u : UserId) (e : Option ℕ) (s : Outbox) → Sound s → Sound (drop_user u e s)
drop_user-Sound (chat c) e s h = drop-Sound c e s h
drop_user-Sound (channel _) none s h = h
drop_user-Sound (channel _) (some _) s h = connect-Sound s h

reuse-Sound :
    (o : Option ℕ) (job : Job) (now : ℕ) (s : Outbox) → Sound s → Sound (reuse o job now s).1
reuse-Sound none job now s h = enqueue-Sound job now s h
reuse-Sound (some _) job now s h = connect-Sound s h

click-Sound : (job : Job) (now : ℕ) (s : Outbox) → Sound s → Sound (enqueue_user_rec job now s).1
unfolding enqueue_user_rec
click-Sound job now s h =
    reuse-Sound _ job now _ (drop_user-Sound job.user_id job.params.record_uniq_id s h)

-- One operation.
pub run-Sound : (op : Op) (s : Outbox) → Sound s → Sound (run op s)
unfolding run release_stalled clear_in_flight
run-Sound (enqueue_op job now) s h = enqueue-Sound job now s h
run-Sound (click_op job now) s h = click-Sound job now s h
run-Sound (drop_op c e) s h = drop-Sound c e s h
run-Sound (rewrite_op i chats langs bitrates a) s h = rewrite-Sound i chats langs bitrates a s h
run-Sound (release_op mono) s h = h
run-Sound (heartbeat_op now mono) s h = heartbeat-Sound now mono s h
run-Sound (touch_op i a now mono) s h = touch-Sound i a now mono s h
run-Sound (reclaim_op now force) s h = reclaim-Sound now force s h
run-Sound exhaust_op s h = fail_exhausted-Sound s h
run-Sound (claim_op action now mono) s h = claim-Sound action now mono s h
run-Sound (done_op i a) s h = mark_done-Sound i a s h
run-Sound (fail_op i error a now) s h = fail_or_retry-Sound i error a now s h
run-Sound (purge_op d f now) s h = purge_old-Sound d f now s h
run-Sound crash s h = h

-- From a sound table, after any sequence of the operations, crashes included, the table as the next
-- operation finds it is sound: no two rows have one id, no user has two leases of one action, no
-- row has been claimed more than eight times, and no legacy circle row is left.
pub run_all-Sound : (ops : List Op) (s : Outbox) → Sound s → Sound (run_all ops s)
unfolding run_all
run_all-Sound [] s h = h
run_all-Sound (op ∷ ops) s h = run_all-Sound ops (run op s) (run-Sound op s h)
