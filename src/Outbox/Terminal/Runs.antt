-- ===== src/Outbox/Terminal/Runs.antt =====
-- A finished job stays finished and an open one is not lost, over any sequence of operations
-- without a purge.
use yourcastbot.Outbox.{Job, Outbox, Row, UserId, channel, chat}
use yourcastbot.Outbox.Click.{drop_user, enqueue_user_rec, reuse}
use yourcastbot.Outbox.Lease.{release_stalled}
use yourcastbot.Outbox.Safety.Ops.{Sound}
use yourcastbot.Outbox.Safety.Runs.{drop_user-Sound, run-Sound}
use yourcastbot.Outbox.Steps.{
  Op, claim_op, clear_in_flight, click_op, crash, done_op, drop_op, enqueue_op, exhaust_op, fail_op,
  heartbeat_op, purge_op, reclaim_op, release_op, rewrite_op, run, run_all, touch_op,
}
use yourcastbot.Outbox.Terminal.{Transition, Transition-refl}
use yourcastbot.Outbox.Terminal.Ops.{
  Moves, claim-Moves, connect-Moves, drop-Moves, enqueue-Moves, fail_exhausted-Moves,
  fail_or_retry-Moves, heartbeat-Moves, mark_done-Moves, reclaim-Moves, rewrite-Moves, touch-Moves,
}
use yourcastbot.Prelude.{All, Bool, List, Option, [], false, none, some, true, ℕ, ◌∙◌, ◌∷◌, ◌≡◌}

pub Transition-trans : (a b c : List Row) → Transition a b → Transition b c → Transition a c
Transition-trans a b c t u = record {
  closed = λ r m o. u.closed r (t.closed r m o) o;
  kept = λ r m.
      let (x, mx, i, v, w) = t.kept r m in
      let (y, my, i', v', w') = u.kept x mx in (y, my, i' ∙ i, v' ∙ v, w' ∙ w);
}

drop_user-Moves : (u : UserId) (e : Option ℕ) (s : Outbox) → Sound s → Moves s (drop_user u e s)
drop_user-Moves (chat c) e s h = drop-Moves s h c e
drop_user-Moves (channel _) none s h = Transition-refl _
drop_user-Moves (channel _) (some _) s h = connect-Moves s h

reuse-Moves :
    (o : Option ℕ) (job : Job) (now : ℕ) (s : Outbox) → Sound s → Moves s (reuse o job now s).1
reuse-Moves none job now s h = enqueue-Moves s h job now
reuse-Moves (some _) job now s h = connect-Moves s h

click-Moves : (job : Job) (now : ℕ) (s : Outbox) → Sound s → Moves s (enqueue_user_rec job now s).1
unfolding enqueue_user_rec
click-Moves job now s h =
    Transition-trans _ _ _ (drop_user-Moves job.user_id job.params.record_uniq_id s h)
      (reuse-Moves _ job now _ (drop_user-Sound job.user_id job.params.record_uniq_id s h))

abbrev pub is_purge : Op → Bool
is_purge (purge_op _ _ _) = true
is_purge _ = false

pub run-Moves : (op : Op) (s : Outbox) → Sound s → is_purge op ≡ false → Moves s (run op s)
unfolding run release_stalled clear_in_flight
run-Moves (enqueue_op job now) s h n = enqueue-Moves s h job now
run-Moves (click_op job now) s h n = click-Moves job now s h
run-Moves (drop_op c e) s h n = drop-Moves s h c e
run-Moves (rewrite_op i chats langs bitrates a) s h n = rewrite-Moves s h i chats langs bitrates a
run-Moves (release_op mono) s h n = Transition-refl _
run-Moves (heartbeat_op now mono) s h n = heartbeat-Moves s h now mono
run-Moves (touch_op i a now mono) s h n = touch-Moves s h i a now mono
run-Moves (reclaim_op now force) s h n = reclaim-Moves s h now force
run-Moves exhaust_op s h n = fail_exhausted-Moves s h
run-Moves (claim_op action now mono) s h n = claim-Moves s h none action now mono
run-Moves (done_op i a) s h n = mark_done-Moves s h i a
run-Moves (fail_op i error a now) s h n = fail_or_retry-Moves s h i error a now
run-Moves (purge_op d f now) s h n = cc
run-Moves crash s h n = Transition-refl _

-- Over any sequence of operations without a purge, from a sound table: a row that is done or failed
-- stays in the table unchanged (no job is sent again after its end), and every row keeps its place
-- under its id, user and action (no job is lost), crashes included.
pub run_all-Moves :
    (ops : List Op) (s : Outbox)
    → Sound s
    → All (λ op. is_purge op ≡ false) ops
    → Moves s (run_all ops s)
unfolding run_all
run_all-Moves [] s h n = Transition-refl _
run_all-Moves (op ∷ ops) s h n =
    Transition-trans _ _ _ (run-Moves op s h n.0)
      (run_all-Moves ops (run op s) (run-Sound op s h) n.1)
