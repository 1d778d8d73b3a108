-- ===== src/Outbox/Steps.antt =====
-- What can happen to `send_outbox`: the calls of the operations, in any order and with any
-- arguments, and a crash of the process, which empties its memory of leases.
use Prim.Native.String.{String}
use yourcastbot.Prelude.{ℕ, Bool, Option, none, some, List, [], ◌∷◌}
use yourcastbot.Outbox.{Outbox, Job, Action, ChatMap}
use yourcastbot.Outbox.Queue.{enqueue, drop_circle_recipient, update_rec_recipients}
use yourcastbot.Outbox.Click.{enqueue_user_rec}
use yourcastbot.Outbox.Lease.{release_stalled, heartbeat, touch, reclaim, fail_exhausted}
use yourcastbot.Outbox.Claim.{claim}
use yourcastbot.Outbox.Finish.{SendError, Purged, mark_done, fail_or_retry, purge_old}

-- Nothing in the program claims by id: `claim` is called with an action or with neither.
pub data Op : Type 0 where
  enqueue_op : Job → ℕ → Op
  click_op : Job → ℕ → Op
  drop_op : ℕ → Option ℕ → Op
  rewrite_op : Option ℕ → ChatMap ℕ → Option (ChatMap String) → Option (ChatMap ℕ) → Option ℕ → Op
  release_op : ℕ → Op
  heartbeat_op : ℕ → ℕ → Op
  touch_op : Option ℕ → Option ℕ → ℕ → ℕ → Op
  reclaim_op : ℕ → Bool → Op
  exhaust_op : Op
  claim_op : Option Action → ℕ → ℕ → Op
  done_op : ℕ → Option ℕ → Op
  fail_op : ℕ → Option SendError → Option ℕ → ℕ → Op
  purge_op : Option ℕ → Option ℕ → ℕ → Op
  crash : Op

-- `clear_in_flight`, or a new process on the same file
unfoldable pub clear_in_flight : Outbox → Outbox
clear_in_flight s = record s { in_flight = [] }

-- A ValueError leaves the outbox as it was.
abbrev pub purged_to : Option (Purged × Outbox) → Outbox → Outbox
purged_to none s = s
purged_to (some (_, t)) s = t

unfoldable pub run : Op → Outbox → Outbox
run (enqueue_op job now) s = (enqueue job now s).1
run (click_op job now) s = (enqueue_user_rec job now s).1
run (drop_op c episode) s = (drop_circle_recipient c episode s).1
run (rewrite_op i chats langs bitrates a) s = (update_rec_recipients i chats langs bitrates a s).1
run (release_op mono) s = (release_stalled mono s).1
run (heartbeat_op now mono) s = (heartbeat now mono s).1
run (touch_op i a now mono) s = (touch i a now mono s).1
run (reclaim_op now force) s = (reclaim now force s).1
run exhaust_op s = (fail_exhausted s).1
run (claim_op action now mono) s = (claim none action now mono s).1
run (done_op i a) s = mark_done i a s
run (fail_op i error a now) s = (fail_or_retry i error a now s).1
run (purge_op d f now) s = purged_to (purge_old d f now s) s
run crash s = clear_in_flight s

unfoldable pub run_all : List Op → Outbox → Outbox
run_all [] s = s
run_all (op ∷ ops) s = run_all ops (run op s)
