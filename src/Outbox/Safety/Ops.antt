-- ===== src/Outbox/Safety/Ops.antt =====
-- Every operation keeps the table sound.
use Prim.Native.String.{String}
use mathlib.Core.List.{map-append}
use yourcastbot.Outbox.{
  Action, ChatMap, Job, Outbox, Params, Row, connect, has_id, is_leased, max_attempts, split,
}
use yourcastbot.Outbox.Claim.{
  chosen, claim, claim_order, hand_out, is_claimable, is_pending_id, lease, lease_rows,
}
use yourcastbot.Outbox.Finish.{
  SendError, fail_or_retry, finish, is_terminal, keep_days, mark_done, purge_in, purge_old,
  put_back, retry_delay, settle_row,
}
use yourcastbot.Outbox.Lease.{
  fail_exhausted, give_back, give_up, has_ids, heartbeat, reclaim, release_stalled, renew, touch,
}
use yourcastbot.Outbox.Queue.{
  drop_circle_recipient, drop_recipient, enqueue, rewrite, rewrite_payload, rewrite_row,
  same_attempts, update_rec_recipients,
}
use yourcastbot.Outbox.Safety.{IsSound, Keeps, map-split_same, update-IsSound}
use yourcastbot.Outbox.Safety.Insert.{append-IsSound, delete-IsSound}
use yourcastbot.Outbox.Safety.NewLease.{lease-IsSound}
use yourcastbot.Outbox.Steps.{purged_to}
use yourcastbot.Prelude.{
  Bool, List, Option, arith, false, if◌then◌else◌, leb, map, none, refl, some, true, ℕ, ◌&&◌, ◌+◌,
  ◌==◌, ◌||◌, ◌≡◌,
}
use yourcastbot.Table.{best_where, count_where, find_where, update_where}
use yourcastbot.Table.Best.{best-Member}

-- The table as the next operation finds it.
abbrev pub Sound : Outbox → Type 0
Sound s = IsSound (map split s.rows)

resplit : (rs : List Row) → IsSound rs → IsSound (map split rs)
resplit rs h = rw (map-split_same rs h.up_to_date) h

module _ (p : Row → Bool) (f : Row → Row) (k : Keeps f) where
  updated : (rs : List Row) → IsSound rs → IsSound (map split (update_where p f rs))
  updated rs h = resplit (update_where p f rs) (update-IsSound p f k rs h)

either :
    {A : Type 0} (b : Bool) (x y : A × Outbox)
    → Sound x.1
    → Sound y.1
    → Sound (if b then x else y).1
either true x y h k = h
either false x y h k = k

renew-Keeps : (now : ℕ) → Keeps (renew now)
renew-Keeps now = record {
  same_id = λ r. refl;
  same_action = λ r. refl;
  same_user = λ r. refl;
  same_attempts = λ r. refl;
  no_lease = λ r h. h;
}

give_back-Keeps : Keeps give_back
give_back-Keeps = record {
  same_id = λ r. refl;
  same_action = λ r. refl;
  same_user = λ r. refl;
  same_attempts = λ r. refl;
  no_lease = λ r h. cc;
}

give_up-Keeps : Keeps give_up
give_up-Keeps = record {
  same_id = λ r. refl;
  same_action = λ r. refl;
  same_user = λ r. refl;
  same_attempts = λ r. refl;
  no_lease = λ r h. cc;
}

finish-Keeps : Keeps finish
finish-Keeps = record {
  same_id = λ r. refl;
  same_action = λ r. refl;
  same_user = λ r. refl;
  same_attempts = λ r. refl;
  no_lease = λ r h. cc;
}

put_back-Keeps : (at : ℕ) → Keeps (put_back at)
put_back-Keeps at = record {
  same_id = λ r. refl;
  same_action = λ r. refl;
  same_user = λ r. refl;
  same_attempts = λ r. refl;
  no_lease = λ r h. cc;
}

pub drop_recipient-Keeps : (c : ℕ) → Keeps (drop_recipient c)
drop_recipient-Keeps c = record {
  same_id = λ r. ground arith;
  same_action = λ r. ground arith;
  same_user = λ r. ground arith;
  same_attempts = λ r. ground arith;
  no_lease = λ r h. ground arith;
}

rewrite-Keeps :
    (chats : ChatMap ℕ) (langs : Option (ChatMap String)) (bitrates : Option (ChatMap ℕ))
    (q : Params)
    → Keeps (λ r. rewrite chats langs bitrates r q)
rewrite-Keeps chats langs bitrates q = record {
  same_id = λ r. refl;
  same_action = λ r. refl;
  same_user = λ r. refl;
  same_attempts = λ r. refl;
  no_lease = λ r h. h;
}

pub enqueue-Sound : (job : Job) (now : ℕ) (s : Outbox) → Sound s → Sound (enqueue job now s).1
unfolding enqueue connect
enqueue-Sound job now s h =
    let rs = map split s.rows in
    rw (map-append, map-split_same rs h.up_to_date) (append-IsSound rs job now h)

pub drop-Sound :
    (c : ℕ) (episode : Option ℕ) (s : Outbox)
    → Sound s
    → Sound (drop_circle_recipient c episode s).1
unfolding drop_circle_recipient connect
drop-Sound c none s h = resplit _ h
drop-Sound c (some e) s h = updated _ _ (drop_recipient-Keeps c) _ h

rewrite_row-Sound :
    (chats : ChatMap ℕ) (langs : Option (ChatMap String)) (bitrates : Option (ChatMap ℕ))
    (a : Option ℕ) (o : Option Row) (c : Outbox)
    → IsSound c.rows
    → Sound (rewrite_row chats langs bitrates a o c).1
rewrite_row-Sound chats langs bitrates a none c h = resplit _ h
rewrite_row-Sound chats langs bitrates a (some r) c h =
    either _ _ _ (with_payload r.payload) (resplit _ h)
  where
    with_payload : (q : Option Params) → Sound (rewrite_payload chats langs bitrates r q c).1
    with_payload none = resplit _ h
    with_payload (some q) = updated _ _ (rewrite-Keeps chats langs bitrates q) _ h

pub rewrite-Sound :
    (i : Option ℕ) (chats : ChatMap ℕ) (langs : Option (ChatMap String))
    (bitrates : Option (ChatMap ℕ)) (a : Option ℕ) (s : Outbox)
    → Sound s
    → Sound (update_rec_recipients i chats langs bitrates a s).1
unfolding update_rec_recipients connect
rewrite-Sound none chats langs bitrates a s h = h
rewrite-Sound (some i) chats langs bitrates a s h =
    rewrite_row-Sound chats langs bitrates a (find_where (has_id i) (map split s.rows)) _ h

pub heartbeat-Sound : (now mono : ℕ) (s : Outbox) → Sound s → Sound (heartbeat now mono s).1
unfolding heartbeat connect release_stalled
heartbeat-Sound now mono s h =
    either (has_ids (release_stalled mono s).1.in_flight) _ _ (updated _ _ (renew-Keeps now) _ h) h

pub touch-Sound :
    (i a : Option ℕ) (now mono : ℕ) (s : Outbox) → Sound s → Sound (touch i a now mono s).1
unfolding touch connect
touch-Sound none a now mono s h = h
touch-Sound (some i) a now mono s h = updated _ _ (renew-Keeps now) _ h

pub reclaim-Sound : (now : ℕ) (force : Bool) (s : Outbox) → Sound s → Sound (reclaim now force s).1
unfolding reclaim connect
reclaim-Sound now force s h = updated _ _ give_back-Keeps _ h

pub fail_exhausted-Sound : (s : Outbox) → Sound s → Sound (fail_exhausted s).1
unfolding fail_exhausted connect
fail_exhausted-Sound s h = updated _ _ give_up-Keeps _ h

lease-Sound :
    (action : Option Action) (now mono : ℕ) (c : Outbox) (o : Option Row)
    → best_where (is_claimable now action c.rows) claim_order c.rows ≡ o
    → IsSound c.rows
    → Sound (lease o now mono c).1
lease-Sound action now mono c none e h = resplit _ h
lease-Sound action now mono c (some r) e h =
    let (m, ok) = best-Member (is_claimable now action c.rows) claim_order c.rows r e in
    either (count_where (is_pending_id r.id) c.rows == 1) _ _
      (handed r.payload (resplit _ (lease-IsSound c.rows r action now h m ok))) (resplit _ h)
  where
    handed :
        (q : Option Params)
        → IsSound (map split (lease_rows now r c.rows))
        → Sound (hand_out r mono q (record c { rows = lease_rows now r c.rows })).1
    handed none k = k
    handed (some q) k = k

pub claim-Sound :
    (action : Option Action) (now mono : ℕ) (s : Outbox)
    → Sound s
    → Sound (claim none action now mono s).1
unfolding claim chosen connect
claim-Sound action now mono s h = lease-Sound action now mono (connect s) _ refl h

pub mark_done-Sound : (i : ℕ) (a : Option ℕ) (s : Outbox) → Sound s → Sound (mark_done i a s)
unfolding mark_done connect
mark_done-Sound i a s h = updated _ _ finish-Keeps _ h

settle-Sound :
    (i : ℕ) (error : Option SendError) (a : Option ℕ) (now : ℕ) (o : Option Row) (c : Outbox)
    → IsSound c.rows
    → Sound (settle_row i error a now o c).1
settle-Sound i error a now none c h = resplit _ h
settle-Sound i error a now (some r) c h =
    either (is_leased r.status && same_attempts a r) _ _
      (either (leb max_attempts r.attempts || is_terminal error) _ _ (updated _ _ give_up-Keeps _ h)
        (updated _ _ (put_back-Keeps (now + retry_delay r.attempts error)) _ h))
      (resplit _ h)

pub fail_or_retry-Sound :
    (i : ℕ) (error : Option SendError) (a : Option ℕ) (now : ℕ) (s : Outbox)
    → Sound s
    → Sound (fail_or_retry i error a now s).1
unfolding fail_or_retry connect
fail_or_retry-Sound i error a now s h = settle-Sound i error a now _ (connect s) h

purge-Sound :
    (d f : Option ℕ) (now : ℕ) (s : Outbox) → Sound s → Sound (purged_to (purge_in d f now s) s)
unfolding connect
purge-Sound none f now s h = h
purge-Sound (some d) none now s h = h
purge-Sound (some d) (some f) now s h = resplit _ (delete-IsSound _ _ (delete-IsSound _ _ h))

pub purge_old-Sound :
    (d f : Option ℕ) (now : ℕ) (s : Outbox) → Sound s → Sound (purged_to (purge_old d f now s) s)
unfolding purge_old
purge_old-Sound d f now s h = purge-Sound (keep_days d 7) (keep_days f 14) now s h
