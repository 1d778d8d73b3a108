-- ===== src/Outbox/Terminal/Ops.antt =====
-- Every operation but `purge_old` keeps the finished rows and loses none.
use Prim.Native.String.{String}
use mathlib.Core.Path.{subst}
use yourcastbot.Outbox.{
  Action, ChatMap, Job, Outbox, Params, Row, connect, has_id, is_leased, is_open, is_rec_send,
  max_attempts, split,
}
use yourcastbot.Outbox.Claim.{claim, hand_out, is_pending_id, lease, lease_rows, take_lease}
use yourcastbot.Outbox.Finish.{
  SendError, fail_or_retry, finish, is_terminal, mark_done, put_back, retry_delay, settle_row,
}
use yourcastbot.Outbox.Lease.{
  fail_exhausted, give_back, give_up, has_ids, heartbeat, reclaim, release_stalled, renew, touch,
}
use yourcastbot.Outbox.Queue.{
  drop_circle_recipient, drop_recipient, enqueue, rewrite, rewrite_payload, rewrite_row,
  same_attempts, update_rec_recipients,
}
use yourcastbot.Outbox.Safety.Insert.{Member-unique}
use yourcastbot.Outbox.Safety.Ops.{Sound}
use yourcastbot.Outbox.Terminal.{
  Transition, Transition-refl, append-Transition, split-Transition, update-Transition,
}
use yourcastbot.Prelude.{
  Bool, Bool-cases, List, Member, Option, arith, false, if◌then◌else◌, inl, inr, leb, map, none,
  refl, some, true, ℕ, ◌&&◌, ◌+◌, ◌==◌, ◌||◌, ◌≡◌,
}
use yourcastbot.Table.{count_where, find_where, update_where}
use yourcastbot.Table.Laws.{find-Member}

abbrev pub Moves : Outbox → Outbox → Type 0
Moves s t = Transition (map split s.rows) (map split t.rows)

module _ (s : Outbox) (h : Sound s) where
  abbrev rs : List Row
  rs = map split s.rows

  after : (t : Outbox) → Transition rs t.rows → Moves s t
  after t k = split-Transition rs t.rows h k

  abbrev Same : (Row → Row) → Type 0
  Same f = (r : Row) → ((f r).id ≡ r.id) × ((f r).user_id ≡ r.user_id) × ((f r).action ≡ r.action)

  updates :
      (p : Row → Bool) (f : Row → Row)
      → ((r : Row) → is_open r.status ≡ false → p r ≡ false)
      → Same f
      → Transition rs (map split (update_where p f rs))
  updates p f skips same =
      split-Transition rs _ h (update-Transition p f rs (λ r _ c. skips r c) same)

  unchanged : Transition rs (map split rs)
  unchanged = split-Transition rs rs h (Transition-refl rs)

  pub enqueue-Moves : (job : Job) (now : ℕ) → Moves s (enqueue job now s).1
  unfolding enqueue connect
  enqueue-Moves job now = split-Transition rs _ h (append-Transition rs _)

  pub drop-Moves : (c : ℕ) (e : Option ℕ) → Moves s (drop_circle_recipient c e s).1
  unfolding drop_circle_recipient connect
  drop-Moves c none = unchanged
  drop-Moves c (some e) = updates _ (drop_recipient c) (λ r o. ground arith) (λ r. ground arith)

  pub touch-Moves : (i a : Option ℕ) (now mono : ℕ) → Moves s (touch i a now mono s).1
  unfolding touch connect
  touch-Moves none a now mono = Transition-refl rs
  touch-Moves (some i) a now mono =
      updates _ (renew now) (λ r o. ground arith) (λ r. (refl, refl, refl))

  pick :
      {A : Type 0} (b : Bool) (x y : A × Outbox)
      → Moves s x.1
      → Moves s y.1
      → Moves s (if b then x else y).1
  pick true x y k l = k
  pick false x y k l = l

  pub heartbeat-Moves : (now mono : ℕ) → Moves s (heartbeat now mono s).1
  unfolding heartbeat connect release_stalled
  heartbeat-Moves now mono =
      pick (has_ids (release_stalled mono s).1.in_flight) _ _
        (updates _ (renew now) (λ r o. ground arith) (λ r. (refl, refl, refl))) (Transition-refl rs)

  pub reclaim-Moves : (now : ℕ) (force : Bool) → Moves s (reclaim now force s).1
  unfolding reclaim connect
  reclaim-Moves now true = updates _ give_back (λ r o. ground arith) (λ r. (refl, refl, refl))
  reclaim-Moves now false = updates _ give_back (λ r o. ground arith) (λ r. (refl, refl, refl))

  pub fail_exhausted-Moves : Moves s (fail_exhausted s).1
  unfolding fail_exhausted connect
  fail_exhausted-Moves = updates _ give_up (λ r o. ground arith) (λ r. (refl, refl, refl))

  pub mark_done-Moves : (i : ℕ) (a : Option ℕ) → Moves s (mark_done i a s)
  unfolding mark_done connect
  mark_done-Moves i a = updates _ finish (λ r o. ground arith) (λ r. (refl, refl, refl))

  rewrite_payload-Moves :
      (chats : ChatMap ℕ) (langs : Option (ChatMap String)) (bitrates : Option (ChatMap ℕ))
      (r : Row) (q : Option Params)
      → Moves s (rewrite_payload chats langs bitrates r q (connect s)).1
  unfolding connect
  rewrite_payload-Moves chats langs bitrates r none = unchanged
  rewrite_payload-Moves chats langs bitrates r (some q) =
      updates _ (λ x. rewrite chats langs bitrates x q) (λ x o. ground arith)
        (λ x. (refl, refl, refl))

  rewrite_row-Moves :
      (chats : ChatMap ℕ) (langs : Option (ChatMap String)) (bitrates : Option (ChatMap ℕ))
      (a : Option ℕ) (o : Option Row)
      → Moves s (rewrite_row chats langs bitrates a o (connect s)).1
  unfolding connect
  rewrite_row-Moves chats langs bitrates a none = unchanged
  rewrite_row-Moves chats langs bitrates a (some r) =
      pick (is_leased r.status && (is_rec_send r.action && same_attempts a r)) _ _
        (rewrite_payload-Moves chats langs bitrates r r.payload) unchanged

  pub rewrite-Moves :
      (i : Option ℕ) (chats : ChatMap ℕ) (langs : Option (ChatMap String))
      (bitrates : Option (ChatMap ℕ)) (a : Option ℕ)
      → Moves s (update_rec_recipients i chats langs bitrates a s).1
  unfolding update_rec_recipients
  rewrite-Moves none chats langs bitrates a = Transition-refl rs
  rewrite-Moves (some i) chats langs bitrates a = rewrite_row-Moves chats langs bitrates a _

  lease-Moves : (o : Option Row) (now mono : ℕ) → Moves s (lease o now mono (connect s)).1
  unfolding connect
  lease-Moves none now mono = unchanged
  lease-Moves (some r) now mono =
      pick (count_where (is_pending_id r.id) rs == 1) _ _ (handed r.payload) unchanged
    where
      handed :
          (q : Option Params)
          → Moves s
              (hand_out r mono q (record { rows = lease_rows now r rs; in_flight = s.in_flight })).1
      handed none =
          updates _ (take_lease (r.attempts + 1) (now + 300)) (λ x o. ground arith)
            (λ x. (refl, refl, refl))
      handed (some q) =
          updates _ (take_lease (r.attempts + 1) (now + 300)) (λ x o. ground arith)
            (λ x. (refl, refl, refl))

  pub claim-Moves :
      (id : Option ℕ) (action : Option Action) (now mono : ℕ)
      → Moves s (claim id action now mono s).1
  unfolding claim
  claim-Moves id action now mono = lease-Moves _ now mono

  -- The row that `fail_or_retry` writes is leased, so no finished row has its id.
  skips_id :
      (i : ℕ) (r x : Row)
      → find_where (has_id i) rs ≡ some r
      → is_leased r.status ≡ true
      → Member x rs
      → is_open x.status ≡ false
      → has_id i x ≡ false
  skips_id i r x e l mx c = elim (Bool-cases (has_id i x)) [
    | inr no_match ↦ no_match
    | inl match ↦
        let (mr, er) = find-Member (has_id i) rs r e in
        let ids : x.id ≡ r.id = ground arith in
        let same_row : x ≡ r = Member-unique rs r x (h.unique r.id) mr mx ids in
        let st : is_open r.status ≡ false = subst (λ y. is_open y.status ≡ false) same_row c in
        ground arith
  ]

  settle-Moves :
      (i : ℕ) (error : Option SendError) (a : Option ℕ) (now : ℕ) (o : Option Row)
      → find_where (has_id i) rs ≡ o
      → Moves s (settle_row i error a now o (connect s)).1
  unfolding connect
  settle-Moves i error a now none e = unchanged
  settle-Moves i error a now (some r) e = elim (Bool-cases (is_leased r.status)) [
    | inr l ↦ rw (l, if◌then◌else◌) unchanged
    | inl l ↦
        pick (is_leased r.status && same_attempts a r) _ _
          (pick (leb max_attempts r.attempts || is_terminal error) _ _
            (split-Transition rs _ h (
              update-Transition (has_id i) give_up rs (λ x mx c. skips_id i r x e l mx c)
                (λ x. (refl, refl, refl))))
            (split-Transition rs _ h (
              update-Transition (has_id i) (put_back (now + retry_delay r.attempts error)) rs
                (λ x mx c. skips_id i r x e l mx c) (λ x. (refl, refl, refl)))))
          unchanged
  ]

  pub fail_or_retry-Moves :
      (i : ℕ) (error : Option SendError) (a : Option ℕ) (now : ℕ)
      → Moves s (fail_or_retry i error a now s).1
  unfolding fail_or_retry connect
  fail_or_retry-Moves i error a now = settle-Moves i error a now _ refl

  pub connect-Moves : Moves s (connect s)
  unfolding connect
  connect-Moves = unchanged
