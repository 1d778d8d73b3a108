-- ===== src/Digest/Progress.antt =====
-- The watcher cannot send for ever: each round that claims a user uses up a part of a finite amount.
-- What is left to do for a row: its attempts yet, and its end.
use mathlib.Core.Path.{subst}
use native.Mathlib.Nat.{le_refl}
use yourcastbot.Digest.{Digest, Row, has_user}
use yourcastbot.Digest.Once.{IsUnique, reclaim-IsUnique, update-IsUnique}
use yourcastbot.Digest.Queue.{
  Job, claim, claim_order, fail_or_retry, finish, give_back, give_up, is_claimable, is_lease_of,
  is_pending_of, job_of, lease, leased_state, mark_done, put_back, reclaim, retry_delay, settle,
  take_lease,
}
use yourcastbot.Digest.Watcher.{Sent, after_send, raised, returned, round, serve}
use yourcastbot.Outbox.{is_open, lease_seconds, max_attempts, pending}
use yourcastbot.Outbox.Finish.{SendError}
use yourcastbot.Prelude.{
  ==_iff, Bool-cases, Member, Option, ap, arith, false, if◌then◌else◌, inl, inr, leb, none, refl,
  some, true, ℕ, ◌+◌, ◌-◌, ◌<◌, ◌==◌, ◌≡◌, ◌≤◌, ◌⊎◌,
}
use yourcastbot.Table.{best_where, count_where}
use yourcastbot.Table.Best.{best-Member}
use yourcastbot.Table.Keys.{find_only, only_row}
use yourcastbot.Table.Laws.{Member-update}
use yourcastbot.Table.Sums.{total, total-update-le, total-update-lt}

abbrev pub weight : Row → ℕ
weight r = if is_open r.status then 1 + (max_attempts - r.attempts) else 0

abbrev pub work_left : Digest → ℕ
work_left s = total weight s.rows

reclaim-work-le : (now : ℕ) (s : Digest) → work_left (reclaim now false s).1 ≤ work_left s
unfolding reclaim
reclaim-work-le now s = total-update-le weight _ give_back s.rows (λ r m h. ground arith)

module _ (s : Digest) (h : IsUnique s.rows) (r : Row) (m : Member r s.rows) (p : r.status ≡ pending)
    (now : ℕ) where
  abbrev u : ℕ
  u = r.user_telegram_id

  abbrev leased_row : Row
  leased_row = take_lease (r.attempts + 1) (now + lease_seconds) r

  abbrev after : Digest
  after = leased_state now r s

  mine : has_user u r ≡ true
  mine = (==_iff u u).1 refl

  after-IsUnique : IsUnique after.rows
  after-IsUnique =
      update-IsUnique _ (take_lease (r.attempts + 1) (now + lease_seconds)) s.rows (λ x. refl) h

  in_after : Member leased_row after.rows
  in_after =
      let own : is_pending_of u r ≡ true = rw p (rw mine refl) in
      subst (λ b. Member (if b then leased_row else r) after.rows) own
        (Member-update (is_pending_of u) (take_lease (r.attempts + 1) (now + lease_seconds)) s.rows
          r m)

  is_mine : (x : Row) → Member x s.rows → has_user u x ≡ true → x ≡ r
  is_mine x mx e = only_row (has_user u) s.rows r x (h u) m mx mine e

  weight_of_pending : weight r ≡ 1 + (max_attempts - r.attempts)
  weight_of_pending = rw p refl

  lease-falls :
      (x : Row)
      → Member x s.rows
      → is_pending_of u x ≡ true
      → weight (take_lease (r.attempts + 1) (now + lease_seconds) x) ≤ weight x
  lease-falls x mx e =
      let q : x ≡ r = is_mine x mx (ground arith) in
      let w : weight x ≡ weight r = ap weight q in omega (arith, weight_of_pending)

  after-work-le : work_left after ≤ work_left s
  after-work-le =
      total-update-le weight (is_pending_of u) (take_lease (r.attempts + 1) (now + lease_seconds))
        s.rows lease-falls

  after-work-lt : r.attempts < max_attempts → work_left after < work_left s
  after-work-lt l =
      total-update-lt weight (is_pending_of u) (take_lease (r.attempts + 1) (now + lease_seconds))
        s.rows r lease-falls m (rw p (rw mine refl)) (omega (arith, weight_of_pending))

  finished-work-lt : work_left (mark_done u (some (r.attempts + 1)) after) < work_left s
  unfolding mark_done
  finished-work-lt =
      let own : is_lease_of u (some (r.attempts + 1)) leased_row ≡ true =
        rw mine ((==_iff (r.attempts + 1) (r.attempts + 1)).1 refl) in
      omega (
        arith,
        after-work-le,
        total-update-lt weight (is_lease_of u (some (r.attempts + 1))) finish after.rows leased_row
            (λ x _ _. omega arith) in_after own (omega arith),
      )

  failed-work-lt :
      (error : Option SendError)
      → work_left (fail_or_retry u error (some (r.attempts + 1)) now after).1 < work_left s
  unfolding fail_or_retry
  failed-work-lt error =
      rw (find_only (has_user u) after.rows leased_row (after-IsUnique u) in_after mine) (
        rw ((==_iff (r.attempts + 1) (r.attempts + 1)).1 refl)
          (by_attempts (Bool-cases (leb max_attempts (r.attempts + 1)))))
    where
      by_attempts :
          (leb max_attempts (r.attempts + 1) ≡ true) ⊎ (leb max_attempts (r.attempts + 1) ≡ false)
          → work_left (settle u error now leased_row after).1 < work_left s
      by_attempts (inl e) =
          rw (e, if◌then◌else◌)
            (omega (
              arith,
              after-work-le,
              total-update-lt weight (has_user u) give_up after.rows leased_row
                  (λ x _ _. omega arith) in_after mine (omega arith),
            ))
      by_attempts (inr e) =
          rw (e, if◌then◌else◌)
            (omega (
              arith,
              after-work-lt (ground arith),
              total-update-le weight (has_user u)
                  (put_back (now + retry_delay (r.attempts + 1) error)) after.rows
                  (λ x mx ex.
                    rw
                      (only_row (has_user u) after.rows leased_row x (after-IsUnique u) in_after mx
                        mine ex)
                      (le_refl _)),
            ))

  served-work-lt :
      (send : ℕ → Sent) → work_left (after_send (send u) (job_of r) now after) < work_left s
  served-work-lt send = by_sent (send u)
    where
      by_sent : (sent : Sent) → work_left (after_send sent (job_of r) now after) < work_left s
      by_sent returned = finished-work-lt
      by_sent (raised e) = failed-work-lt (some e)

claimed_round :
    (send : ℕ → Sent) (now : ℕ) (s : Digest) (o : Option Row)
    → IsUnique s.rows
    → best_where (is_claimable now) claim_order s.rows ≡ o
    → (j : Job) → (lease o now s).0 ≡ some j
    → work_left (serve send (lease o now s) now) < work_left s
claimed_round send now s none h e j k = cc
claimed_round send now s (some r) h e j k =
    let (m, ok) = best-Member (is_claimable now) claim_order s.rows r e in
    by_count (ground arith) m
      (Bool-cases (count_where (is_pending_of r.user_telegram_id) s.rows == 1))
  where
    by_count :
        r.status ≡ pending
        → Member r s.rows
        → ((count_where (is_pending_of r.user_telegram_id) s.rows == 1) ≡ true)
          ⊎ ((count_where (is_pending_of r.user_telegram_id) s.rows == 1) ≡ false)
        → work_left (serve send (lease (some r) now s) now) < work_left s
    by_count p m (inl one) = rw (one, if◌then◌else◌) (served-work-lt s h r m p now send)
    by_count p m (inr other) = cc (rw (other, if◌then◌else◌) at k)

-- On a queue with one row a user, every round of the watcher that claims a user lowers the work
-- that is left, whatever sending does: it returns, or raises with or without a flood wait. So with
-- no user flagged anew the watcher claims finitely often, at most once for each attempt left and
-- each end.
pub round-work-lt :
    (send : ℕ → Sent) (now : ℕ) (s : Digest) (j : Job)
    → IsUnique s.rows
    → (claim now (reclaim now false s).1).0 ≡ some j
    → work_left (round send now s) < work_left s
unfolding round claim
round-work-lt send now s j h k = omega (
  arith,
  reclaim-work-le now s,
  claimed_round send now (reclaim now false s).1 _ (reclaim-IsUnique now false s h) refl j k,
)
