-- ===== src/Outbox/Retry.antt =====
-- What happens to a job that its worker failed.
use mathlib.Core.Path.{subst}
use native.Mathlib.Nat.{pow-suc}
use yourcastbot.Outbox.{
  Outbox, Row, connect, has_id, inflight_discard, is_in_flight, is_leased, leased, max_attempts,
  max_backoff_seconds,
}
use yourcastbot.Outbox.Finish.{
  Outcome, SendError, fail_or_retry, flood_wait_seconds, gave_up, is_terminal, put_back, retried,
  retry_delay, settle,
}
use yourcastbot.Outbox.Lease.{give_up}
use yourcastbot.Outbox.Queue.{same_attempts}
use yourcastbot.Outbox.Safety.Ops.{Sound}
use yourcastbot.Prelude.{
  ==_iff, Bool, List, Member, Option, [], ap, arith, false, if◌then◌else◌, inl, inr, leb, max, none,
  refl, some, suc, true, zero, ℕ, ◌&&◌, ◌+◌, ◌^◌, ◌||◌, ◌∷◌, ◌≡◌, ◌≤◌,
}
use yourcastbot.Table.{count_where, find_where, update_where}
use yourcastbot.Table.Laws.{Member-count, Member-update}

pow_pos : (n : ℕ) → 1 ≤ 2 ^ n
pow_pos zero = omega arith
pow_pos (suc n) = omega (arith, pow_pos n, pow-suc 2 n)

-- Without a flood wait the delay lies between two seconds and five minutes.
pub retry_delay_bounds :
    (attempts : ℕ) (error : Option SendError)
    → flood_wait_seconds error ≡ none
    → (2 ≤ retry_delay attempts error) × (retry_delay attempts error ≤ max_backoff_seconds)
unfolding retry_delay
retry_delay_bounds zero error e = rw e (omega arith)
retry_delay_bounds (suc n) error e =
    let m : max (suc n) 1 ≡ suc n = omega arith in rw (e, m) (omega (arith, pow_pos n, pow-suc 2 n))

-- What `fail_or_retry` does with the job that a worker holds, by the row `r` as it was claimed.
abbrev pub settled : ℕ → Option SendError → Row → Row
settled now error r =
    if leb max_attempts r.attempts || is_terminal error
    then give_up r
    else put_back (now + retry_delay r.attempts error) r

abbrev pub outcome_of : Option SendError → Row → Outcome
outcome_of error r = if leb max_attempts r.attempts || is_terminal error then gave_up else retried

find_unique :
    (rs : List Row) (r : Row)
    → count_where (has_id r.id) rs ≤ 1
    → Member r rs
    → find_where (has_id r.id) rs ≡ some r
find_unique [] r u m = absurd m
find_unique (x ∷ rs) r u m = elim m [
  | inl e ↦ ground (arith, ap (λ (y : Row). y.id) e)
  | inr m' ↦ ground (arith, Member-count (has_id r.id) rs r m', find_unique rs r)
]

not_in_flight : (i : ℕ) (l : List (ℕ × ℕ)) → is_in_flight (inflight_discard i l) i ≡ false
not_in_flight i [] = refl
not_in_flight i (x ∷ l) = ground (arith, not_in_flight i l)

written :
    (f : Row → Row) (rs : List Row) (r : Row)
    → Member r rs
    → Member (f r) (update_where (has_id r.id) f rs)
written f rs r m =
    subst (λ b. Member (if b then f r else r) (update_where (has_id r.id) f rs))
      ((==_iff r.id r.id).1 refl) (Member-update (has_id r.id) f rs r m)

settle_lem :
    (c : Outbox) (r : Row) (error : Option SendError) (now : ℕ) (b : Bool)
    → Member r c.rows
    → (leb max_attempts r.attempts || is_terminal error) ≡ b
    → let (outcome, t) = settle r.id error now r c in
      (outcome ≡ outcome_of error r)
      × Member (settled now error r) t.rows
      × (is_in_flight t.in_flight r.id ≡ false)
settle_lem c r error now true m e =
    rw (e, if◌then◌else◌) (refl, written give_up c.rows r m, not_in_flight r.id c.in_flight)
settle_lem c r error now false m e =
    rw (e, if◌then◌else◌)
      (
        refl,
        written (put_back (now + retry_delay r.attempts error)) c.rows r m,
        not_in_flight r.id c.in_flight,
      )

-- On a sound table, the worker that holds the lease of a row fails it for good when its attempts
-- are used up or the audio is gone, and else puts it back for later, pending; either way the id
-- leaves the memory of leases, and the answer says which.
pub fail_or_retry_lem :
    (s : Outbox) (r : Row) (error : Option SendError) (now : ℕ)
    → Sound s
    → Member r (connect s).rows
    → r.status ≡ leased
    → let (outcome, t) = fail_or_retry r.id error (some r.attempts) now s in
      (outcome ≡ outcome_of error r)
      × Member (settled now error r) t.rows
      × (is_in_flight t.in_flight r.id ≡ false)
unfolding fail_or_retry
fail_or_retry_lem s r error now h m l =
    let test : (is_leased r.status && same_attempts (some r.attempts) r) ≡ true =
      rw l ((==_iff r.attempts r.attempts).1 refl) in
    rw (find_unique (connect s).rows r (unfold connect in h.unique r.id) m, test, if◌then◌else◌)
      (settle_lem (connect s) r error now _ m refl)
