-- ===== src/Digest/Queue.antt =====
-- The operations of the digest queue.
use yourcastbot.Digest.{Digest, Row, add, contains, discard, has_user}
use yourcastbot.Outbox.{
  Status, done, done_keep_days, failed, failed_keep_days, is_leased, is_open, is_pending,
  lease_seconds, leased, max_attempts, max_backoff_seconds, pending,
}
use yourcastbot.Outbox.Finish.{
  Outcome, Purged, SendError, flood_wait_seconds, gave_up, is_status, iso_before, keep_days,
  retried, skipped,
}
use yourcastbot.Outbox.Lease.{is_expired}
use yourcastbot.Prelude.{
  Bool, List, Option, [], false, if◌then◌else◌, leb, ltb, max, min, none, not, or_else, some, true,
  ℕ, ◌&&◌, ◌++◌, ◌+◌, ◌==◌, ◌^◌, ◌||◌, ◌∷◌,
}
use yourcastbot.Table.{
  best_where, count_where, delete_where, exists_where, find_where, update_where,
}

abbrev pub new_row : ℕ → ℕ → Row
new_row u now = record {
  user_telegram_id = u;
  created_at = now;
  status = pending;
  attempts = 0;
  leased_until = none;
  available_at = now;
}

-- The five CASEs of ON CONFLICT: a finished row starts again, an open one stays as it is.
abbrev pub requeue : ℕ → Row → Row
requeue now r = if is_open r.status then r else record r {
  status = pending;
  attempts = 0;
  leased_until = none;
  available_at = now;
  created_at = now;
}

-- INSERT .. ON CONFLICT(user_telegram_id) DO UPDATE
abbrev pub upsert : ℕ → ℕ → List Row → List Row
upsert u now rs =
    if exists_where (has_user u) rs
    then update_where (has_user u) (requeue now) rs
    else rs ++ new_row u now ∷ []

unfoldable pub enqueue : ℕ → ℕ → Digest → Digest
enqueue u now s = record s { rows = upsert u now s.rows }

abbrev pub is_reclaimed : ℕ → Bool → List ℕ → Row → Bool
is_reclaimed now true l r = is_leased r.status
is_reclaimed now false l r =
    is_leased r.status && (is_expired now r.leased_until && not (contains l r.user_telegram_id))

abbrev pub give_back : Row → Row
give_back r = record r { status = pending; leased_until = none }

unfoldable pub reclaim : ℕ → Bool → Digest → ℕ × Digest
reclaim now force s = (
  count_where (is_reclaimed now force s.in_flight) s.rows,
  record s { rows = update_where (is_reclaimed now force s.in_flight) give_back s.rows },
)

-- ORDER BY created_at ASC, user_telegram_id ASC
unfoldable pub claim_order : Row → Row → Bool
claim_order a b =
    ltb a.created_at b.created_at
    || (a.created_at == b.created_at && ltb a.user_telegram_id b.user_telegram_id)

abbrev pub is_claimable : ℕ → Row → Bool
is_claimable now r = is_pending r.status && leb r.available_at now

abbrev pub take_lease : ℕ → ℕ → Row → Row
take_lease attempts until r = record r {
  status = leased;
  attempts = attempts;
  leased_until = some until;
}

abbrev pub is_pending_of : ℕ → Row → Bool
is_pending_of u r = has_user u r && is_pending r.status

-- The user and the attempts of the lease.
pub record Job : Type 0 where
  pub user_telegram_id : ℕ
  pub attempts : ℕ

abbrev pub job_of : Row → Job
job_of r = record { user_telegram_id = r.user_telegram_id; attempts = r.attempts + 1 }

abbrev pub leased_state : ℕ → Row → Digest → Digest
leased_state now r s = record {
  rows =
      update_where (is_pending_of r.user_telegram_id)
        (take_lease (r.attempts + 1) (now + lease_seconds)) s.rows;
  in_flight = add r.user_telegram_id s.in_flight;
}

abbrev pub lease : Option Row → ℕ → Digest → Option Job × Digest
lease none now s = (none, s)
lease (some r) now s =
    if count_where (is_pending_of r.user_telegram_id) s.rows == 1
    then (some (job_of r), leased_state now r s)
    else (none, s)

unfoldable pub claim : ℕ → Digest → Option Job × Digest
claim now s = lease (best_where (is_claimable now) claim_order s.rows) now s

abbrev pub same_attempts : Option ℕ → Row → Bool
same_attempts none r = true
same_attempts (some a) r = r.attempts == a

abbrev pub is_lease_of : ℕ → Option ℕ → Row → Bool
is_lease_of u attempts r = has_user u r && (is_leased r.status && same_attempts attempts r)

abbrev pub finish : Row → Row
finish r = record r { status = done; leased_until = none }

-- The user leaves the memory of leases even if no row changed.
unfoldable pub mark_done : ℕ → Option ℕ → Digest → Digest
mark_done u attempts s = record {
  rows = update_where (is_lease_of u attempts) finish s.rows;
  in_flight = discard u s.in_flight;
}

-- `_retry_delay`
unfoldable pub retry_delay : ℕ → Option SendError → ℕ
retry_delay attempts error =
    or_else (flood_wait_seconds error) (min max_backoff_seconds (2 ^ max attempts 1))

abbrev pub give_up : Row → Row
give_up r = record r { status = failed; leased_until = none }

abbrev pub put_back : ℕ → Row → Row
put_back at r = record r { status = pending; leased_until = none; available_at = at }

abbrev pub settle : ℕ → Option SendError → ℕ → Row → Digest → Outcome × Digest
settle u error now r s =
    if leb max_attempts r.attempts
    then (
      gave_up,
      record { rows = update_where (has_user u) give_up s.rows; in_flight = discard u s.in_flight },
    )
    else (
      retried,
      record {
        rows = update_where (has_user u) (put_back (now + retry_delay r.attempts error)) s.rows;
        in_flight = discard u s.in_flight;
      },
    )

abbrev pub settle_row : ℕ → Option SendError → Option ℕ → ℕ → Option Row → Digest → Outcome × Digest
settle_row u error attempts now none s = (skipped, s)
settle_row u error attempts now (some r) s =
    if is_leased r.status && same_attempts attempts r then settle u error now r s else (skipped, s)

unfoldable pub fail_or_retry : ℕ → Option SendError → Option ℕ → ℕ → Digest → Outcome × Digest
unfolding retry_delay
fail_or_retry u error attempts now s =
    settle_row u error attempts now (find_where (has_user u) s.rows) s

unfoldable pub get_row : ℕ → Digest → Option Row
get_row u s = find_where (has_user u) s.rows

abbrev pub is_open_row : Row → Bool
is_open_row r = is_open r.status

unfoldable pub pending_count : Digest → ℕ
pending_count s = count_where is_open_row s.rows

abbrev pub is_old : Status → ℕ → Row → Bool
is_old st cutoff r = is_status st r.status && ltb r.created_at cutoff

abbrev purge_in : Option ℕ → Option ℕ → ℕ → Digest → Option (Purged × Digest)
purge_in none _ now s = none
purge_in (some d) none now s = none
purge_in (some d) (some f) now s =
    let kept : List Row = delete_where (is_old done (iso_before now d)) s.rows in
    some (
      record {
        done_rows = count_where (is_old done (iso_before now d)) s.rows;
        failed_rows = count_where (is_old failed (iso_before now f)) kept;
      },
      record s { rows = delete_where (is_old failed (iso_before now f)) kept },
    )

unfoldable pub purge_old : Option ℕ → Option ℕ → ℕ → Digest → Option (Purged × Digest)
purge_old done_after failed_after now s =
    purge_in (keep_days done_after done_keep_days) (keep_days failed_after failed_keep_days) now s

-- The loop of `migrate_from_kv` over the flags that the JSON text holds; `none` is an entry that
-- `int` refuses, which is logged and skipped. The number moved comes with the queue.
unfoldable pub migrate_flags : List (Option ℕ) → ℕ → Digest → ℕ × Digest
unfolding enqueue
migrate_flags [] now s = (0, s)
migrate_flags (none ∷ flags) now s = migrate_flags flags now s
migrate_flags (some u ∷ flags) now s =
    let (moved, t) = migrate_flags flags now (enqueue u now s) in (moved + 1, t)
