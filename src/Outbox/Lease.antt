-- ===== src/Outbox/Lease.antt =====
-- `release_stalled`, `heartbeat`, `touch`, `reclaim` and `fail_exhausted`: how long a lease is held.
use yourcastbot.Prelude.{
  ℕ, zero, suc, ◌+◌, Bool, true, false, ◌&&◌, not, Option, none, some, List, [], ◌∷◌, leb,
  if◌then◌else◌,
}
use yourcastbot.Table.{count_where, update_where}
use yourcastbot.Outbox.{
  Outbox, Row, pending, failed, is_open, is_leased, has_id, is_in_flight, inflight_add, connect,
  lease_seconds, stall_seconds, max_attempts,
}
use yourcastbot.Outbox.Queue.{same_attempts}

-- `stamp - last >= STALL_SECONDS`, without a subtraction that stops at 0.
abbrev pub is_stalled : ℕ → ℕ → Bool
is_stalled mono last = leb (last + stall_seconds) mono

abbrev pub still_working : ℕ → List (ℕ × ℕ) → List (ℕ × ℕ)
still_working mono [] = []
still_working mono ((i, t) ∷ l) =
    let rest = still_working mono l in if is_stalled mono t then rest else (i, t) ∷ rest

abbrev pub stalled_ids : ℕ → List (ℕ × ℕ) → List ℕ
stalled_ids mono [] = []
stalled_ids mono ((i, t) ∷ l) =
    let rest = stalled_ids mono l in if is_stalled mono t then i ∷ rest else rest

-- The ids let go, and the outbox without them in flight. The table is not opened.
unfoldable pub release_stalled : ℕ → Outbox → List ℕ × Outbox
release_stalled mono s =
    (stalled_ids mono s.in_flight, record s { in_flight = still_working mono s.in_flight })

-- status = 'leased' AND id IN (the ids in flight)
abbrev pub is_held : List (ℕ × ℕ) → Row → Bool
is_held l r = is_leased r.status && is_in_flight l r.id

abbrev pub renew : ℕ → Row → Row
renew now r = record r { leased_until = some (now + lease_seconds) }

abbrev pub has_ids : List (ℕ × ℕ) → Bool
has_ids [] = false
has_ids (_ ∷ _) = true

-- With nothing in flight the table is not opened.
unfoldable pub heartbeat : ℕ → ℕ → Outbox → ℕ × Outbox
unfolding connect release_stalled
heartbeat now mono s =
    let t = (release_stalled mono s).1 in
    if has_ids t.in_flight
    then (let c = connect t in
        (
          count_where (is_held c.in_flight) c.rows,
          record c { rows = update_where (is_held c.in_flight) (renew now) c.rows },
        ))
    else (0, t)

-- WHERE id = ? AND status = 'leased' [AND attempts = ?]
abbrev pub is_lease_of : ℕ → Option ℕ → Row → Bool
is_lease_of i attempts r = has_id i r && (is_leased r.status && same_attempts attempts r)

abbrev touched : ℕ → ℕ → ℕ → List (ℕ × ℕ) → List (ℕ × ℕ)
touched count i mono l = elim count [ zero ↦ l | suc _ ↦ inflight_add i mono l ]

unfoldable pub touch : Option ℕ → Option ℕ → ℕ → ℕ → Outbox → ℕ × Outbox
unfolding connect
touch none attempts now mono s = (0, s)
touch (some i) attempts now mono s =
    let c = connect s in
    let count = count_where (is_lease_of i attempts) c.rows in
    (
      count,
      record {
        rows = update_where (is_lease_of i attempts) (renew now) c.rows;
        in_flight = touched count i mono c.in_flight;
      },
    )

-- leased_until IS NULL OR leased_until <= now
abbrev pub is_expired : ℕ → Option ℕ → Bool
is_expired now none = true
is_expired now (some t) = leb t now

-- The WHERE of `reclaim`: with `force`, every lease.
abbrev pub is_reclaimed : ℕ → Bool → List (ℕ × ℕ) → Row → Bool
is_reclaimed now true l r = is_leased r.status
is_reclaimed now false l r =
    is_leased r.status && (is_expired now r.leased_until && not (is_in_flight l r.id))

abbrev pub give_back : Row → Row
give_back r = record r { status = pending; leased_until = none }

unfoldable pub reclaim : ℕ → Bool → Outbox → ℕ × Outbox
unfolding connect
reclaim now force s =
    let c = connect s in
    (
      count_where (is_reclaimed now force c.in_flight) c.rows,
      record c { rows = update_where (is_reclaimed now force c.in_flight) give_back c.rows },
    )

abbrev pub is_exhausted : List (ℕ × ℕ) → Row → Bool
is_exhausted l r = is_open r.status && (leb max_attempts r.attempts && not (is_in_flight l r.id))

abbrev pub give_up : Row → Row
give_up r = record r { status = failed; leased_until = none }

unfoldable pub fail_exhausted : Outbox → ℕ × Outbox
unfolding connect
fail_exhausted s =
    let c = connect s in
    (
      count_where (is_exhausted c.in_flight) c.rows,
      record c { rows = update_where (is_exhausted c.in_flight) give_up c.rows },
    )
