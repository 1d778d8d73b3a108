-- ===== src/Outbox/Claim.antt =====
-- `claim`: which row an idle worker gets, and the lease that it takes on it.
use yourcastbot.Outbox.{
  Action, Outbox, Params, Row, UserId, action_eq, connect, has_id, inflight_add, is_circle,
  is_circle_user_id, is_leased, is_pending, lease_seconds, leased, max_attempts, user_eq,
}
use yourcastbot.Prelude.{
  Bool, List, Option, false, if◌then◌else◌, leb, ltb, none, not, some, suc, true, ℕ, ◌&&◌, ◌+◌,
  ◌==◌, ◌||◌,
}
use yourcastbot.Table.{best_where, count_where, exists_where, find_where, update_where}

-- `_CIRCLE_ROW`
abbrev pub is_circle_row : Row → Bool
is_circle_row r = is_circle r.action || is_circle_user_id r.user_id

-- A stamp as SQLite orders it: NULL before every text.
abbrev pub stamp : Option ℕ → ℕ
stamp none = 0
stamp (some t) = suc t

-- created_at ASC, id ASC
unfoldable pub older : Row → Row → Bool
older a b =
    ltb (stamp a.created_at) (stamp b.created_at)
    || (stamp a.created_at == stamp b.created_at && ltb a.id b.id)

-- The ORDER BY of `claim`: clicks before circle rows; clicks newest first, circle rows oldest first.
unfoldable pub claim_order : Row → Row → Bool
claim_order a b =
    if is_circle_row a
    then (if is_circle_row b then older a b else false)
    else (if is_circle_row b then true else older b a)

-- The NOT EXISTS: a leased row of the same user and action.
abbrev pub is_lease_by : UserId → Action → Row → Bool
is_lease_by u a r = is_leased r.status && (user_eq r.user_id u && action_eq r.action a)

abbrev pub is_busy : List Row → Row → Bool
is_busy rs r = exists_where (is_lease_by r.user_id r.action) rs

abbrev pub has_action : Option Action → Row → Bool
has_action none r = true
has_action (some a) r = action_eq r.action a

-- The WHERE of a claim without an id.
abbrev pub is_claimable : ℕ → Option Action → List Row → Row → Bool
is_claimable now action rs r =
    is_pending r.status
    && (leb r.available_at now
        && (ltb r.attempts max_attempts && (has_action action r && not (is_busy rs r))))

-- The WHERE of a claim by id.
abbrev pub is_due : ℕ → ℕ → Row → Bool
is_due i now r = has_id i r && (is_pending r.status && leb r.available_at now)

-- The row that the SELECT of `claim` gives.
unfoldable pub chosen : Option ℕ → Option Action → ℕ → List Row → Option Row
chosen (some i) action now rs = find_where (is_due i now) rs
chosen none action now rs = best_where (is_claimable now action rs) claim_order rs

abbrev pub take_lease : ℕ → ℕ → Row → Row
take_lease attempts until r = record r {
  status = leased;
  attempts = attempts;
  leased_until = some until;
}

-- WHERE id = ? AND status = 'pending'
abbrev pub is_pending_id : ℕ → Row → Bool
is_pending_id i r = has_id i r && is_pending r.status

-- The job of `job_from_row`, as far as the queue needs it.
pub record Claimed : Type 0 where
  pub outbox_id : ℕ
  pub attempts : ℕ
  pub action : Action
  pub user_id : UserId
  pub params : Params

-- `no_job`: nothing to do. `bad_job`: the lease is taken, and then `job_from_row` raises on a
-- payload that does not parse, before the id is in flight.
pub data ClaimResult : Type 0 where
  no_job : ClaimResult
  bad_job : ClaimResult
  some_job : Claimed → ClaimResult

abbrev pub lease_rows : ℕ → Row → List Row → List Row
lease_rows now r =
    update_where (is_pending_id r.id) (take_lease (r.attempts + 1) (now + lease_seconds))

abbrev pub hand_out : Row → ℕ → Option Params → Outbox → ClaimResult × Outbox
hand_out r mono none s = (bad_job, s)
hand_out r mono (some p) s = (
  some_job (record {
    outbox_id = r.id;
    attempts = r.attempts + 1;
    action = r.action;
    user_id = r.user_id;
    params = p;
  }),
  record s { in_flight = inflight_add r.id mono s.in_flight },
)

-- Unless exactly one row changed, the transaction is rolled back.
abbrev pub lease : Option Row → ℕ → ℕ → Outbox → ClaimResult × Outbox
lease none now mono s = (no_job, s)
lease (some r) now mono s =
    if count_where (is_pending_id r.id) s.rows == 1
    then hand_out r mono r.payload (record s { rows = lease_rows now r s.rows })
    else (no_job, s)

unfoldable pub claim : Option ℕ → Option Action → ℕ → ℕ → Outbox → ClaimResult × Outbox
unfolding connect chosen
claim id action now mono s = let c = connect s in lease (chosen id action now c.rows) now mono c
