-- ===== src/Outbox.antt =====
-- app/core/sender/outbox.py: the rows of `send_outbox`, the memory of the leases that this
-- process holds, and what every operation does first (`_connect`, which runs `ensure_table`).
-- Stamps are seconds: the source's ISO texts have a fixed width, so that their order is the order
-- of the seconds. An operation takes place at one instant, its argument `now`; `mono` is the
-- monotonic clock. Chat and channel numbers are only compared, so they are naturals.
pub mod Payload
pub mod Queue
pub mod Lease
pub mod Claim
pub mod Finish
pub mod Click
pub mod Steps
pub mod Safety
pub mod Order
pub mod Terminal
pub mod Claims
pub mod Fencing
pub mod Retry
pub mod Recovery
pub mod Purge
pub mod Dropped
pub mod Dedupe
mod Tests
use Prim.Native.String.{String}
use yourcastbot.Prelude.{
  ℕ, ◌+◌, ◌*◌, ◌^◌, Bool, true, false, ◌&&◌, Option, none, some, List, [], ◌∷◌, map, max, min, ◌==◌,
  if◌then◌else◌, or_else,
}

-- The three values of ACTIONS; `payload_for_storage` raises on any other.
pub data Action : Type 0 where
  rec circle update : Action

pub data Status : Type 0 where
  pending leased done failed : Status

-- The text of a chat's number, or the synthetic `c{channelId}` of a circle job.
pub data UserId : Type 0 where
  chat : ℕ → UserId
  channel : ℕ → UserId

-- A dict keyed by chat numbers, in insertion order.
abbrev pub ChatMap : Type 0 → Type 0
ChatMap V = List (ℕ × V)

-- `func_params` of a stored job. `record_uniq_id` is `podcastInfo.recordUniqId`, with the values
-- that `_record_uniq_id_from_payload` reads as missing (None, '' and 'None') as `none`.
pub record Params : Type 0 where
  pub link : Option String
  pub record_uniq_id : Option ℕ
  pub chat_ids : ChatMap ℕ
  pub utglangs : ChatMap String
  pub bitratestg : ChatMap ℕ

-- A row; `payload` is `payload_json` once parsed, `none` for a text that does not parse.
pub record Row : Type 0 where
  pub id : ℕ
  pub created_at : Option ℕ
  pub action : Action
  pub user_id : UserId
  pub payload : Option Params
  pub status : Status
  pub attempts : ℕ
  pub leased_until : Option ℕ
  pub available_at : ℕ

-- The table, and `_in_flight`: an id of this process with the monotonic time of its last progress.
pub record Outbox : Type 0 where
  pub rows : List Row
  pub in_flight : List (ℕ × ℕ)

-- What `enqueue` is given.
pub record Job : Type 0 where
  pub action : Action
  pub user_id : UserId
  pub params : Params

abbrev pub lease_seconds : ℕ
lease_seconds = 5 * 60

abbrev pub stall_seconds : ℕ
stall_seconds = 30 * 60

abbrev pub max_attempts : ℕ
max_attempts = 8

abbrev pub max_backoff_seconds : ℕ
max_backoff_seconds = 5 * 60

abbrev pub done_keep_days : ℕ
done_keep_days = 7

abbrev pub failed_keep_days : ℕ
failed_keep_days = 14

abbrev pub action_eq : Action → Action → Bool
action_eq rec rec = true
action_eq circle circle = true
action_eq update update = true
action_eq _ _ = false

abbrev pub user_eq : UserId → UserId → Bool
user_eq (chat a) (chat b) = a == b
user_eq (channel a) (channel b) = a == b
user_eq _ _ = false

abbrev pub is_pending : Status → Bool
is_pending pending = true
is_pending _ = false

abbrev pub is_leased : Status → Bool
is_leased leased = true
is_leased _ = false

-- status IN ('pending', 'leased')
abbrev pub is_open : Status → Bool
is_open pending = true
is_open leased = true
is_open _ = false

-- user_id GLOB 'c*'
abbrev pub is_circle_user_id : UserId → Bool
is_circle_user_id (chat _) = false
is_circle_user_id (channel _) = true

abbrev pub is_rec : Action → Bool
is_rec rec = true
is_rec _ = false

abbrev pub is_circle : Action → Bool
is_circle circle = true
is_circle _ = false

-- `action in REC_SEND_ACTIONS`
abbrev pub is_rec_send : Action → Bool
is_rec_send update = false
is_rec_send _ = true

-- A circle job from before the split lived as `rec` with a synthetic user id.
abbrev pub is_legacy : Row → Bool
is_legacy r = is_rec r.action && is_circle_user_id r.user_id

-- The UPDATE of `ensure_table`, on one row.
abbrev pub split : Row → Row
split r = if is_legacy r then record r { action = circle } else r

-- Every operation opens a connection, and with it brings the table up to date.
unfoldable pub connect : Outbox → Outbox
connect s = record s { rows = map split s.rows }

-- `_inflight_discard`
abbrev pub inflight_discard : ℕ → List (ℕ × ℕ) → List (ℕ × ℕ)
inflight_discard i [] = []
inflight_discard i ((j, t) ∷ l) =
    let rest = inflight_discard i l in if j == i then rest else (j, t) ∷ rest

-- `_inflight_add`
abbrev pub inflight_add : ℕ → ℕ → List (ℕ × ℕ) → List (ℕ × ℕ)
inflight_add i mono l = (i, mono) ∷ inflight_discard i l

-- `id IN (…)` over `_inflight_ids`
abbrev pub is_in_flight : List (ℕ × ℕ) → ℕ → Bool
is_in_flight [] i = false
is_in_flight ((j, _) ∷ l) i = if j == i then true else is_in_flight l i

abbrev pub has_id : ℕ → Row → Bool
has_id i r = r.id == i
