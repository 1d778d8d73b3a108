-- ===== src/Outbox/Finish.antt =====
-- `mark_done`, `fail_or_retry` and `purge_old`: how a job ends. The alerts that `fail_or_retry`
-- sends to the owner and to the listeners, and the timer that nudges the balancer, are not modelled.
use yourcastbot.Prelude.{
  ℕ, zero, suc, ◌+◌, ◌*◌, ◌^◌, ◌-◌, Bool, true, false, ◌&&◌, ◌||◌, Option, none, some, List, min,
  max, ltb, leb, if◌then◌else◌, or_else,
}
use yourcastbot.Table.{count_where, update_where, delete_where, find_where}
use yourcastbot.Outbox.{
  Outbox, Row, Status, pending, done, failed, is_leased, has_id, connect, inflight_discard,
  max_attempts, max_backoff_seconds, done_keep_days, failed_keep_days,
}
use yourcastbot.Outbox.Queue.{same_attempts}
use yourcastbot.Outbox.Lease.{is_lease_of, give_up}

-- What the code reads off an exception: its `retry_after_seconds`, the number of seconds in
-- Telegram's "retry after N" (bot) and "A wait of N seconds" (client).
pub record Signals : Type 0 where
  pub retry_after_seconds : Option ℕ
  pub bot_wait : Option ℕ
  pub client_wait : Option ℕ

-- An exception; `cause` is that of an `OutboxRetryableError` which has one, `source_gone` the
-- answer of `audio_source_gone`.
pub record SendError : Type 0 where
  pub own : Signals
  pub cause : Option Signals
  pub source_gone : Bool

-- `get_timeout_from_error_bot`, `get_timeout_from_error_client`
abbrev timeout : Option ℕ → Option ℕ
timeout none = none
timeout (some n) = some (n + 1)

abbrev first_of_two : Option ℕ → Option ℕ → Option ℕ
first_of_two none b = b
first_of_two (some n) b = some n

abbrev pub pause_of : Signals → Option ℕ
pause_of e = elim e.retry_after_seconds [
  | none ↦ first_of_two (timeout e.bot_wait) (timeout e.client_wait)
  | some n ↦ elim n [
    | zero ↦ first_of_two (timeout e.bot_wait) (timeout e.client_wait)
    | suc m ↦ some (suc m)
  ]
]

unfoldable pub flood_wait_seconds : Option SendError → Option ℕ
flood_wait_seconds none = none
flood_wait_seconds (some e) = pause_of (or_else e.cause e.own)

unfoldable pub retry_delay : ℕ → Option SendError → ℕ
retry_delay attempts error =
    or_else (flood_wait_seconds error) (min max_backoff_seconds (2 ^ max attempts 1))

abbrev pub is_terminal : Option SendError → Bool
is_terminal none = false
is_terminal (some e) = e.source_gone

abbrev pub finish : Row → Row
finish r = record r { status = done; leased_until = none }

abbrev discarded : ℕ → ℕ → List (ℕ × ℕ) → List (ℕ × ℕ)
discarded count i l = elim count [ zero ↦ l | suc _ ↦ inflight_discard i l ]

unfoldable pub mark_done : ℕ → Option ℕ → Outbox → Outbox
unfolding connect
mark_done i attempts s =
    let c = connect s in
    record {
      rows = update_where (is_lease_of i attempts) finish c.rows;
      in_flight = discarded (count_where (is_lease_of i attempts) c.rows) i c.in_flight;
    }

pub data Outcome : Type 0 where
  skipped gave_up retried : Outcome

abbrev pub put_back : ℕ → Row → Row
put_back at r = record r { status = pending; leased_until = none; available_at = at }

abbrev pub settle : ℕ → Option SendError → ℕ → Row → Outbox → Outcome × Outbox
settle i error now r c =
    if leb max_attempts r.attempts || is_terminal error
    then (
      gave_up,
      record {
        rows = update_where (has_id i) give_up c.rows;
        in_flight = inflight_discard i c.in_flight;
      },
    )
    else (
      retried,
      record {
        rows = update_where (has_id i) (put_back (now + retry_delay r.attempts error)) c.rows;
        in_flight = inflight_discard i c.in_flight;
      },
    )

abbrev pub settle_row : ℕ → Option SendError → Option ℕ → ℕ → Option Row → Outbox → Outcome × Outbox
settle_row i error attempts now none c = (skipped, c)
settle_row i error attempts now (some r) c =
    if is_leased r.status && same_attempts attempts r then settle i error now r c else (skipped, c)

unfoldable pub fail_or_retry : ℕ → Option SendError → Option ℕ → ℕ → Outbox → Outcome × Outbox
unfolding connect retry_delay
fail_or_retry i error attempts now s =
    let c = connect s in settle_row i error attempts now (find_where (has_id i) c.rows) c

-- `_keep_days`: `none` for the ValueError.
abbrev pub keep_days : Option ℕ → ℕ → Option ℕ
keep_days none default = some default
keep_days (some zero) default = none
keep_days (some (suc n)) default = some (suc n)

abbrev pub is_status : Status → Status → Bool
is_status done done = true
is_status failed failed = true
is_status _ _ = false

abbrev pub created_before : ℕ → Option ℕ → Bool
created_before cutoff none = false
created_before cutoff (some t) = ltb t cutoff

-- WHERE status = ? AND created_at IS NOT NULL AND created_at < ?
abbrev pub is_old : Status → ℕ → Row → Bool
is_old st cutoff r = is_status st r.status && created_before cutoff r.created_at

abbrev pub iso_before : ℕ → ℕ → ℕ
iso_before now days = now - days * 86400

pub record Purged : Type 0 where
  pub done_rows : ℕ
  pub failed_rows : ℕ

abbrev pub purge_in : Option ℕ → Option ℕ → ℕ → Outbox → Option (Purged × Outbox)
purge_in none _ now s = none
purge_in (some d) none now s = none
purge_in (some d) (some f) now s =
    let c : Outbox = connect s in
    let kept : List Row = delete_where (is_old done (iso_before now d)) c.rows in
    some (
      record {
        done_rows = count_where (is_old done (iso_before now d)) c.rows;
        failed_rows = count_where (is_old failed (iso_before now f)) kept;
      },
      record c { rows = delete_where (is_old failed (iso_before now f)) kept },
    )

-- The numbers of rows deleted, and the outbox without them; `none` for a ValueError on the days.
unfoldable pub purge_old : Option ℕ → Option ℕ → ℕ → Outbox → Option (Purged × Outbox)
unfolding connect
purge_old done_after failed_after now s =
    purge_in (keep_days done_after done_keep_days) (keep_days failed_after failed_keep_days) now s
