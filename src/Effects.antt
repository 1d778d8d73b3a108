-- ===== src/Effects.antt =====
-- db/payment_effects.py: what a payment sets off, one row for each payment and effect. A text is a
-- number that stands for it; an effect is one, too.
pub mod Run
pub mod Ends
mod Tests
use yourcastbot.Outbox.{Status, done, failed, is_open, leased, pending}
use yourcastbot.Prelude.{
  Bool, List, Option, [], false, if◌then◌else◌, leb, ltb, max, none, some, ℕ, ◌&&◌, ◌*◌, ◌++◌, ◌+◌,
  ◌==◌, ◌∷◌,
}
use yourcastbot.Table.{best_where, exists_where, update_where}

-- The column `payment`: `payment_key` of a row of payment_history, or a chat that paid before.
pub data Source : Type 0 where
  payment_key : ℕ → Source
  backfill_key : ℕ → Source

abbrev pub source_eq : Source → Source → Bool
source_eq (payment_key a) (payment_key b) = a == b
source_eq (backfill_key a) (backfill_key b) = a == b
source_eq _ _ = false

pub record Effect : Type 0 where
  pub id : ℕ
  pub payment : Source
  pub user_id : ℕ
  pub effect : ℕ
  pub status : Status
  pub attempts : ℕ
  pub due_at : ℕ
  pub created_at : ℕ
  pub done_at : Option ℕ
  pub error : Option ℕ

abbrev pub paid_models : ℕ
paid_models = 0

abbrev pub lease_seconds : ℕ
lease_seconds = 5 * 60

abbrev pub retry_seconds : ℕ
retry_seconds = 10 * 60

abbrev pub max_attempts : ℕ
max_attempts = 5

abbrev pub new_effect : ℕ → Source → ℕ → ℕ → ℕ → Effect
new_effect i source u effect now = record {
  id = i;
  payment = source;
  user_id = u;
  effect = effect;
  status = pending;
  attempts = 0;
  due_at = now;
  created_at = now;
  done_at = none;
  error = none;
}

-- The id that SQLite gives a new row: one above the highest.
abbrev pub highest : List Effect → ℕ
highest [] = 0
highest (e ∷ es) = max e.id (highest es)

abbrev pub is_same : Source → ℕ → Effect → Bool
is_same source effect e = source_eq e.payment source && e.effect == effect

-- INSERT OR IGNORE, under UNIQUE (payment, effect)
abbrev pub insert_or_ignore : Source → ℕ → ℕ → ℕ → List Effect → List Effect
insert_or_ignore source u effect now es =
    if exists_where (is_same source effect) es
    then es
    else es ++ new_effect (highest es + 1) source u effect now ∷ []

-- EFFECTS has one element.
unfoldable pub queue : ℕ → Source → ℕ → List Effect → List Effect
queue u source now es = insert_or_ignore source u paid_models now es

-- The rows after `backfill`; the number that it returns is how many rows are new.
unfoldable pub backfill : ℕ → List ℕ → ℕ → List Effect → List Effect
backfill effect [] now es = es
backfill effect (u ∷ us) now es =
    backfill effect us now (insert_or_ignore (backfill_key u) u effect now es)

-- A row that waits, or a lease that ran out.
abbrev pub is_due : ℕ → Effect → Bool
is_due now e = is_open e.status && leb e.due_at now

abbrev pub lower_id : Effect → Effect → Bool
lower_id a b = ltb a.id b.id

abbrev pub has_id : ℕ → Effect → Bool
has_id i e = e.id == i

abbrev pub lease : ℕ → Effect → Effect
lease now e = record e { status = leased; attempts = e.attempts + 1; due_at = now + lease_seconds }

-- The dict that the worker gets keeps the old `due_at`.
abbrev pub claimed : Effect → Effect
claimed e = record e { status = leased; attempts = e.attempts + 1 }

abbrev pub lease_row : Option Effect → ℕ → List Effect → Option Effect × List Effect
lease_row none now es = (none, es)
lease_row (some e) now es = (some (claimed e), update_where (has_id e.id) (lease now) es)

unfoldable pub claim : ℕ → List Effect → Option Effect × List Effect
claim now es = lease_row (best_where (is_due now) lower_id es) now es

abbrev pub settle : Status → ℕ → Option ℕ → Option ℕ → Effect → Effect
settle st due ended error e = record e { status = st; due_at = due; done_at = ended; error = error }

abbrev pub finish_with : Option ℕ → Effect → ℕ → Effect → Effect
finish_with none row now e = settle done now (some now) none e
finish_with (some error) row now e =
    if leb max_attempts row.attempts
    then settle failed now none (some error) e
    else settle pending (now + retry_seconds * row.attempts) none (some error) e

abbrev pub outcome : Option ℕ → Effect → Status
outcome none row = done
outcome (some error) row = if leb max_attempts row.attempts then failed else pending

-- The row's status, and the table.
unfoldable pub finish : Effect → Option ℕ → ℕ → List Effect → Status × List Effect
finish row error now es =
    (outcome error row, update_where (has_id row.id) (finish_with error row now) es)
