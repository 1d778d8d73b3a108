-- ===== src/Winback.antt =====
-- db/winback.py: whose plan stopped, and how many messages of the schedule the chat got. Stamps are
-- seconds.
pub mod Claims
mod Tests
use yourcastbot.Prelude.{
  Bool, List, Option, [], if◌then◌else◌, leb, none, some, suc, ℕ, ◌&&◌, ◌++◌, ◌+◌, ◌==◌, ◌∷◌,
}
use yourcastbot.Table.{
  count_where, delete_where, exists_where, find_where, select_where, update_where,
}

pub record Row : Type 0 where
  pub user_telegram_id : ℕ
  pub ended_at : ℕ
  pub stage : ℕ

abbrev pub has_user : ℕ → Row → Bool
has_user u r = r.user_telegram_id == u

abbrev pub restart : ℕ → Row → Row
restart now r = record r { ended_at = now; stage = 0 }

-- INSERT .. ON CONFLICT(user_telegram_id) DO UPDATE
unfoldable pub start : ℕ → ℕ → List Row → List Row
start u now rs =
    if exists_where (has_user u) rs
    then update_where (has_user u) (restart now) rs
    else rs ++ record { user_telegram_id = u; ended_at = now; stage = 0 } ∷ []

-- ended_at <= now - delay
abbrev pub is_due_at : ℕ → ℕ → ℕ → Row → Bool
is_due_at stage delay now r = r.stage == stage && leb (r.ended_at + delay) now

-- ORDER BY ended_at
abbrev pub insert_by_end : Row → List Row → List Row
insert_by_end r [] = r ∷ []
insert_by_end r (x ∷ xs) =
    let rest : List Row = insert_by_end r xs in
    if leb r.ended_at x.ended_at then r ∷ x ∷ xs else x ∷ rest

abbrev pub by_end : List Row → List Row
by_end [] = []
by_end (r ∷ rs) = insert_by_end r (by_end rs)

abbrev pub with_stage : ℕ → List Row → List (ℕ × ℕ)
with_stage stage [] = []
with_stage stage (r ∷ rs) = (r.user_telegram_id, stage) ∷ with_stage stage rs

abbrev pub due_from : ℕ → List ℕ → ℕ → List Row → List (ℕ × ℕ)
due_from stage [] now rs = []
due_from stage (delay ∷ delays) now rs =
    with_stage stage (by_end (select_where (is_due_at stage delay now) rs))
    ++ due_from (suc stage) delays now rs

unfoldable pub due : List ℕ → ℕ → List Row → List (ℕ × ℕ)
due after_seconds now rs = due_from 0 after_seconds now rs

abbrev pub is_at : ℕ → ℕ → Row → Bool
is_at u stage r = r.user_telegram_id == u && r.stage == stage

abbrev pub advance : Row → Row
advance r = record r { stage = r.stage + 1 }

-- `rowcount == 1`, and the rows.
unfoldable pub claim : ℕ → ℕ → List Row → Bool × List Row
claim u stage rs = (count_where (is_at u stage) rs == 1, update_where (is_at u stage) advance rs)

abbrev pub set_stage : ℕ → Row → Row
set_stage stage r = record r { stage = stage }

unfoldable pub give_back : ℕ → ℕ → List Row → List Row
give_back u stage rs = update_where (is_at u (stage + 1)) (set_stage stage) rs

abbrev pub stage_of : Option Row → Option ℕ
stage_of none = none
stage_of (some r) = some r.stage

unfoldable pub messages_sent : ℕ → List Row → Option ℕ
messages_sent u rs = stage_of (find_where (has_user u) rs)

unfoldable pub forget : ℕ → List Row → List Row
forget u rs = delete_where (has_user u) rs
