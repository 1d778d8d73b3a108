-- ===== src/Digest/Once.antt =====
-- The key of the digest queue: one row a user.
use yourcastbot.Digest.{Digest, Row, has_user}
use yourcastbot.Digest.Queue.{give_back, reclaim}
use yourcastbot.Prelude.{Bool, List, refl, ℕ, ◌≡◌, ◌≤◌}
use yourcastbot.Table.{count_where, update_where}
use yourcastbot.Table.Laws.{count-update_same}

abbrev pub IsUnique : List Row → Type 0
IsUnique rs = (u : ℕ) → count_where (has_user u) rs ≤ 1

pub update-IsUnique :
    (p : Row → Bool) (f : Row → Row) (rs : List Row)
    → ((r : Row) → (f r).user_telegram_id ≡ r.user_telegram_id)
    → IsUnique rs
    → IsUnique (update_where p f rs)
update-IsUnique p f rs same h u =
    rw (count-update_same p (has_user u) f (λ r _. rw (same r)) rs) (h u)

pub reclaim-IsUnique :
    (now : ℕ) (force : Bool) (s : Digest) → IsUnique s.rows → IsUnique (reclaim now force s).1.rows
unfolding reclaim
reclaim-IsUnique now force s h = update-IsUnique _ give_back s.rows (λ r. refl) h
