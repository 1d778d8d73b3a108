-- ===== src/Digest.antt =====
-- app/jobs/digest_outbox.py: the queue of users to send a digest to, one row a user; and a round of
-- the loop of `digest_watcher` (app/jobs/digest_watcher.py). The lease protocol is that of
-- `send_outbox`; `_in_flight` is a set of user ids here.
pub mod Queue
pub mod Watcher
pub mod Once
pub mod Flag
pub mod Progress
pub mod Oldest
mod Tests
use yourcastbot.Outbox.{Status, done, failed, is_leased, is_open, is_pending, leased, pending}
use yourcastbot.Prelude.{Bool, List, Option, [], false, if◌then◌else◌, true, ℕ, ◌==◌, ◌∷◌}

pub record Row : Type 0 where
  pub user_telegram_id : ℕ
  pub created_at : ℕ
  pub status : Status
  pub attempts : ℕ
  pub leased_until : Option ℕ
  pub available_at : ℕ

pub record Digest : Type 0 where
  pub rows : List Row
  pub in_flight : List ℕ

abbrev pub has_user : ℕ → Row → Bool
has_user u r = r.user_telegram_id == u

abbrev pub contains : List ℕ → ℕ → Bool
contains [] u = false
contains (v ∷ l) u = if v == u then true else contains l u

abbrev pub discard : ℕ → List ℕ → List ℕ
discard u [] = []
discard u (v ∷ l) = let rest = discard u l in if v == u then rest else v ∷ rest

abbrev pub add : ℕ → List ℕ → List ℕ
add u l = u ∷ discard u l
