-- ===== src/Grants.antt =====
-- db/plan_grants.py: plans given for something other than money, beside the plan rows of
-- `user_tariff_cs`. Stamps are seconds; a kind of grant is a number that stands for its text; a
-- NULL tariff id or count of hours is 0, as the source reads it. A balance may be a debt, and a number of
-- deliveries of -1 is unlimited.
pub mod Hold
pub mod Start
pub mod Check
pub mod Single
pub mod Frame
pub mod Cases
pub mod Paid
pub mod Runs
pub mod Grace
pub mod Restore
mod Tests
use yourcastbot.Prelude.{Bool, List, Option, is_some, not, ℕ, ℤ, ◌&&◌, ◌==◌}
use yourcastbot.Table.{find_where}

pub data Reason : Type 0 where
  replaced : Reason
  stopped : Reason
  unsubscribed : Reason
  other_reason : ℕ → Reason

pub record Grant : Type 0 where
  pub id : ℕ
  pub user_id : ℕ
  pub kind : ℕ
  pub tariff_id : ℕ
  pub prev_tariff_id : ℕ
  pub started_at : ℕ
  pub checked_at : Option ℕ
  pub period_started_at : ℕ
  pub missing_since : Option ℕ
  pub ended_at : Option ℕ
  pub end_reason : Option Reason

-- A row of `user_tariff_cs`: the chat's plan.
pub record Plan : Type 0 where
  pub uid : ℕ
  pub tariff_id : ℕ
  pub balance : ℤ
  pub time_left : ℕ
  pub notify_count : Option ℤ

pub record Tariff : Type 0 where
  pub id : ℕ
  pub level : ℕ
  pub price : ℕ
  pub notify_count : ℤ

pub record User : Type 0 where
  pub id : ℕ
  pub telegram_id : ℕ
  pub is_deleted : Bool

pub record Store : Type 0 where
  pub users : List User
  pub tariffs : List Tariff
  pub plans : List Plan
  pub grants : List Grant

abbrev pub hold_hours : ℕ
hold_hours = 168

-- Hours, as in config.py.
abbrev pub tariff_period : ℕ
tariff_period = 720

abbrev pub is_active : ℕ → Grant → Bool
is_active u g = g.user_id == u && not (is_some g.ended_at)

-- `active`
abbrev pub active : ℕ → Store → Option Grant
active u s = find_where (is_active u) s.grants

abbrev pub has_id : ℕ → Grant → Bool
has_id i g = g.id == i

abbrev pub has_uid : ℕ → Plan → Bool
has_uid u p = p.uid == u

-- The plan row is still the one that the grant put there.
abbrev pub holds : ℕ → ℕ → Plan → Bool
holds u tariff p = p.uid == u && p.tariff_id == tariff
