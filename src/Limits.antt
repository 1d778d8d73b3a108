-- ===== src/Limits.antt =====
-- app/service/record/free_limit.py: how many episodes by click a plan gives in a window.
pub mod AiQuota
pub mod Groups
pub mod Clicks
pub mod Wait
pub mod Asks
pub mod Rights
pub mod Hours
mod Tests
use yourcastbot.Plan.{Entitlements, is_running}
use yourcastbot.Prelude.{
  List, Option, if◌then◌else◌, length, ltb, max, none, some, ℕ, ◌*◌, ◌+◌, ◌-◌,
}
use yourcastbot.Usage.{Event, contains, episodes_since, first_to_leave, rec, union}

-- (allowed, seconds until the next episode)
pub data Window : Type 0 where
  may : Window
  wait : ℕ → Window

-- Delivered in the window, and the clicks still waiting.
abbrev pub counted : ℕ → List ℕ → ℕ → ℕ → List Event → List ℕ
counted u waiting window now es = union waiting (episodes_since u rec window now es)

abbrev pub wait_for : Option ℕ → ℕ → ℕ → ℕ
wait_for none window now = max window 60
wait_for (some leaves) window now = max (leaves + window - now) 60

-- `window_check`; a link is given as its `episode_ref`, a hash.
unfoldable pub window_check : ℕ → ℕ → List ℕ → ℕ → ℕ → ℕ → List Event → Window
window_check u x waiting limit window now es =
    if contains x (counted u waiting window now es)
    then may
    else if ltb (length (counted u waiting window now es)) limit
    then may
    else wait (wait_for (first_to_leave u rec window now es) window now)

pub data LimitKind : Type 0 where
  week_limit : LimitKind
  trial_limit : LimitKind
  grant_limit : LimitKind

pub record Hit : Type 0 where
  pub limit : LimitKind
  pub wait : ℕ
  pub level : ℕ
  pub count : ℕ

abbrev pub kind_of : Entitlements → LimitKind
kind_of rights = elim rights.grant [
  | some _ ↦ grant_limit
  | none ↦ if is_running rights then trial_limit else week_limit
]

abbrev pub hit_of : Window → Entitlements → ℕ → Option Hit
hit_of may rights count = none
hit_of (wait w) rights count =
    some (record { limit = kind_of rights; wait = w; level = rights.level; count = count })

abbrev pub limit_of : Option ℕ → Entitlements → ℕ → ℕ → List ℕ → ℕ → List Event → Option Hit
limit_of none rights u x waiting now es = none
limit_of (some count) rights u x waiting now es =
    hit_of (window_check u x waiting count (rights.features.clicks_hours * 3600) now es) rights
      count

-- `limit_hit`, the chat's entitlements given
unfoldable pub limit_hit : Entitlements → ℕ → ℕ → List ℕ → ℕ → List Event → Option Hit
limit_hit rights u x waiting now es = limit_of rights.features.clicks rights u x waiting now es
