-- ===== src/Supervisor.antt =====
-- app/core/process_supervisor.py: one process starts the others and restarts those that exit. Roles
-- are numbers. The operating system's answers are parameters: what `poll` says of a role's process,
-- and whether a stop is requested during a wait. Times and backoffs are whole seconds.
pub mod Backoff
pub mod Roles
mod Tests
use yourcastbot.Prelude.{
  Bool, List, Option, [], if◌then◌else◌, leb, max, min, none, or_else, some, true, ℕ, ◌*◌, ◌+◌,
  ◌==◌, ◌∷◌,
}
use yourcastbot.Table.{delete_where, find_where, update_where}

pub record Config : Type 0 where
  pub min_backoff : ℕ
  pub max_backoff : ℕ
  pub stable_after : ℕ

pub record ChildState : Type 0 where
  pub role : ℕ
  pub restarts : ℕ
  pub started_at : ℕ
  pub backoff : ℕ

pub record ProcessSupervisor : Type 0 where
  pub children : List ChildState
  pub has_stop : Bool
  pub is_updater_crashed : Bool

-- ROLES: bot, updater, jobs, admin
abbrev pub updater : ℕ
updater = 1

abbrev pub is_role : ℕ → ChildState → Bool
is_role role c = c.role == role

abbrev pub spawn : Config → ℕ → ℕ → Option ℕ → ℕ → ProcessSupervisor → ProcessSupervisor
spawn conf role restarts backoff now s = record s {
  children =
      record {
        role = role;
        restarts = restarts;
        started_at = now;
        backoff = or_else backoff conf.min_backoff;
      }
      ∷ delete_where (is_role role) s.children;
}

-- What happens to a role's process: `poll` finds it running, or exited; and whether a stop is
-- requested while the supervisor waits before the restart.
pub data Poll : Type 0 where
  running : Poll
  exited : Bool → Poll

abbrev pub set_backoff : ℕ → ChildState → ChildState
set_backoff b c = record c { backoff = b }

abbrev pub mark_updater_crashed : ℕ → ProcessSupervisor → ProcessSupervisor
mark_updater_crashed role s = if role == updater then record s { is_updater_crashed = true } else s

abbrev pub next_backoff : Config → ℕ → ℕ
next_backoff conf delay = min conf.max_backoff (max conf.min_backoff (delay * 2))

-- The time and the supervisor after the wait that a stop cut short, or after the restart.
abbrev pub restart : Config → ChildState → Bool → ℕ → ProcessSupervisor → ℕ × ProcessSupervisor
restart conf c stops now s = if stops then (now, record s { has_stop = true }) else (
  now + c.backoff,
  spawn conf c.role (c.restarts + 1) (some (next_backoff conf c.backoff)) (now + c.backoff) s,
)

abbrev pub reap_child : Config → ChildState → Poll → ℕ → ProcessSupervisor → ℕ × ProcessSupervisor
reap_child conf c running now s =
    if leb (c.started_at + conf.stable_after) now
    then (
      now,
      record s {
        children = update_where (is_role c.role) (set_backoff conf.min_backoff) s.children;
      },
    )
    else (now, s)
reap_child conf c (exited stops) now s =
    let t = mark_updater_crashed c.role s in
    if t.has_stop then (now, t) else restart conf c stops now t

abbrev pub reap_role :
    Config → ℕ → Option ChildState → Poll → ℕ → ProcessSupervisor → ℕ × ProcessSupervisor
reap_role conf role none poll now s =
    (now, (if s.has_stop then s else spawn conf role 0 none now s))
reap_role conf role (some c) poll now s = reap_child conf c poll now s

-- The roles one after the other; the clock runs while the supervisor waits.
abbrev pub reap_roles : Config → (ℕ → Poll) → List ℕ → ℕ × ProcessSupervisor → ℕ × ProcessSupervisor
reap_roles conf poll [] x = x
reap_roles conf poll (role ∷ roles) (now, s) =
    reap_roles conf poll roles
      (reap_role conf role (find_where (is_role role) s.children) (poll role) now s)

unfoldable pub reap_and_restart :
    Config → List ℕ → (ℕ → Poll) → ℕ → ProcessSupervisor → ProcessSupervisor
reap_and_restart conf roles poll now s = (reap_roles conf poll roles (now, s)).1

unfoldable pub start_all : Config → List ℕ → ℕ → ProcessSupervisor → ProcessSupervisor
start_all conf [] now s = s
start_all conf (role ∷ roles) now s = start_all conf roles now (spawn conf role 0 none now s)
