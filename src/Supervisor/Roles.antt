-- ===== src/Supervisor/Roles.antt =====
-- A process that exits again and again, and the set of the processes.
use mathlib.Core.Path.{subst}
use yourcastbot.Prelude.{
  Bool, [], ap, arith, false, if◌then◌else◌, min, refl, some, suc, sym, true, zero, ℕ, ◌*◌, ◌+◌,
  ◌==◌, ◌^◌, ◌∙◌, ◌∷◌, ◌≡◌, ◌≤◌,
}
use yourcastbot.Supervisor.{
  ChildState, Config, ProcessSupervisor, exited, is_role, mark_updater_crashed, next_backoff,
  reap_child, reap_role, reap_roles,
}
use yourcastbot.Supervisor.Backoff.{backoff_after, backoff_after_lem}
use yourcastbot.Table.{find_where}

-- The role has a process that was restarted `k` times and waits `b` next time; nobody asked to stop.
pub record IsRestarted (role k b : ℕ) (s : ProcessSupervisor) : Type 0 where
  pub child : ChildState
  pub found : find_where (is_role role) s.children ≡ some child
  pub its_role : child.role ≡ role
  pub times : child.restarts ≡ k
  pub waits : child.backoff ≡ b
  pub goes_on : s.has_stop ≡ false

-- The process exits each time before `stable_after` is over.
abbrev pub crashes : Config → ℕ → ℕ → ℕ × ProcessSupervisor → ℕ × ProcessSupervisor
crashes conf role zero x = x
crashes conf role (suc k) x =
    reap_roles conf (λ _. exited false) (role ∷ []) (crashes conf role k x)

marked_stop :
    (role : ℕ) (s : ProcessSupervisor) → (mark_updater_crashed role s).has_stop ≡ s.has_stop
marked_stop role s = ground arith

unstopped :
    (P : ProcessSupervisor → Type 0) (b : Bool) (x y : ℕ × ProcessSupervisor)
    → b ≡ false
    → P y.1
    → P (if b then x else y).1
unstopped P true x y e h = cc
unstopped P false x y e h = h

reap_child-IsRestarted :
    (conf : Config) (role k b now : ℕ) (c : ChildState) (s : ProcessSupervisor)
    → c.role ≡ role
    → c.restarts ≡ k
    → c.backoff ≡ b
    → s.has_stop ≡ false
    → IsRestarted role (suc k) (next_backoff conf b) (reap_child conf c (exited false) now s).1
reap_child-IsRestarted conf role k b now c s er ek eb h =
    let own : (c.role == role) ≡ true = ground arith in
    let e = marked_stop c.role s ∙ h in
    unstopped (IsRestarted role (suc k) (next_backoff conf b))
      (mark_updater_crashed c.role s).has_stop _ _ e
      (record {
        child = record {
          role = c.role;
          restarts = c.restarts + 1;
          started_at = now + c.backoff;
          backoff = next_backoff conf c.backoff;
        };
        found = rw (own, if◌then◌else◌) refl;
        its_role = er;
        times = ground arith;
        waits = ap (next_backoff conf) eb;
        goes_on = e;
      })

crash-IsRestarted :
    (conf : Config) (role k b now : ℕ) (s : ProcessSupervisor)
    → IsRestarted role k b s
    → IsRestarted role
        (suc k)
        (next_backoff conf b)
        (reap_roles conf (λ _. exited false) (role ∷ []) (now, s)).1
crash-IsRestarted conf role k b now s i =
    subst
      (λ o.
        IsRestarted role (suc k) (next_backoff conf b)
          (reap_role conf role o (exited false) now s).1)
      (sym i.found)
      (reap_child-IsRestarted conf role k b now i.child s i.its_role i.times i.waits i.goes_on)

all-IsRestarted :
    (conf : Config) (role k now : ℕ) (s : ProcessSupervisor)
    → IsRestarted role 0 conf.min_backoff s
    → IsRestarted role k (backoff_after conf k) (crashes conf role k (now, s)).1
all-IsRestarted conf role zero now s i = i
all-IsRestarted conf role (suc k) now s i =
    crash-IsRestarted conf role k (backoff_after conf k) _ _ (all-IsRestarted conf role k now s i)

-- A role's process that starts fresh and exits at each of k polls in a row, while no stop is asked
-- for and the other roles are left aside, is restarted k times, and its next wait is the least
-- backoff doubled k times, up to the most.
pub crashes-IsRestarted :
    (conf : Config) (role k now : ℕ) (s : ProcessSupervisor)
    → conf.min_backoff ≤ conf.max_backoff
    → IsRestarted role 0 conf.min_backoff s
    → IsRestarted role k
        (min conf.max_backoff (conf.min_backoff * 2 ^ k))
        (crashes conf role k (now, s)).1
crashes-IsRestarted conf role k now s l i =
    subst (λ b. IsRestarted role k b (crashes conf role k (now, s)).1) (backoff_after_lem conf k l)
      (all-IsRestarted conf role k now s i)
