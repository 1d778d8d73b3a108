-- ===== src/Supervisor/Backoff.antt =====
-- The waits before a restart stay between the least and the most.
use native.Mathlib.Nat.{le_refl, pow-suc}
use yourcastbot.Prelude.{
  All, Bool, Bool-cases, List, Option, [], arith, false, if◌then◌else◌, inl, inr, leb, max, min,
  none, not, or_else, some, suc, true, zero, ℕ, ◌*◌, ◌+◌, ◌==◌, ◌^◌, ◌∷◌, ◌≡◌, ◌≤◌,
}
use yourcastbot.Supervisor.{
  ChildState, Config, Poll, ProcessSupervisor, exited, is_role, mark_updater_crashed, next_backoff,
  reap_and_restart, reap_child, reap_role, reap_roles, restart, running, set_backoff, spawn,
  updater,
}
use yourcastbot.Table.{delete_where}
use yourcastbot.Table.Laws.{All-update}

abbrev pub IsBounded : Config → ChildState → Type 0
IsBounded conf c = (conf.min_backoff ≤ c.backoff) × (c.backoff ≤ conf.max_backoff)

delete-All :
    (conf : Config) (p : ChildState → Bool) (cs : List ChildState)
    → All (IsBounded conf) cs
    → All (IsBounded conf) (delete_where p cs)
delete-All conf p [] a = tt
delete-All conf p (c ∷ cs) a = elim (Bool-cases (not (p c))) [
  | inl e ↦ rw (e, if◌then◌else◌) (a.0, delete-All conf p cs a.1)
  | inr e ↦ rw (e, if◌then◌else◌) (delete-All conf p cs a.1)
]

least :
    (conf : Config) (c : ChildState) (b : Bool)
    → conf.min_backoff ≤ conf.max_backoff
    → IsBounded conf c
    → IsBounded conf (if b then set_backoff conf.min_backoff c else c)
least conf c true l h = (le_refl conf.min_backoff, l)
least conf c false l h = h

module _ (conf : Config) (l : conf.min_backoff ≤ conf.max_backoff) where
  abbrev pub AreBounded : ProcessSupervisor → Type 0
  AreBounded s = All (IsBounded conf) s.children

  pub spawn-AreBounded :
      (role restarts now : ℕ) (b : Option ℕ) (s : ProcessSupervisor)
      → conf.min_backoff ≤ or_else b conf.min_backoff
      → or_else b conf.min_backoff ≤ conf.max_backoff
      → AreBounded s
      → AreBounded (spawn conf role restarts b now s)
  spawn-AreBounded role restarts now b s low high a =
      ((low, high), delete-All conf (is_role role) s.children a)

  pick :
      (b : Bool) (x y : ℕ × ProcessSupervisor)
      → AreBounded x.1
      → AreBounded y.1
      → AreBounded (if b then x else y).1
  pick true x y h k = h
  pick false x y h k = k

  choose :
      (b : Bool) (x y : ProcessSupervisor)
      → AreBounded x
      → AreBounded y
      → AreBounded (if b then x else y)
  choose true x y h k = h
  choose false x y h k = k

  mark-AreBounded :
      (role : ℕ) (s : ProcessSupervisor) → AreBounded s → AreBounded (mark_updater_crashed role s)
  mark-AreBounded role s a = choose (role == updater) _ _ a a

  next-bounds :
      (d : ℕ) → (conf.min_backoff ≤ next_backoff conf d) × (next_backoff conf d ≤ conf.max_backoff)
  next-bounds d = (omega arith, omega arith)

  restart-AreBounded :
      (c : ChildState) (stops : Bool) (now : ℕ) (s : ProcessSupervisor)
      → AreBounded s
      → AreBounded (restart conf c stops now s).1
  restart-AreBounded c stops now s a =
      let (low, high) = next-bounds c.backoff in
      pick stops _ _ a (
        spawn-AreBounded c.role (c.restarts + 1) (now + c.backoff)
          (some (next_backoff conf c.backoff)) s low high a)

  reap_child-AreBounded :
      (c : ChildState) (poll : Poll) (now : ℕ) (s : ProcessSupervisor)
      → AreBounded s
      → AreBounded (reap_child conf c poll now s).1
  reap_child-AreBounded c running now s a =
      pick (leb (c.started_at + conf.stable_after) now) _ _
        (All-update (is_role c.role) (set_backoff conf.min_backoff) (IsBounded conf)
          (λ x h. least conf x (is_role c.role x) l h) s.children a)
        a
  reap_child-AreBounded c (exited stops) now s a =
      let b = mark-AreBounded c.role s a in
      pick (mark_updater_crashed c.role s).has_stop _ _ b
        (restart-AreBounded c stops now (mark_updater_crashed c.role s) b)

  reap_role-AreBounded :
      (role : ℕ) (o : Option ChildState) (poll : Poll) (now : ℕ) (s : ProcessSupervisor)
      → AreBounded s
      → AreBounded (reap_role conf role o poll now s).1
  reap_role-AreBounded role none poll now s a =
      choose s.has_stop _ _ a (spawn-AreBounded role 0 now none s (le_refl conf.min_backoff) l a)
  reap_role-AreBounded role (some c) poll now s a = reap_child-AreBounded c poll now s a

  reap_roles-AreBounded :
      (poll : ℕ → Poll) (roles : List ℕ) (x : ℕ × ProcessSupervisor)
      → AreBounded x.1
      → AreBounded (reap_roles conf poll roles x).1
  reap_roles-AreBounded poll [] x a = a
  reap_roles-AreBounded poll (role ∷ roles) (now, s) a =
      reap_roles-AreBounded poll roles _ (reap_role-AreBounded role _ (poll role) now s a)

  -- If every process's backoff lies between the least and the most, so it does after a pass over any
  -- roles, whatever has exited and whether or not a stop is asked for.
  pub reap_and_restart-AreBounded :
      (roles : List ℕ) (poll : ℕ → Poll) (now : ℕ) (s : ProcessSupervisor)
      → AreBounded s
      → AreBounded (reap_and_restart conf roles poll now s)
  unfolding reap_and_restart
  reap_and_restart-AreBounded roles poll now s a = reap_roles-AreBounded poll roles (now, s) a

-- The wait before the k-th restart in a row of a process that never runs stable_after long.
abbrev pub backoff_after : Config → ℕ → ℕ
backoff_after conf zero = conf.min_backoff
backoff_after conf (suc k) = next_backoff conf (backoff_after conf k)

double : (m k : ℕ) → m * 2 ^ suc k ≡ m * 2 ^ k * 2
double m k = rw (pow-suc) (ground arith)

not_less : (m k : ℕ) → m ≤ m * 2 ^ k
not_less m zero = omega arith
not_less m (suc k) = let h = not_less m k in rw (double m k) (omega arith)

capped : (low high p : ℕ) → low ≤ p → min high (max low (min high p * 2)) ≡ min high (p * 2)
capped low high p h = ground arith

-- It doubles with each restart up to the most.
pub backoff_after_lem :
    (conf : Config) (k : ℕ)
    → conf.min_backoff ≤ conf.max_backoff
    → backoff_after conf k ≡ min conf.max_backoff (conf.min_backoff * 2 ^ k)
backoff_after_lem conf zero l = omega arith
backoff_after_lem conf (suc k) l =
    rw (backoff_after_lem conf k l, double conf.min_backoff k)
      (capped conf.min_backoff conf.max_backoff (conf.min_backoff * 2 ^ k)
        (not_less conf.min_backoff k))
