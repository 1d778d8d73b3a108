-- ===== src/Supervisor/Tests.antt =====
-- The supervisor with the program's numbers, and the theorems at concrete inputs.
use yourcastbot.Prelude.{[], arith, false, min, refl, true, ◌*◌, ◌^◌, ◌∷◌, ◌≡◌}
use yourcastbot.Supervisor.{
  ChildState, Config, ProcessSupervisor, exited, reap_and_restart, start_all,
}
use yourcastbot.Supervisor.Roles.{IsRestarted, crashes, crashes-IsRestarted}

abbrev conf : Config
conf = record { min_backoff = 1; max_backoff = 60; stable_after = 60 }

abbrev empty : ProcessSupervisor
empty = record { children = []; has_stop = false; is_updater_crashed = false }

abbrev started_child : ChildState
started_child = record { role = 1; restarts = 0; started_at = 100; backoff = 1 }

abbrev one_child : ProcessSupervisor
one_child = record empty { children = started_child ∷ [] }

start_one : start_all conf (1 ∷ []) 100 empty ≡ one_child
unfolding start_all
start_one = refl

crash_once : reap_and_restart conf (1 ∷ []) (λ _. exited false) 105 one_child ≡ record {
  children = record { role = 1; restarts = 1; started_at = 106; backoff = 2 } ∷ [];
  has_stop = false;
  is_updater_crashed = true;
}
unfolding reap_and_restart
crash_once = refl

one_child-IsRestarted : IsRestarted 1 0 1 one_child
one_child-IsRestarted = record {
  child = started_child;
  found = refl;
  its_role = refl;
  times = refl;
  waits = refl;
  goes_on = refl;
}

crashes-IsRestarted_example :
    IsRestarted 1 7 (min 60 (1 * 2 ^ 7)) (crashes conf 1 7 (105, one_child)).1
crashes-IsRestarted_example =
    crashes-IsRestarted conf 1 7 105 one_child (omega arith) one_child-IsRestarted
