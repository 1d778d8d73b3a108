-- ===== src/Navigation/Tests.antt =====
-- A walk from the main menu through a list of podcasts to one of them and back.
-- Screen 5 is the list, 6 the podcast; 9 is a screen that the bot no longer has.
use yourcastbot.Navigation.{
  Menu, add_user_state, del_user_curr_state, del_user_state_data, get_user_state_data, listed,
  set_user_state_data, wrapped,
}
use yourcastbot.Navigation.Back.{Back, go_back-Back}
use yourcastbot.Navigation.Paths.{backs, backs_reach, visit-go_back}
use yourcastbot.Navigation.Refines.{Event, goes_back, run_events, visits}
use yourcastbot.Navigation.Repeats.{NoRepeat, run_events-NoRepeat}
use yourcastbot.Navigation.Screens.{
  Handler, Route, button, clears, go_back, is_screen, saves, shows, visit,
}
use yourcastbot.Navigation.Stack.{stack}
use yourcastbot.Prelude.{
  List, [], arith, false, if◌then◌else◌, inr, none, refl, some, true, ℕ, ◌++◌, ◌==◌, ◌∷◌, ◌≡◌,
}

abbrev route : ℕ → List ℕ → Route
route r below = record {
  name = r;
  has_method = true;
  routes = below;
  waits_for_input = false;
  states_for_input = [];
}

abbrev table : List Route
table = route 0 (5 ∷ []) ∷ route 5 (6 ∷ []) ∷ route 6 [] ∷ []

-- The podcast's screen saves which podcast it shows.
abbrev handlers : ℕ → Handler
handlers r = record { acts = if r == 6 then saves 6 (some 77) ∷ [] else []; answer = shows }

-- A first visit of the list saves its page, a step back to it does not.
abbrev opened : Handler
opened = record { acts = saves 5 (some 1) ∷ []; answer = shows }

abbrev start : Menu
start = record { states = some (wrapped (some (0 ∷ []))); states_data = none; resend_flag = false }

abbrev walk : List Event
walk = visits (handlers 5) button 5 ∷ visits (handlers 6) button 6 ∷ []

walked : stack (run_events table walk start) ≡ 6 ∷ 5 ∷ 0 ∷ []
unfolding visit add_user_state set_user_state_data del_user_state_data
walked = refl

saved_podcast : get_user_state_data 6 (run_events table walk start) ≡ some (some 77)
unfolding visit add_user_state set_user_state_data del_user_state_data get_user_state_data
saved_podcast = refl

forgotten_podcast :
    get_user_state_data 6 (run_events table (walk ++ goes_back handlers none ∷ []) start)
    ≡ some none
unfolding visit add_user_state set_user_state_data del_user_state_data get_user_state_data go_back
    is_screen del_user_curr_state
forgotten_podcast = refl

dead_screen :
    stack (go_back table handlers none (record start { states = some (listed (5 ∷ 9 ∷ [])) }))
    ≡ 0 ∷ []
unfolding go_back is_screen add_user_state
dead_screen = refl

run_events-NoRepeat_example : NoRepeat (stack (run_events table walk start))
run_events-NoRepeat_example = run_events-NoRepeat table walk start tt

visit-go_back_example :
    stack (go_back table handlers none (visit opened button 5 start)) ≡ stack start
unfolding is_screen
visit-go_back_example =
    visit-go_back table opened handlers 5 0 [] start refl (λ e. omega arith) refl (refl, refl)
      (refl, refl)

abbrev deep : Menu
deep = record start { states = some (listed (6 ∷ 5 ∷ 0 ∷ [])) }

backs_reach_example : stack (backs 2 table handlers deep) ≡ 0 ∷ []
unfolding is_screen
backs_reach_example =
    backs_reach table handlers (6 ∷ 5 ∷ []) 0 deep refl (λ e. omega arith, (λ e. omega arith, tt))
      ((refl, (refl, refl)), ((refl, (refl, refl)), ((refl, (refl, refl)), tt)))

-- The main menu as a first visit: it clears the chat's storage, which it does not as a step back.
abbrev cleared : Handler
cleared = record { acts = clears ∷ []; answer = shows }

back_from_menu : stack (run_events table (visits cleared button 0 ∷ walk) deep) ≡ 6 ∷ 5 ∷ 0 ∷ []
unfolding visit add_user_state set_user_state_data del_user_state_data
back_from_menu = refl

go_back-Back_example :
    Back table 9 []
      (go_back table handlers none
        (record start { states = some (wrapped (some (5 ∷ 9 ∷ []))) })).states
go_back-Back_example =
    go_back-Back table handlers 5 9 []
      (record start { states = some (wrapped (some (5 ∷ 9 ∷ []))) }) (omega arith) (inr refl)
      (λ e. omega arith) (refl, refl) (refl, refl)
