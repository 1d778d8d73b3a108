-- ===== src/Navigation/Screens.antt =====
-- A step of the chat: `construct_params` and `empty_state_input_state_corrector` of app/core/controller.py,
-- `processor` and `action_processor` of app/routes/initialize_routes.py, `_action` of
-- app/core/balancers/telebotAnswerer.py, and `go_back` of app/core/navigation/goBackModule.py. A
-- handler is what one call of a screen does to the menu and how it ends, a parameter of that call. A
-- screen does other things as a step back (`is_step_back`): what "Back" takes are the screens' calls
-- with it, and what a visit takes is a call without.
use yourcastbot.Navigation.{
  Menu, add_user_state, clear_user_storage, del_user_curr_state, del_user_state_data, empty,
  get_user_curr_state, get_user_prev_curr_states, load_states, menu, set_user_resend_flag,
  set_user_state_data,
}
use yourcastbot.Prelude.{
  Bool, List, Option, [], false, if◌then◌else◌, none, not, or_else, some, ℕ, ◌&&◌, ◌==◌, ◌||◌, ◌∷◌,
}
use yourcastbot.Table.{exists_where, find_where}

-- A value of RouteMap.ROUTES under its name.
pub record Route : Type 0 where
  pub name : ℕ
  pub has_method : Bool
  pub routes : List ℕ
  pub waits_for_input : Bool
  pub states_for_input : List ℕ

-- What a handler does to the menu of its chat.
pub data Act : Type 0 where
  adds : ℕ → Act
  drops : Act
  saves : ℕ → Option ℕ → Act
  forgets : ℕ → Act
  clears : Act

-- How a handler ends: it returns something, it returns False, or it raises.
pub data Answer : Type 0 where
  shows : Answer
  refuses : Answer
  raises : Answer

pub record Handler : Type 0 where
  -- What it does before it ends.
  pub acts : List Act
  pub answer : Answer

abbrev pub act : Act → Menu → Menu
act (adds r) m = add_user_state r m
act drops m = del_user_curr_state m
act (saves r params) m = set_user_state_data r params m
act (forgets r) m = del_user_state_data r m
act clears m = clear_user_storage m

abbrev pub act_all : List Act → Menu → Menu
act_all [] m = m
act_all (x ∷ xs) m = act_all xs (act x m)

abbrev pub is_route : ℕ → Route → Bool
is_route r x = x.name == r

abbrev pub opens : Option Route → Bool
opens none = false
opens (some x) = x.has_method

unfoldable pub is_screen : List Route → ℕ → Bool
is_screen table r = opens (find_where (is_route r) table)

abbrev pub children : Option Route → List ℕ
children none = []
children (some x) = x.routes

abbrev pub is_forward : Option ℕ → ℕ → Bool
is_forward none r = false
is_forward (some c) r = not (c == r)

-- What `construct_params` deletes, for a route that is no step back.
abbrev pub construct_params : ℕ → Menu → Menu
construct_params r m = if is_forward (get_user_curr_state m) r then del_user_state_data r m else m

-- What brings the user to a route: a button, a text, or a command.
pub data Input : Type 0 where
  button : Input
  text : Input
  command : Input

-- `processor`, before the handler
abbrev pub prepare : Input → Menu → Menu
prepare button m = m
prepare text m = set_user_resend_flag m
prepare command m = set_user_resend_flag (add_user_state menu (clear_user_storage m))

abbrev pub shown : Answer → ℕ → Menu → Menu
shown shows r m = add_user_state r m
shown _ r m = m

-- A route, and none of its actions: `processor`, then the handler and the new state.
unfoldable pub visit : Handler → Input → ℕ → Menu → Menu
visit h input r m = shown h.answer r (act_all h.acts (prepare input (construct_params r m)))

-- `action_processor`: an action of the route `r` changes the state itself.
unfoldable pub visit_action : Handler → ℕ → Menu → Menu
visit_action h r m = act_all h.acts (construct_params r m)

abbrev pub pop_to : ℕ → List ℕ → Menu → Menu
pop_to r [] m = m
pop_to r (c ∷ s) m = if c == r then m else pop_to r s (del_user_curr_state m)

abbrev pub forget_all : List ℕ → Menu → Menu
forget_all [] m = m
forget_all (r ∷ rs) m = forget_all rs (del_user_state_data r m)

-- Nothing to go back to: the main menu, on a clean stack.
abbrev pub main_menu : (ℕ → Handler) → Menu → Menu
main_menu handlers m = act_all (handlers menu).acts (add_user_state menu (clear_user_storage m))

-- After the screen, unless it raised.
abbrev pub settle_on : Answer → List Route → ℕ → Menu → Menu
settle_on raises table r m = m
settle_on _ table r m =
    forget_all (children (find_where (is_route r) table)) (pop_to r (or_else (load_states m) []) m)

abbrev pub show_again : List Route → (ℕ → Handler) → ℕ → Menu → Menu
show_again table handlers r m = settle_on (handlers r).answer table r (act_all (handlers r).acts m)

abbrev pub back_to : List Route → (ℕ → Handler) → Option ℕ → Menu → Menu
back_to table handlers none m = m
back_to table handlers (some r) m =
    if is_screen table r then show_again table handlers r m else main_menu handlers m

abbrev pub chosen : Option ℕ → Option ℕ → Option ℕ
chosen none prev = prev
chosen (some r) prev = some r

unfoldable pub go_back : List Route → (ℕ → Handler) → Option ℕ → Menu → Menu
go_back table handlers custom_prev m =
    back_to table handlers (chosen custom_prev (get_user_prev_curr_states m).0) m

abbrev pub is_among : ℕ → List ℕ → Bool
is_among r [] = false
is_among r (x ∷ xs) = x == r || is_among r xs

abbrev pub takes_input : List Route → ℕ → Bool
takes_input table r = exists_where (λ x. is_among r x.states_for_input) table

abbrev pub waits : Option Route → Bool
waits none = false
waits (some x) = x.waits_for_input

abbrev pub correct : List Route → Option ℕ × Option ℕ → Menu → Menu
correct table (some prev, some curr) m =
    if (waits (find_where (is_route prev) table) || takes_input table prev) && curr == empty
    then del_user_curr_state m
    else m
correct table _ m = m

unfoldable pub empty_state_input_state_corrector : List Route → Menu → Menu
empty_state_input_state_corrector table m = correct table (get_user_prev_curr_states m) m
