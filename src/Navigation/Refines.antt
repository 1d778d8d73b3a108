-- ===== src/Navigation/Refines.antt =====
-- The chat's events, on the stored menu and on a plain stack.
use yourcastbot.Navigation.{Menu, add_user_state, clear_user_storage, empty, first, menu, second}
use yourcastbot.Navigation.Screens.{
  Answer, Handler, Input, Route, act_all, back_to, children, chosen, construct_params, correct,
  empty_state_input_state_corrector, go_back, is_route, is_screen, pop_to, raises, refuses,
  settle_on, shows, takes_input, visit, visit_action, waits,
}
use yourcastbot.Navigation.Stack.{
  act_all_on, add_stack, back_to_on, construct_stack, correct_on, del_stack, go_back_on, rest,
  settle_to, stack, stack-act_all, stack-forget_all, stack-pop_to, stack-visit, visit_on,
}
use yourcastbot.Prelude.{
  Bool-cases, List, Option, [], ap, if◌then◌else◌, inl, inr, none, refl, some, ℕ, ◌&&◌, ◌==◌, ◌||◌,
  ◌∙◌, ◌∷◌, ◌≡◌,
}
use yourcastbot.Table.{find_where}

settle_stack :
    (a : Answer) (table : List Route) (r : ℕ) (m : Menu)
    → stack (settle_on a table r m) ≡ settle_to a r (stack m)
settle_stack raises table r m = refl
settle_stack shows table r m =
    stack-forget_all (children (find_where (is_route r) table)) (pop_to r (stack m) m)
    ∙ stack-pop_to r (stack m) m refl
settle_stack refuses table r m =
    stack-forget_all (children (find_where (is_route r) table)) (pop_to r (stack m) m)
    ∙ stack-pop_to r (stack m) m refl

stack-back_to :
    (table : List Route) (handlers : ℕ → Handler) (o : Option ℕ) (m : Menu)
    → stack (back_to table handlers o m) ≡ back_to_on table handlers o (stack m)
stack-back_to table handlers none m = refl
stack-back_to table handlers (some r) m = elim (Bool-cases (is_screen table r)) [
  | inl y ↦
      rw (y, if◌then◌else◌)
        (settle_stack (handlers r).answer table r (act_all (handlers r).acts m)
          ∙ ap (settle_to (handlers r).answer r) (stack-act_all (handlers r).acts m))
  | inr y ↦
      rw (y, if◌then◌else◌)
        (stack-act_all (handlers menu).acts (add_user_state menu (clear_user_storage m))
          ∙ ap (act_all_on (handlers menu).acts) (add_stack menu (clear_user_storage m)))
]

pub stack-go_back :
    (table : List Route) (handlers : ℕ → Handler) (custom_prev : Option ℕ) (m : Menu)
    → stack (go_back table handlers custom_prev m) ≡ go_back_on table handlers custom_prev (stack m)
unfolding go_back
stack-go_back table handlers custom_prev m =
    stack-back_to table handlers (chosen custom_prev (second (stack m))) m

stack-correct :
    (table : List Route) (s : List ℕ) (m : Menu)
    → stack m ≡ s
    → stack (correct table (second s, first s) m) ≡ correct_on table s
stack-correct table [] m e = e
stack-correct table (c ∷ []) m e = e
stack-correct table (c ∷ p ∷ s) m e =
    elim (Bool-cases
      ((waits (find_where (is_route p) table) || takes_input table p) && c == empty)) [
        | inl y ↦ rw (correct, y, if◌then◌else◌) (del_stack m ∙ ap rest e)
        | inr y ↦ rw (correct, y, if◌then◌else◌) e
      ]

-- What happens in a chat: a screen, an action of a screen, "Back", a text on an empty screen, each with
-- what the handlers do at that time.
pub data Event : Type 0 where
  visits : Handler → Input → ℕ → Event
  does : Handler → ℕ → Event
  goes_back : (ℕ → Handler) → Option ℕ → Event
  corrects : Event

abbrev pub run_event : List Route → Event → Menu → Menu
run_event table (visits h i r) m = visit h i r m
run_event table (does h r) m = visit_action h r m
run_event table (goes_back handlers custom_prev) m = go_back table handlers custom_prev m
run_event table corrects m = empty_state_input_state_corrector table m

abbrev pub run_events : List Route → List Event → Menu → Menu
run_events table [] m = m
run_events table (e ∷ es) m = run_events table es (run_event table e m)

abbrev pub run_event_on : List Route → Event → List ℕ → List ℕ
run_event_on table (visits h i r) s = visit_on h i r s
run_event_on table (does h r) s = act_all_on h.acts s
run_event_on table (goes_back handlers custom_prev) s = go_back_on table handlers custom_prev s
run_event_on table corrects s = correct_on table s

abbrev pub run_events_on : List Route → List Event → List ℕ → List ℕ
run_events_on table [] s = s
run_events_on table (e ∷ es) s = run_events_on table es (run_event_on table e s)

event_stack :
    (table : List Route) (e : Event) (m : Menu)
    → stack (run_event table e m) ≡ run_event_on table e (stack m)
unfolding visit_action empty_state_input_state_corrector
event_stack table (visits h i r) m = stack-visit h i r m
event_stack table (does h r) m =
    stack-act_all h.acts (construct_params r m) ∙ ap (act_all_on h.acts) (construct_stack r m)
event_stack table (goes_back handlers custom_prev) m = stack-go_back table handlers custom_prev m
event_stack table corrects m = stack-correct table (stack m) m refl

pub stack-run_events :
    (table : List Route) (es : List Event) (m : Menu)
    → stack (run_events table es m) ≡ run_events_on table es (stack m)
stack-run_events table [] m = refl
stack-run_events table (e ∷ es) m =
    stack-run_events table es (run_event table e m)
    ∙ ap (run_events_on table es) (event_stack table e m)
