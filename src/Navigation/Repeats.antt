-- ===== src/Navigation/Repeats.antt =====
-- A screen that is shown again is not pushed again.
use yourcastbot.Navigation.{Menu, empty, menu, second}
use yourcastbot.Navigation.Refines.{
  Event, corrects, does, goes_back, run_event_on, run_events, run_events_on, stack-run_events,
  visits,
}
use yourcastbot.Navigation.Screens.{
  Act, Answer, Handler, Input, Route, adds, button, chosen, clears, command, drops, forgets,
  is_route, is_screen, raises, refuses, saves, shows, takes_input, text, waits,
}
use yourcastbot.Navigation.Stack.{
  act_all_on, act_on, back_to_on, correct_on, drop_to, prepare_on, push_on, rest, settle_to,
  shown_on, stack,
}
use yourcastbot.Prelude.{
  Bool-cases, List, Option, [], arith, if◌then◌else◌, inl, inr, none, some, ℕ, ◌&&◌, ◌==◌, ◌||◌,
  ◌∷◌, ◌≢◌,
}
use yourcastbot.Table.{find_where}

-- No screen stands twice in a row.
abbrev pub NoRepeat : List ℕ → Type 0
NoRepeat [] = Unit
NoRepeat (c ∷ []) = Unit
NoRepeat (c ∷ p ∷ s) = (c ≢ p) × NoRepeat (p ∷ s)

rest-NoRepeat : (s : List ℕ) → NoRepeat s → NoRepeat (rest s)
rest-NoRepeat [] h = tt
rest-NoRepeat (c ∷ []) h = tt
rest-NoRepeat (c ∷ p ∷ s) h = h.1

push-NoRepeat : (r : ℕ) (s : List ℕ) → NoRepeat s → NoRepeat (push_on r s)
push-NoRepeat r [] h = tt
push-NoRepeat r (c ∷ s) h = elim (Bool-cases (c == r)) [
  | inl y ↦ rw (y, if◌then◌else◌) h
  | inr y ↦ rw (y, if◌then◌else◌) ((ground arith), h)
]

act-NoRepeat : (a : Act) (s : List ℕ) → NoRepeat s → NoRepeat (act_on a s)
act-NoRepeat (adds r) s h = push-NoRepeat r s h
act-NoRepeat drops s h = rest-NoRepeat s h
act-NoRepeat (saves r params) s h = h
act-NoRepeat (forgets r) s h = h
act-NoRepeat clears s h = tt

act_all-NoRepeat : (xs : List Act) (s : List ℕ) → NoRepeat s → NoRepeat (act_all_on xs s)
act_all-NoRepeat [] s h = h
act_all-NoRepeat (x ∷ xs) s h = act_all-NoRepeat xs (act_on x s) (act-NoRepeat x s h)

drop-NoRepeat : (r : ℕ) (s : List ℕ) → NoRepeat s → NoRepeat (drop_to r s)
drop-NoRepeat r [] h = tt
drop-NoRepeat r (c ∷ s) h = elim (Bool-cases (c == r)) [
  | inl y ↦ rw (y, if◌then◌else◌) h
  | inr y ↦ rw (y, if◌then◌else◌) (drop-NoRepeat r s (rest-NoRepeat (c ∷ s) h))
]

settle-NoRepeat : (a : Answer) (r : ℕ) (s : List ℕ) → NoRepeat s → NoRepeat (settle_to a r s)
settle-NoRepeat raises r s h = h
settle-NoRepeat shows r s h = drop-NoRepeat r s h
settle-NoRepeat refuses r s h = drop-NoRepeat r s h

shown-NoRepeat : (a : Answer) (r : ℕ) (s : List ℕ) → NoRepeat s → NoRepeat (shown_on a r s)
shown-NoRepeat shows r s h = push-NoRepeat r s h
shown-NoRepeat refuses r s h = h
shown-NoRepeat raises r s h = h

prepare-NoRepeat : (i : Input) (s : List ℕ) → NoRepeat s → NoRepeat (prepare_on i s)
prepare-NoRepeat button s h = h
prepare-NoRepeat text s h = h
prepare-NoRepeat command s h = tt

back-NoRepeat :
    (table : List Route) (handlers : ℕ → Handler) (o : Option ℕ) (s : List ℕ)
    → NoRepeat s
    → NoRepeat (back_to_on table handlers o s)
back-NoRepeat table handlers none s h = h
back-NoRepeat table handlers (some r) s h = elim (Bool-cases (is_screen table r)) [
  | inl y ↦
      rw (y, if◌then◌else◌)
        (settle-NoRepeat (handlers r).answer r _ (act_all-NoRepeat (handlers r).acts s h))
  | inr y ↦ rw (y, if◌then◌else◌) (act_all-NoRepeat (handlers menu).acts (menu ∷ []) tt)
]

correct-NoRepeat : (table : List Route) (s : List ℕ) → NoRepeat s → NoRepeat (correct_on table s)
correct-NoRepeat table [] h = tt
correct-NoRepeat table (c ∷ []) h = tt
correct-NoRepeat table (c ∷ p ∷ s) h =
    elim (Bool-cases
      ((waits (find_where (is_route p) table) || takes_input table p) && c == empty)) [
        | inl y ↦ rw (correct_on, y, if◌then◌else◌) h.1
        | inr y ↦ rw (correct_on, y, if◌then◌else◌) h
      ]

event-NoRepeat :
    (table : List Route) (e : Event) (s : List ℕ) → NoRepeat s → NoRepeat (run_event_on table e s)
event-NoRepeat table (visits h i r) s k =
    shown-NoRepeat h.answer r _ (act_all-NoRepeat h.acts (prepare_on i s) (prepare-NoRepeat i s k))
event-NoRepeat table (does d r) s h = act_all-NoRepeat d.acts s h
event-NoRepeat table (goes_back handlers custom_prev) s h =
    back-NoRepeat table handlers (chosen custom_prev (second s)) s h
event-NoRepeat table corrects s h = correct-NoRepeat table s h

events-NoRepeat :
    (table : List Route) (es : List Event) (s : List ℕ)
    → NoRepeat s
    → NoRepeat (run_events_on table es s)
events-NoRepeat table [] s h = h
events-NoRepeat table (e ∷ es) s h =
    events-NoRepeat table es (run_event_on table e s) (event-NoRepeat table e s h)

-- No screen stands twice in a row on the stack: no sequence of visits, actions, "Back" and texts brings
-- a repeat into a stack without one, whatever the handlers do each time.
pub run_events-NoRepeat :
    (table : List Route) (es : List Event) (m : Menu)
    → NoRepeat (stack m)
    → NoRepeat (stack (run_events table es m))
run_events-NoRepeat table es m h =
    rw (stack-run_events table es m) (events-NoRepeat table es (stack m) h)
