-- ===== src/Navigation/Stack.antt =====
-- The menu as a plain stack of screens, whatever shape the stored one has.
use yourcastbot.Navigation.{
  Menu, add_user_state, del_user_curr_state, del_user_state_data, empty, load_states, menu, pop,
  push, second, set_user_state_data,
}
use yourcastbot.Navigation.Screens.{
  Act, Answer, Handler, Input, Route, act, act_all, adds, button, chosen, clears, command,
  construct_params, drops, forget_all, forgets, is_route, is_screen, pop_to, prepare, raises,
  refuses, saves, shown, shows, takes_input, text, visit, waits,
}
use yourcastbot.Prelude.{
  Bool-cases, List, Option, [], ap, arith, if◌then◌else◌, inl, inr, none, or_else, refl, some, ℕ,
  ◌&&◌, ◌==◌, ◌||◌, ◌∙◌, ◌∷◌, ◌≡◌,
}
use yourcastbot.Table.{find_where}

abbrev pub stack : Menu → List ℕ
stack m = or_else (load_states m) []

abbrev pub push_on : ℕ → List ℕ → List ℕ
push_on r [] = r ∷ []
push_on r (c ∷ s) = if c == r then c ∷ s else r ∷ c ∷ s

abbrev pub rest : List ℕ → List ℕ
rest [] = []
rest (c ∷ s) = s

abbrev pub drop_to : ℕ → List ℕ → List ℕ
drop_to r [] = []
drop_to r (c ∷ s) = if c == r then c ∷ s else drop_to r s

abbrev pub act_on : Act → List ℕ → List ℕ
act_on (adds r) s = push_on r s
act_on drops s = rest s
act_on (saves r params) s = s
act_on (forgets r) s = s
act_on clears s = []

abbrev pub act_all_on : List Act → List ℕ → List ℕ
act_all_on [] s = s
act_all_on (x ∷ xs) s = act_all_on xs (act_on x s)

stack-push : (r : ℕ) (s : List ℕ) (m : Menu) → stack m ≡ s → stack (push r s m) ≡ push_on r s
stack-push r [] m e = refl
stack-push r (c ∷ s) m e = elim (Bool-cases (c == r)) [
  | inl y ↦ rw (y, if◌then◌else◌) e
  | inr y ↦ rw (y, if◌then◌else◌) refl
]

pub add_stack : (r : ℕ) (m : Menu) → stack (add_user_state r m) ≡ push_on r (stack m)
unfolding add_user_state
add_stack r m = stack-push r (stack m) m refl

stack-pop :
    (o : Option (List ℕ)) (m : Menu) → load_states m ≡ o → stack (pop o m) ≡ rest (or_else o [])
stack-pop none m e = rw e refl
stack-pop (some []) m e = refl
stack-pop (some (c ∷ s)) m e = refl

pub del_stack : (m : Menu) → stack (del_user_curr_state m) ≡ rest (stack m)
unfolding del_user_curr_state
del_stack m = stack-pop (load_states m) m refl

pub stack-act : (a : Act) (m : Menu) → stack (act a m) ≡ act_on a (stack m)
unfolding set_user_state_data del_user_state_data
stack-act (adds r) m = add_stack r m
stack-act drops m = del_stack m
stack-act (saves r params) m = refl
stack-act (forgets r) m = refl
stack-act clears m = refl

pub stack-act_all : (xs : List Act) (m : Menu) → stack (act_all xs m) ≡ act_all_on xs (stack m)
stack-act_all [] m = refl
stack-act_all (x ∷ xs) m = stack-act_all xs (act x m) ∙ ap (act_all_on xs) (stack-act x m)

pub construct_stack : (r : ℕ) (m : Menu) → stack (construct_params r m) ≡ stack m
unfolding del_user_state_data
construct_stack r m = ground arith

pub stack-pop_to :
    (r : ℕ) (s : List ℕ) (m : Menu) → stack m ≡ s → stack (pop_to r s m) ≡ drop_to r s
stack-pop_to r [] m e = e
stack-pop_to r (c ∷ s) m e = elim (Bool-cases (c == r)) [
  | inl y ↦ rw (y, if◌then◌else◌) e
  | inr y ↦
      rw (y, if◌then◌else◌) (stack-pop_to r s (del_user_curr_state m) (del_stack m ∙ ap rest e))
]

pub stack-forget_all : (rs : List ℕ) (m : Menu) → stack (forget_all rs m) ≡ stack m
unfolding del_user_state_data
stack-forget_all [] m = refl
stack-forget_all (r ∷ rs) m = stack-forget_all rs (del_user_state_data r m)

abbrev pub prepare_on : Input → List ℕ → List ℕ
prepare_on button s = s
prepare_on text s = s
prepare_on command s = menu ∷ []

abbrev pub shown_on : Answer → ℕ → List ℕ → List ℕ
shown_on shows r s = push_on r s
shown_on _ r s = s

-- A visit of a screen, on a plain stack.
abbrev pub visit_on : Handler → Input → ℕ → List ℕ → List ℕ
visit_on h input r s = shown_on h.answer r (act_all_on h.acts (prepare_on input s))

abbrev pub settle_to : Answer → ℕ → List ℕ → List ℕ
settle_to raises r s = s
settle_to _ r s = drop_to r s

abbrev pub back_to_on : List Route → (ℕ → Handler) → Option ℕ → List ℕ → List ℕ
back_to_on table handlers none s = s
back_to_on table handlers (some r) s =
    if is_screen table r
    then settle_to (handlers r).answer r (act_all_on (handlers r).acts s)
    else act_all_on (handlers menu).acts (menu ∷ [])

-- "Back", on a plain stack.
abbrev pub go_back_on : List Route → (ℕ → Handler) → Option ℕ → List ℕ → List ℕ
go_back_on table handlers custom_prev s =
    back_to_on table handlers (chosen custom_prev (second s)) s

abbrev pub correct_on : List Route → List ℕ → List ℕ
correct_on table (curr ∷ prev ∷ s) =
    if (waits (find_where (is_route prev) table) || takes_input table prev) && curr == empty
    then prev ∷ s
    else curr ∷ prev ∷ s
correct_on table s = s

stack-prepare : (i : Input) (m : Menu) → stack (prepare i m) ≡ prepare_on i (stack m)
unfolding add_user_state
stack-prepare button m = refl
stack-prepare text m = refl
stack-prepare command m = refl

stack-shown : (a : Answer) (r : ℕ) (m : Menu) → stack (shown a r m) ≡ shown_on a r (stack m)
stack-shown shows r m = add_stack r m
stack-shown refuses r m = refl
stack-shown raises r m = refl

pub stack-visit :
    (h : Handler) (i : Input) (r : ℕ) (m : Menu) → stack (visit h i r m) ≡ visit_on h i r (stack m)
unfolding visit
stack-visit h i r m =
    rw
      (
        stack-shown h.answer r (act_all h.acts (prepare i (construct_params r m))),
        stack-act_all h.acts (prepare i (construct_params r m)),
        stack-prepare i (construct_params r m),
        construct_stack r m,
      )
      refl
