-- ===== src/Navigation/Back.antt =====
-- "Back" from the states as they are stored, in either shape.
use yourcastbot.Navigation.{
  Menu, Stored, add_user_state, clear_user_storage, del_user_curr_state, del_user_state_data,
  listed, load_states, menu, pop, read_states, set_user_state_data, wrapped,
}
use yourcastbot.Navigation.Paths.{IsPlain, all_quiet}
use yourcastbot.Navigation.Screens.{
  Act, Handler, Route, act_all, adds, children, chosen, clears, drops, forget_all, forgets, go_back,
  is_route, is_screen, pop_to, saves,
}
use yourcastbot.Prelude.{
  Bool-cases, List, Member, Option, Option-cases, [], ap, arith, false, if◌then◌else◌, inl, inr,
  none, or_else, refl, some, true, ℕ, ◌==◌, ◌∙◌, ◌∷◌, ◌≡◌, ◌≢◌, ◌≤◌, ◌⊎◌,
}
use yourcastbot.Table.{count_where, find_where}
use yourcastbot.Table.Keys.{find_only}
use yourcastbot.Table.Laws.{find-Member}

-- The states are a list, or stand in the old shape.
abbrev pub IsStored : List ℕ → Menu → Type 0
IsStored s m = (m.states ≡ some (listed s)) ⊎ (m.states ≡ some (wrapped (some s)))

-- A route of the table that a screen answers.
abbrev pub Opened : List Route → ℕ → Type 0
Opened table p = (x : Route) × Member x table × (x.name ≡ p) × (x.has_method ≡ true)

-- What "Back" to the screen `p`, over the screens `s`, stores.
pub data Back (table : List Route) (p : ℕ) (s : List ℕ) : Option Stored → Type 0 where
  opens_screen : Opened table p → Back table p s (some (listed (p ∷ s)))
  to_menu : ¬ (Opened table p) → Back table p s (some (listed (menu ∷ [])))

loaded : (s : List ℕ) (m : Menu) → IsStored s m → load_states m ≡ some s
loaded s m (inl e) = rw e refl
loaded s m (inr e) = rw e refl

screen-Opened : (table : List Route) (p : ℕ) → is_screen table p ≡ true → Opened table p
unfolding is_screen
screen-Opened table p h = elim (Option-cases (find_where (is_route p) table)) [
  | inl n ↦ absurd (ground (arith, n))
  | inr (x, e) ↦
      let (m, k) = find-Member (is_route p) table x e in (x, m, ground arith, ground (arith, e))
]

Opened-screen :
    (table : List Route) (p : ℕ)
    → count_where (is_route p) table ≤ 1
    → Opened table p
    → is_screen table p ≡ true
unfolding is_screen
Opened-screen table p one (x, m, n, h) =
    let own : is_route p x ≡ true = ground arith in rw (find_only (is_route p) table x one m own) h

quiet_states : (xs : List Act) (m : Menu) → all_quiet xs ≡ true → (act_all xs m).states ≡ m.states
unfolding set_user_state_data del_user_state_data
quiet_states [] m h = refl
quiet_states (adds r ∷ xs) m h = cc
quiet_states (drops ∷ xs) m h = cc
quiet_states (saves r params ∷ xs) m h = quiet_states xs _ h
quiet_states (forgets r ∷ xs) m h = quiet_states xs _ h
quiet_states (clears ∷ xs) m h = cc

forget_states : (rs : List ℕ) (m : Menu) → (forget_all rs m).states ≡ m.states
unfolding del_user_state_data
forget_states [] m = refl
forget_states (r ∷ rs) m = forget_states rs (del_user_state_data r m)

popped :
    (c p : ℕ) (s : List ℕ) (m : Menu)
    → c ≢ p
    → load_states m ≡ some (c ∷ p ∷ s)
    → (pop_to p (or_else (load_states m) []) m).states ≡ some (listed (p ∷ s))
unfolding del_user_curr_state
popped c p s m n e =
    let f : (c == p) ≡ false = ground arith in
    let t : (p == p) ≡ true = ground arith in
    rw (e, or_else, f, if◌then◌else◌, t, if◌then◌else◌) (ap (λ o. (pop o m).states) e)

-- "Back" from a screen to another one that stands below it, from states stored in either shape: if
-- a screen of the table answers that name, the states are a list without the screen that was left; if
-- none does, they are a list of the main menu alone. The name stands once at most in the table, and the
-- screen that is opened leaves the stack to the router.
pub go_back-Back :
    (table : List Route) (handlers : ℕ → Handler) (c p : ℕ) (s : List ℕ) (m : Menu)
    → count_where (is_route p) table ≤ 1
    → IsStored (c ∷ p ∷ s) m
    → c ≢ p
    → IsPlain (handlers p)
    → IsPlain (handlers menu)
    → Back table p s (go_back table handlers none m).states
unfolding go_back add_user_state
go_back-Back table handlers c p s m one i n (a, q) (b, u) =
    let e = loaded (c ∷ p ∷ s) m i in
    let acted : Menu = act_all (handlers p).acts m in
    let e' : load_states acted ≡ some (c ∷ p ∷ s) =
      ap read_states (quiet_states (handlers p).acts m q) ∙ e in
    elim (Bool-cases (is_screen table p)) [
      | inl y ↦
          rw
            (
              e,
              chosen,
              y,
              if◌then◌else◌,
              a,
              forget_states (children (find_where (is_route p) table))
                  (pop_to p (or_else (load_states acted) []) acted),
              popped c p s acted n e',
            )
            (opens_screen (screen-Opened table p y))
      | inr y ↦
          rw
            (
              e,
              chosen,
              y,
              if◌then◌else◌,
              quiet_states (handlers menu).acts (add_user_state menu (clear_user_storage m)) u,
            )
            (to_menu (λ o. absurd (cc (Opened-screen table p one o))))
    ]
