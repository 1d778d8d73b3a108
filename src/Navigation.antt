-- ===== src/Navigation.antt =====
-- The menu of one chat: the stack of screens and their saved states, in app/repository/storage/storage.py.
-- A screen is a number that stands for its name. A stack has its last screen first.
pub mod Screens
pub mod Stack
pub mod Refines
pub mod Repeats
pub mod Paths
pub mod Back
mod Tests
use yourcastbot.Prelude.{
  Bool, List, Option, [], false, if◌then◌else◌, none, or_else, some, true, ℕ, ◌++◌, ◌==◌, ◌∷◌,
}
use yourcastbot.Table.{exists_where, find_where, update_where}

-- What the JSON of the stack is: a list, the old shape {"states": ..}, or anything else.
pub data Stored : Type 0 where
  listed : List ℕ → Stored
  wrapped : Option (List ℕ) → Stored
  other_json : Stored

-- A key of the saved states; `none` is {}.
pub record Saved : Type 0 where
  pub screen : ℕ
  pub params : Option ℕ

-- A text that is missing or no JSON is `none`.
pub record Menu : Type 0 where
  pub states : Option Stored
  pub states_data : Option (List Saved)
  pub resend_flag : Bool

abbrev pub menu : ℕ
menu = 0

abbrev pub empty : ℕ
empty = 1

abbrev pub channel : ℕ
channel = 2

abbrev pub pl : ℕ
pl = 3

abbrev pub srch : ℕ
srch = 4

-- `clear_user_storage`
abbrev pub clear_user_storage : Menu → Menu
clear_user_storage m = record { states = none; states_data = none; resend_flag = false }

abbrev pub set_user_resend_flag : Menu → Menu
set_user_resend_flag m = record m { resend_flag = true }

abbrev pub read_states : Option Stored → Option (List ℕ)
read_states none = none
read_states (some (listed s)) = some s
read_states (some (wrapped s)) = s
read_states (some other_json) = none

-- `_load_states` and `get_user_states`
abbrev pub load_states : Menu → Option (List ℕ)
load_states m = read_states m.states

abbrev pub store_states : List ℕ → Menu → Menu
store_states s m = record m { states = some (listed s) }

abbrev pub push : ℕ → List ℕ → Menu → Menu
push r [] m = store_states (r ∷ []) m
push r (c ∷ s) m = if c == r then m else store_states (r ∷ c ∷ s) m

unfoldable pub add_user_state : ℕ → Menu → Menu
add_user_state r m = push r (or_else (load_states m) []) m

abbrev pub first : List ℕ → Option ℕ
first [] = none
first (c ∷ s) = some c

abbrev pub get_user_curr_state : Menu → Option ℕ
get_user_curr_state m = first (or_else (load_states m) [])

abbrev pub second : List ℕ → Option ℕ
second [] = none
second (c ∷ s) = first s

-- `get_user_prev_curr_states`: the screen before, and the screen.
abbrev pub get_user_prev_curr_states : Menu → Option ℕ × Option ℕ
get_user_prev_curr_states m = let s : List ℕ = or_else (load_states m) [] in (second s, first s)

abbrev pub pop : Option (List ℕ) → Menu → Menu
pop none m = m
pop (some []) m = store_states [] m
pop (some (c ∷ s)) m = store_states s m

unfoldable pub del_user_curr_state : Menu → Menu
del_user_curr_state m = pop (load_states m) m

abbrev pub del_user_state : Menu → Menu
del_user_state m = record m { states = none }

abbrev pub is_saved : ℕ → Saved → Bool
is_saved r e = e.screen == r

abbrev pub save : Option ℕ → Saved → Saved
save params e = record e { params = params }

-- The assignment of a key of a dict.
abbrev pub assign : ℕ → Option ℕ → List Saved → List Saved
assign r params es =
    if exists_where (is_saved r) es
    then update_where (is_saved r) (save params) es
    else es ++ record { screen = r; params = params } ∷ []

abbrev pub no_params : ℕ → Saved
no_params r = record { screen = r; params = none }

unfoldable pub set_user_state_data : ℕ → Option ℕ → Menu → Menu
set_user_state_data r params m = record m {
  states_data = some (
      assign r params
        (or_else m.states_data (no_params channel ∷ no_params pl ∷ no_params srch ∷ [])));
}

abbrev pub params_of : Option Saved → Option (Option ℕ)
params_of none = none
params_of (some e) = some e.params

unfoldable pub get_user_state_data : ℕ → Menu → Option (Option ℕ)
get_user_state_data r m = params_of (find_where (is_saved r) (or_else m.states_data []))

abbrev pub is_blank : Option (Option ℕ) → Bool
is_blank (some (some params)) = false
is_blank _ = true

abbrev pub get_user_state_data_empty : ℕ → Menu → Bool
get_user_state_data_empty r m = is_blank (get_user_state_data r m)

abbrev pub forget : ℕ → Option (List Saved) → Option (List Saved)
forget r none = none
forget r (some es) = some (assign r none es)

unfoldable pub del_user_state_data : ℕ → Menu → Menu
del_user_state_data r m = record m { states_data = forget r m.states_data }

abbrev pub del_user_state_alldata : Menu → Menu
del_user_state_alldata m = record m { states_data = none }
