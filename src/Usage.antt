-- ===== src/Usage.antt =====
-- db/usage.py: the ledger of what each chat takes, one row an event. Stamps are seconds. `since` is
-- `now` less a window, and an event is inside when `at >= since`, written `now ≤ at + window` here.
-- A dollar is 3,600,000,000 parts, in which every cost the program reckons with is whole.
pub mod Sets
use yourcastbot.Prelude.{
  Bool, List, Option, [], false, if◌then◌else◌, leb, ltb, map, max, min, none, some, true, ℕ, ◌&&◌,
  ◌*◌, ◌++◌, ◌+◌, ◌==◌, ◌∷◌,
}
use yourcastbot.Table.{count_where, delete_where, select_where}
use yourcastbot.Table.Sums.{total}

pub data Kind : Type 0 where
  rec : Kind
  circle : Kind
  ai : Kind
  ask : Kind
  transcript : Kind

pub record Event : Type 0 where
  pub at : ℕ
  pub user_id : ℕ
  pub kind : Kind
  pub ref : ℕ
  pub cost : ℕ

abbrev pub kind_eq : Kind → Kind → Bool
kind_eq rec rec = true
kind_eq circle circle = true
kind_eq ai ai = true
kind_eq ask ask = true
kind_eq transcript transcript = true
kind_eq _ _ = false

abbrev pub is_ai_cost : Kind → Bool
is_ai_cost ai = true
is_ai_cost transcript = true
is_ai_cost ask = true
is_ai_cost _ = false

-- user_id = ? AND kind = ? AND at >= since
abbrev pub is_counted : ℕ → Kind → ℕ → ℕ → Event → Bool
is_counted u k window now e = (e.user_id == u && kind_eq e.kind k) && leb now (e.at + window)

abbrev pub count_since : ℕ → Kind → ℕ → ℕ → List Event → ℕ
count_since u k window now es = count_where (is_counted u k window now) es

abbrev pub is_spent : ℕ → ℕ → ℕ → Event → Bool
is_spent u window now e = (e.user_id == u && is_ai_cost e.kind) && leb now (e.at + window)

abbrev pub cost_if : ℕ → ℕ → ℕ → Event → ℕ
cost_if u window now e = if is_spent u window now e then e.cost else 0

abbrev pub ai_spent_since : ℕ → ℕ → ℕ → List Event → ℕ
ai_spent_since u window now es = total (cost_if u window now) es

abbrev pub contains : ℕ → List ℕ → Bool
contains x [] = false
contains x (y ∷ ys) = if x == y then true else contains x ys

-- A set as a list, each element once.
abbrev pub add : ℕ → List ℕ → List ℕ
add x s = if contains x s then s else x ∷ s

abbrev pub union : List ℕ → List ℕ → List ℕ
union [] s = s
union (x ∷ xs) s = add x (union xs s)

abbrev pub refs : List Event → List ℕ
refs = map (λ (e : Event). e.ref)

-- SELECT DISTINCT ref
abbrev pub episodes_since : ℕ → Kind → ℕ → ℕ → List Event → List ℕ
episodes_since u k window now es = union (refs (select_where (is_counted u k window now) es)) []

-- MAX(at) of the group of one ref
abbrev pub last_of : ℕ → List Event → ℕ
last_of x [] = 0
last_of x (e ∷ es) = if e.ref == x then max e.at (last_of x es) else last_of x es

abbrev pub least : ℕ → Option ℕ → ℕ
least n none = n
least n (some m) = min n m

-- MIN over the groups
abbrev pub first_last : List ℕ → List Event → Option ℕ
first_last [] es = none
first_last (x ∷ xs) es = some (least (last_of x es) (first_last xs es))

abbrev pub first_to_leave : ℕ → Kind → ℕ → ℕ → List Event → Option ℕ
first_to_leave u k window now es =
    first_last (episodes_since u k window now es) (select_where (is_counted u k window now) es)

abbrev pub delivery : Kind → ℕ → ℕ → ℕ → Event
delivery k x at u = record { at = at; user_id = u; kind = k; ref = x; cost = 0 }

-- `record_deliveries`, the chats of a delivery as a set; without the megabytes
abbrev pub record_deliveries : List ℕ → Kind → ℕ → ℕ → List Event → List Event
record_deliveries chats k x at es = es ++ map (delivery k x at) (union chats [])

abbrev pub paid_event : Kind → ℕ → ℕ → ℕ → ℕ → Event
paid_event k u x cost at = record { at = at; user_id = u; kind = k; ref = x; cost = cost }

-- `record_ai`, `record_ask` and `record_transcript`, the kind given
abbrev pub record_cost : Kind → ℕ → ℕ → ℕ → ℕ → List Event → List Event
record_cost k u x cost at es = es ++ paid_event k u x cost at ∷ []

-- Seconds.
abbrev pub keep : ℕ
keep = 400 * 86400

abbrev pub is_stale : ℕ → Event → Bool
is_stale now e = ltb (e.at + keep) now

abbrev pub prune : ℕ → List Event → List Event
prune now es = delete_where (is_stale now) es
