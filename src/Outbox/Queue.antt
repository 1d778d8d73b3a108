-- ===== src/Outbox/Queue.antt =====
-- `enqueue`, `find_open_user_rec`, `open_user_rec_links`, `drop_circle_recipient`,
-- `update_rec_recipients` and `get_row`: what fills the queue and rewrites its payloads.
use Prim.Native.String.{String}
use yourcastbot.Prelude.{
  ℕ, ◌+◌, Bool, true, false, ◌&&◌, ◌||◌, not, Option, none, some, List, [], ◌∷◌, ◌++◌, max, ◌==◌,
  if◌then◌else◌,
}
use yourcastbot.Table.{count_where, update_where, find_where}
use yourcastbot.Outbox.{
  Outbox, Row, Job, Params, UserId, chat, channel, ChatMap, pending, done, is_open, is_leased,
  is_rec, is_circle, is_rec_send, is_circle_user_id, user_eq, has_id, connect, inflight_discard,
}
use yourcastbot.Outbox.Payload.{is_empty, is_episode, has_chat, drop_chat}

-- The id that SQLite gives to a row of a table with INTEGER PRIMARY KEY: one more than the largest.
abbrev pub last_id : List Row → ℕ
last_id [] = 0
last_id (r ∷ rs) = max r.id (last_id rs)

abbrev pub new_row : ℕ → Job → ℕ → Row
new_row id job now = record {
  id = id;
  created_at = some now;
  action = job.action;
  user_id = job.user_id;
  payload = some job.params;
  status = pending;
  attempts = 0;
  leased_until = none;
  available_at = now;
}

-- The new row's id, and the outbox with it.
unfoldable pub enqueue : Job → ℕ → Outbox → ℕ × Outbox
unfolding connect
enqueue job now s =
    let c = connect s in
    let id = last_id c.rows + 1 in (id, record c { rows = c.rows ++ new_row id job now ∷ [] })

-- The WHERE of `find_open_user_rec`.
abbrev pub is_open_click : UserId → Row → Bool
is_open_click u r =
    is_rec r.action
    && (is_open r.status && (user_eq r.user_id u && not (is_circle_user_id r.user_id)))

-- The loop over the rows that the SELECT gives: the first that parses and is of this episode.
abbrev pub is_open_click_of : UserId → ℕ → Row → Bool
is_open_click_of u wanted r = is_open_click u r && is_episode wanted r.payload

abbrev pub row_id : Option Row → Option ℕ
row_id none = none
row_id (some r) = some r.id

abbrev find_in : UserId → Option ℕ → Outbox → Option ℕ
find_in u none s = none
find_in (channel _) (some wanted) s = none
find_in (chat c) (some wanted) s = row_id (find_where (is_open_click_of (chat c) wanted) s.rows)

-- Missing episode ids and circle users find nothing, before the table is opened.
unfoldable pub find_open_user_rec : UserId → Option ℕ → Outbox → Option ℕ
unfolding connect
find_open_user_rec u episode s = find_in u episode (connect s)

abbrev add_link : Option Params → List String → List String
add_link none l = l
add_link (some p) l = elim p.link [ none ↦ l | some x ↦ x ∷ l ]

abbrev pub links_of : UserId → List Row → List String
links_of u [] = []
links_of u (r ∷ rs) =
    let rest = links_of u rs in
    if is_rec r.action && (is_open r.status && user_eq r.user_id u)
    then add_link r.payload rest
    else rest

-- A set in the source; here a list that may repeat.
unfoldable pub open_user_rec_links : UserId → Outbox → List String
unfolding connect
open_user_rec_links u s = if is_circle_user_id u then [] else links_of u (connect s).rows

-- An open circle row of this episode that still lists this chat.
abbrev pub is_circle_for : ℕ → ℕ → Row → Bool
is_circle_for c wanted r =
    (is_circle r.action || is_rec r.action)
    && (is_open r.status
        && (is_circle_user_id r.user_id && (is_episode wanted r.payload && has_chat c r.payload)))

abbrev pub drop_params : ℕ → Row → Option Params → Row
drop_params c r none = r
drop_params c r (some p) =
    let p' = drop_chat c p in
    if is_empty p'.chat_ids
    then record r { payload = some p'; status = done; leased_until = none }
    else record r { payload = some p' }

-- The UPDATE of the loop in `drop_circle_recipient`: a row with no chat left becomes done.
abbrev pub drop_recipient : ℕ → Row → Row
drop_recipient c r = drop_params c r r.payload

abbrev pub emptied : ℕ → Option Params → Bool
emptied c none = false
emptied c (some p) = is_empty (drop_chat c p).chat_ids

-- The leases of the rows that the loop empties are let go.
abbrev pub discard_emptied : ℕ → ℕ → List Row → List (ℕ × ℕ) → List (ℕ × ℕ)
discard_emptied c wanted [] l = l
discard_emptied c wanted (r ∷ rs) l =
    discard_emptied c wanted rs
      (if is_circle_for c wanted r && emptied c r.payload then inflight_discard r.id l else l)

abbrev drop_in : ℕ → Option ℕ → Outbox → ℕ × Outbox
drop_in c none s = (0, s)
drop_in c (some wanted) s = (
  count_where (is_circle_for c wanted) s.rows,
  record {
    rows = update_where (is_circle_for c wanted) (drop_recipient c) s.rows;
    in_flight = discard_emptied c wanted s.rows s.in_flight;
  },
)

-- How many rows lost the chat, and the outbox after it.
unfoldable pub drop_circle_recipient : ℕ → Option ℕ → Outbox → ℕ × Outbox
unfolding connect
drop_circle_recipient c episode s = drop_in c episode (connect s)

-- The test on `attempts`, which a call may leave out.
abbrev pub same_attempts : Option ℕ → Row → Bool
same_attempts none r = true
same_attempts (some a) r = r.attempts == a

abbrev replace_opt {ℓ} : {A : Type ℓ} → Option A → A → A
replace_opt none old = old
replace_opt (some new) old = new

abbrev pub rewrite : ChatMap ℕ → Option (ChatMap String) → Option (ChatMap ℕ) → Row → Params → Row
rewrite chats langs bitrates r p = record r {
  payload = some (record p {
    chat_ids = chats;
    utglangs = replace_opt langs p.utglangs;
    bitratestg = replace_opt bitrates p.bitratestg;
  });
}

-- What `update_rec_recipients` returns or raises.
pub data Rewritten : Type 0 where
  changed : ℕ → Rewritten
  bad_payload : Rewritten

abbrev pub rewrite_payload :
    ChatMap ℕ
    → Option (ChatMap String)
    → Option (ChatMap ℕ)
    → Row
    → Option Params
    → Outbox
    → Rewritten × Outbox
rewrite_payload chats langs bitrates r none s = (bad_payload, s)
rewrite_payload chats langs bitrates r (some p) s = (
  changed (count_where (λ x. has_id r.id x && is_leased x.status) s.rows),
  record s {
    rows =
        update_where (λ x. has_id r.id x && is_leased x.status)
          (λ x. rewrite chats langs bitrates x p) s.rows;
  },
)

abbrev pub rewrite_row :
    ChatMap ℕ
    → Option (ChatMap String)
    → Option (ChatMap ℕ)
    → Option ℕ
    → Option Row
    → Outbox
    → Rewritten × Outbox
rewrite_row chats langs bitrates attempts none s = (changed 0, s)
rewrite_row chats langs bitrates attempts (some r) s =
    if is_leased r.status && (is_rec_send r.action && same_attempts attempts r)
    then rewrite_payload chats langs bitrates r r.payload s
    else (changed 0, s)

-- A payload that does not parse raises, and the transaction is rolled back.
unfoldable pub update_rec_recipients :
    Option ℕ
    → ChatMap ℕ
    → Option (ChatMap String)
    → Option (ChatMap ℕ)
    → Option ℕ
    → Outbox
    → Rewritten × Outbox
unfolding connect
update_rec_recipients none chats langs bitrates attempts s = (changed 0, s)
update_rec_recipients (some i) chats langs bitrates attempts s =
    let c = connect s in rewrite_row chats langs bitrates attempts (find_where (has_id i) c.rows) c

unfoldable pub get_row : ℕ → Outbox → Option Row
unfolding connect
get_row i s = find_where (has_id i) (connect s).rows
