-- ===== src/Outbox/Dedupe.antt =====
-- One open click row per chat and episode, and no second send by the circle.
use mathlib.Core.List.{map-append}
use mathlib.Core.Path.{subst}
use yourcastbot.Outbox.{
  Action, Job, Outbox, Params, Row, Status, UserId, channel, chat, circle, connect, done, failed,
  is_legacy, is_open, is_rec, leased, pending, rec, split, update, user_eq,
}
use yourcastbot.Outbox.Click.{enqueue_user_rec, reuse}
use yourcastbot.Outbox.Dropped.{All-end, Member-last, drop-All}
use yourcastbot.Outbox.Payload.{is_episode}
use yourcastbot.Outbox.Queue.{
  drop_circle_recipient, drop_recipient, enqueue, find_open_user_rec, is_circle_for, is_open_click,
  is_open_click_of, last_id, new_row, row_id,
}
use yourcastbot.Outbox.Safety.{map-split_same, up_to_date_split}
use yourcastbot.Outbox.Safety.Ops.{drop_recipient-Keeps}
use yourcastbot.Prelude.{
  All, Bool, List, Member, Option, [], ap, arith, false, inl, inr, map, none, refl, some, sym, true,
  ℕ, ◌&&◌, ◌++◌, ◌+◌, ◌∙◌, ◌∷◌, ◌≡◌, ◌⊎◌,
}
use yourcastbot.Table.{find_where, update_where}
use yourcastbot.Table.Append.{find-update_other}
use yourcastbot.Table.Laws.{All-Member, All-update, find-Member, find-none}

-- The job of a tap by chat `c` on the episode `e`.
abbrev pub tap : ℕ → ℕ → Params → Job
tap c e p = record { action = rec; user_id = chat c; params = record p { record_uniq_id = some e } }

-- A click of the chat `c` on the episode `e` that waits, or is being sent.
pub record IsClick (c e : ℕ) (x : Row) : Type 0 where
  pub is_rec_row : x.action ≡ rec
  pub is_waiting : (x.status ≡ pending) ⊎ (x.status ≡ leased)
  pub is_of_chat : x.user_id ≡ chat c
  pub params : Params
  pub has_params : x.payload ≡ some params
  pub is_of_episode : params.record_uniq_id ≡ some e

abbrev pub ids : List Row → List ℕ
ids rs = map (λ (r : Row). r.id) rs

-- What a tap leaves, an open click of the chat on the episode among the rows or not.
pub data Tapped (c e : ℕ) (s : Outbox) : ℕ × Outbox → Type 0 where
  reuses :
      (x : Row) (t : Outbox)
      → Member x (connect s).rows
      → IsClick c e x
      → ids t.rows ≡ ids (connect s).rows
      → Member x t.rows
      → Tapped c e s (x.id, t)
  adds :
      (x : Row) (t : Outbox)
      → ((y : Row) → Member y (connect s).rows → ¬ (IsClick c e y))
      → IsClick c e x
      → ids t.rows ≡ ids (connect s).rows ++ x.id ∷ []
      → Member x t.rows
      → Tapped c e s (x.id, t)

rec_case : (a : Action) → is_rec a ≡ true → a ≡ rec
rec_case rec h = refl
rec_case circle h = cc
rec_case update h = cc

open_cases : (a : Status) → is_open a ≡ true → (a ≡ pending) ⊎ (a ≡ leased)
open_cases pending h = inl refl
open_cases leased h = inr refl
open_cases done h = cc
open_cases failed h = cc

chat_case : (c : ℕ) (u : UserId) → user_eq u (chat c) ≡ true → u ≡ chat c
chat_case c (chat d) h = ap chat (ground arith)
chat_case c (channel d) h = cc

module _ (c e : ℕ) where
  abbrev is_click : Row → Bool
  is_click r = is_open_click_of (chat c) e r

  row-IsClick :
      (r : Row) (o : Option Params)
      → r.payload ≡ o
      → (is_open_click (chat c) r && is_episode e o) ≡ true
      → IsClick c e r
  row-IsClick r none k h = absurd (ground arith)
  row-IsClick r (some q) k h = record {
    is_rec_row = rec_case r.action (ground arith);
    is_waiting = open_cases r.status (ground arith);
    is_of_chat = chat_case c r.user_id (ground arith);
    params = q;
    has_params = k;
    is_of_episode = ground arith;
  }

  IsClick-is_click : (r : Row) → IsClick c e r → is_click r ≡ true
  IsClick-is_click r k = elim k.is_waiting [
    | inl w ↦ rw (k.is_rec_row, w, k.is_of_chat, k.has_params, k.is_of_episode) (ground arith)
    | inr w ↦ rw (k.is_rec_row, w, k.is_of_chat, k.has_params, k.is_of_episode) (ground arith)
  ]

  abbrev dropped_rows : List Row → List Row
  dropped_rows rs = update_where (is_circle_for c e) (drop_recipient c) rs

  dropped_click : (r : Row) → is_circle_for c e r ≡ true → is_click (drop_recipient c r) ≡ false
  dropped_click r h = let u = (drop_recipient-Keeps c).same_user r in ground (arith, u)

  find_dropped : (rs : List Row) → find_where is_click (dropped_rows rs) ≡ find_where is_click rs
  find_dropped rs =
      find-update_other (is_circle_for c e) is_click (drop_recipient c) (λ r h. ground arith)
        dropped_click rs

  ids_dropped : (rs : List Row) → ids (dropped_rows rs) ≡ ids rs
  ids_dropped [] = refl
  ids_dropped (r ∷ rs) =
      let k = (drop_recipient-Keeps c).same_id r in ground (arith, k, ids_dropped rs)

  dropped-split :
      (rs : List Row)
      → All (λ r. is_legacy r ≡ false) rs
      → map split (dropped_rows rs) ≡ dropped_rows rs
  dropped-split rs u = map-split_same (dropped_rows rs) (
      All-update (is_circle_for c e) (drop_recipient c) (λ r. is_legacy r ≡ false)
        (λ r h.
          let a = (drop_recipient-Keeps c).same_action r in
          let b = (drop_recipient-Keeps c).same_user r in ground (arith, a, b))
        rs u)

  no-IsClick :
      (rs : List Row) → find_where is_click rs ≡ none → (y : Row) → Member y rs → ¬ (IsClick c e y)
  no-IsClick rs n y m k =
      let h = All-Member (λ r. is_click r ≡ false) rs y (find-none is_click rs n) m in
      absurd (cc (IsClick-is_click y k))

  -- The table after the circle's rows let go of the chat.
  module _ (s : Outbox) (d : Outbox) (same : d.rows ≡ dropped_rows (map split s.rows)) where
    connected : (connect d).rows ≡ d.rows
    unfolding connect
    connected = rw same (dropped-split (map split s.rows) (up_to_date_split s.rows))

    found_before :
        (x : Row)
        → find_where is_click d.rows ≡ some x
        → find_where is_click (map split s.rows) ≡ some x
    found_before x h =
        sym (find_dropped (map split s.rows)) ∙ ap (find_where is_click) (sym same) ∙ h

    none_before : find_where is_click d.rows ≡ none → find_where is_click (map split s.rows) ≡ none
    none_before h = sym (find_dropped (map split s.rows)) ∙ ap (find_where is_click) (sym same) ∙ h

    ids_same : ids (connect d).rows ≡ ids (map split s.rows)
    ids_same = ap ids (connected ∙ same) ∙ ids_dropped (map split s.rows)

    reused :
        (job : Job) (now : ℕ) (o : Option Row)
        → job.action ≡ rec
        → job.user_id ≡ chat c
        → job.params.record_uniq_id ≡ some e
        → find_where is_click d.rows ≡ o
        → Tapped c e s (reuse (row_id o) job now d)
    unfolding enqueue connect
    reused job now (some x) a b k h =
        let before = find-Member is_click (map split s.rows) x (found_before x h) in
        reuses x (connect d) before.0 (row-IsClick x x.payload refl before.1) ids_same
          (subst (Member x) (sym connected) (find-Member is_click d.rows x h).0)
    reused job now none a b k h =
        let new = new_row (last_id (connect d).rows + 1) job now in
        adds new (enqueue job now d).1 (no-IsClick (map split s.rows) (none_before h))
          (record {
            is_rec_row = a;
            is_waiting = inl refl;
            is_of_chat = b;
            params = job.params;
            has_params = refl;
            is_of_episode = k;
          })
          (map-append (λ (r : Row). r.id) (connect d).rows (new ∷ [])
            ∙ ap (λ (l : List ℕ). l ++ new.id ∷ []) ids_same)
          (Member-last (connect d).rows new)

    reused-clean :
        (job : Job) (now : ℕ) (o : Option Row)
        → job.action ≡ rec
        → job.user_id ≡ chat c
        → All (λ r. is_circle_for c e r ≡ false) (reuse (row_id o) job now d).1.rows
    unfolding enqueue connect
    reused-clean job now (some x) a b =
        subst (All (λ r. is_circle_for c e r ≡ false)) (sym (connected ∙ same))
          (drop-All c e (map split s.rows))
    reused-clean job now none a b =
        All-end c e (connect d).rows (new_row (last_id (connect d).rows + 1) job now)
          (subst (All (λ r. is_circle_for c e r ≡ false)) (sym (connected ∙ same))
            (drop-All c e (map split s.rows)))
          (ground (arith, a, b))

-- A tap on an episode, on any table, returns the id of an open click of the chat on the episode that is
-- in the table afterwards. Where the table had one, waiting or being sent, it is one of those, and no
-- row is added; a row is added only where there was none. No other row comes or goes, and no open circle
-- row of the episode lists the chat any more.
pub tap-Tapped :
    (c e now : ℕ) (p : Params) (s : Outbox)
    → Tapped c e s (enqueue_user_rec (tap c e p) now s)
      × All (λ r. is_circle_for c e r ≡ false) (enqueue_user_rec (tap c e p) now s).1.rows
unfolding enqueue_user_rec drop_circle_recipient find_open_user_rec connect
tap-Tapped c e now p s =
    let d : Outbox = (drop_circle_recipient c (some e) s).1 in
    rw (connected c e s d refl) (
      reused c e s d refl (tap c e p) now _ refl refl refl refl,
      reused-clean c e s d refl (tap c e p) now _ refl refl,
    )
