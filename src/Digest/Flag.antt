-- ===== src/Digest/Flag.antt =====
-- What flagging a user for the digest does to their row.
use yourcastbot.Digest.{Digest, Row, has_user}
use yourcastbot.Digest.Queue.{enqueue, new_row, requeue, upsert}
use yourcastbot.Outbox.{Status, done, failed, is_open, leased, pending}
use yourcastbot.Prelude.{
  Bool, List, Option, [], ap, arith, false, if◌then◌else◌, inl, inr, none, refl, some, true, ℕ,
  ◌==◌, ◌∙◌, ◌∷◌, ◌≡◌, ◌≢◌, ◌⊎◌,
}
use yourcastbot.Table.{exists_where, find_where}
use yourcastbot.Table.Append.{
  find-append_none, find-append_other, find-update_found, find-update_other,
}
use yourcastbot.Table.Laws.{count-exists, count_zero, find-Member, find-none}

-- A row that waits from the start.
pub record IsFresh (now : ℕ) (q : Row) : Type 0 where
  pub is_waiting : q.status ≡ pending
  pub no_attempts : q.attempts ≡ 0
  pub no_lease : q.leased_until ≡ none
  pub flagged_now : q.created_at ≡ now
  pub due_now : q.available_at ≡ now

-- The row of a user before a flag, and after.
pub data Flag (now : ℕ) : Option Row → Row → Type 0 where
  stays : (r : Row) → (r.status ≡ pending) ⊎ (r.status ≡ leased) → Flag now (some r) r
  starts_again :
      (r q : Row) → (r.status ≡ done) ⊎ (r.status ≡ failed) → IsFresh now q → Flag now (some r) q
  adds : (q : Row) → IsFresh now q → Flag now none q

status_cases :
    (a : Status)
    → ((a ≡ pending) ⊎ (a ≡ leased)) × (is_open a ≡ true)
      ⊎ ((a ≡ done) ⊎ (a ≡ failed)) × (is_open a ≡ false)
status_cases pending = inl (inl refl, refl)
status_cases leased = inl (inr refl, refl)
status_cases done = inr (inl refl, refl)
status_cases failed = inr (inr refl, refl)

requeue-Flag : (now : ℕ) (r : Row) → Flag now (some r) (requeue now r)
requeue-Flag now r = elim (status_cases r.status) [
  | inl (a, o) ↦ rw (o, if◌then◌else◌) (stays r a)
  | inr (a, o) ↦
      rw (o, if◌then◌else◌)
        (starts_again r _ a (record {
          is_waiting = refl;
          no_attempts = refl;
          no_lease = refl;
          flagged_now = refl;
          due_now = refl;
        }))
]

requeue_user : (now : ℕ) (r : Row) → (requeue now r).user_telegram_id ≡ r.user_telegram_id
requeue_user now r = ground arith

-- What a flag of the user `u` leaves of the rows.
pub record IsFlagged (u now : ℕ) (rs ts : List Row) : Type 0 where
  pub row : Row
  pub found : find_where (has_user u) ts ≡ some row
  pub own : Flag now (find_where (has_user u) rs) row
  pub others : (v : ℕ) → v ≢ u → find_where (has_user v) ts ≡ find_where (has_user v) rs

user_other : (u v : ℕ) (r : Row) → v ≢ u → has_user u r ≡ true → has_user v r ≡ false
user_other u v r n h = ground arith

found_exists :
    (p : Row → Bool) (rs : List Row) (r : Row) → find_where p rs ≡ some r → exists_where p rs ≡ true
found_exists p [] r e = cc
found_exists p (x ∷ rs) r e = ground (arith, found_exists p rs r)

upsert-IsFlagged :
    (o : Option Row) (u now : ℕ) (rs : List Row)
    → find_where (has_user u) rs ≡ o
    → IsFlagged u now rs (upsert u now rs)
upsert-IsFlagged none u now rs e =
    let absent =
      count-exists (has_user u) rs (count_zero (has_user u) rs (find-none (has_user u) rs e)) in
    let x : Row = new_row u now in
    let own : has_user u x ≡ true = ground arith in
    rw (absent, if◌then◌else◌)
      (record {
        row = x;
        found = rw (find-append_none (has_user u) rs x e, own, if◌then◌else◌) refl;
        own = rw e (
            adds x (record {
              is_waiting = refl;
              no_attempts = refl;
              no_lease = refl;
              flagged_now = refl;
              due_now = refl;
            }));
        others = λ v n. find-append_other (has_user v) rs x (ground arith);
      })
upsert-IsFlagged (some r) u now rs e =
    let k = (find-Member (has_user u) rs r e).1 in
    let present = found_exists (has_user u) rs r e in
    rw (present, if◌then◌else◌)
      (record {
        row = requeue now r;
        found =
            rw
              (
                find-update_found (has_user u) (has_user u) (requeue now)
                    (λ x h. ap (λ (i : ℕ). i == u) (requeue_user now x)) rs r e,
                k,
                if◌then◌else◌,
              )
              refl;
        own = rw e (requeue-Flag now r);
        others = λ v n.
            find-update_other (has_user u) (has_user v) (requeue now) (λ x h. user_other u v x n h)
              (λ x h. ap (λ (i : ℕ). i == v) (requeue_user now x) ∙ user_other u v x n h) rs;
      })

-- Flagging a user leaves one who waits already, or whose digest is being sent, as they are. One whose
-- digest went out or failed, and one who was never flagged, waits from the start: with no attempts and
-- no lease, flagged and due now. The other users' rows are the same.
pub enqueue-IsFlagged : (u now : ℕ) (s : Digest) → IsFlagged u now s.rows (enqueue u now s).rows
unfolding enqueue
enqueue-IsFlagged u now s = upsert-IsFlagged _ u now s.rows refl
