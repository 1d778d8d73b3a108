-- ===== src/Outbox/Fencing.antt =====
-- A worker whose lease was taken over cannot touch, finish or fail the job of the next worker: its
-- calls carry the number of attempts that it was given.
use yourcastbot.Outbox.{Outbox, Row, connect, has_id}
use yourcastbot.Outbox.Finish.{SendError, fail_or_retry, finish, mark_done, settle_row, skipped}
use yourcastbot.Outbox.Lease.{is_lease_of, renew, touch}
use yourcastbot.Outbox.Safety.Insert.{Member-unique}
use yourcastbot.Outbox.Safety.Ops.{Sound}
use yourcastbot.Prelude.{
  All, Bool, Bool-cases, List, Member, Option, [], ap, arith, false, inl, inr, none, refl, some,
  true, ℕ, ◌∷◌, ◌≡◌, ◌≢◌, ◌⊎◌,
}
use yourcastbot.Table.{count_where, find_where, update_where}
use yourcastbot.Table.Laws.{All-intro, count_zero, find-Member}

update_none :
    (p : Row → Bool) (f : Row → Row) (rs : List Row)
    → All (λ r. p r ≡ false) rs
    → update_where p f rs ≡ rs
update_none p f [] h = refl
update_none p f (r ∷ rs) h = ground (arith, update_none p f rs h.1)

module _ (s : Outbox) (h : Sound s) (r : Row) (m : Member r (connect s).rows) (a : ℕ)
    (stale : r.attempts ≢ a) where
  not_mine : All (λ x. is_lease_of r.id (some a) x ≡ false) (connect s).rows
  unfolding connect
  not_mine = All-intro _ (connect s).rows (λ x mx. other x mx (Bool-cases (has_id r.id x)))
    where
      other :
          (x : Row)
          → Member x (connect s).rows
          → (has_id r.id x ≡ true) ⊎ (has_id r.id x ≡ false)
          → is_lease_of r.id (some a) x ≡ false
      other x mx (inr e) = rw (e, is_lease_of) refl
      other x mx (inl e) =
          let same_row : x ≡ r =
            Member-unique (connect s).rows r x (h.unique r.id) m mx (ground arith) in
          let n : x.attempts ≡ r.attempts = ap (λ (y : Row). y.attempts) same_row in ground arith

  none_mine : count_where (is_lease_of r.id (some a)) (connect s).rows ≡ 0
  none_mine = count_zero _ _ not_mine

  stale_done : mark_done r.id (some a) s ≡ connect s
  unfolding mark_done connect
  stale_done =
      rw (none_mine, update_none (is_lease_of r.id (some a)) finish (connect s).rows not_mine) refl

  stale_touch : (now mono : ℕ) → touch (some r.id) (some a) now mono s ≡ (0, connect s)
  unfolding touch connect
  stale_touch now mono =
      rw (none_mine, update_none (is_lease_of r.id (some a)) (renew now) (connect s).rows not_mine)
        refl

  stale_fail :
      (error : Option SendError) (now : ℕ)
      → fail_or_retry r.id error (some a) now s ≡ (skipped, connect s)
  unfolding fail_or_retry connect
  stale_fail error now = found _ refl
    where
      found :
          (o : Option Row)
          → find_where (has_id r.id) (connect s).rows ≡ o
          → settle_row r.id error (some a) now o (connect s) ≡ (skipped, connect s)
      found none e = refl
      found (some x) e =
          let (mx, ex) = find-Member (has_id r.id) (connect s).rows x e in
          let same_row : x ≡ r =
            Member-unique (connect s).rows r x (h.unique r.id) m mx (ground arith) in
          let n : x.attempts ≡ r.attempts = ap (λ (y : Row). y.attempts) same_row in ground arith

-- On a sound table, the calls of a worker with another number of attempts than the row has change
-- nothing (beyond bringing the table up to date): mark_done, touch and fail_or_retry alike.
pub stale_worker :
    (s : Outbox)
    → Sound s
    → (r : Row) → Member r (connect s).rows
    → (a : ℕ) → r.attempts ≢ a
    → (error : Option SendError) (now mono : ℕ)
    → (mark_done r.id (some a) s ≡ connect s)
      × (touch (some r.id) (some a) now mono s ≡ (0, connect s))
      × (fail_or_retry r.id error (some a) now s ≡ (skipped, connect s))
stale_worker s h r m a stale error now mono = (
  stale_done s h r m a stale,
  stale_touch s h r m a stale now mono,
  stale_fail s h r m a stale error now,
)
