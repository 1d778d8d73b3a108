-- ===== src/Outbox/Safety.antt =====
-- What holds of the table of `send_outbox` whatever the order of the operations.
pub mod Insert
pub mod NewLease
pub mod Ops
pub mod Runs
use yourcastbot.Prelude.{
  ℕ, suc, ◌+◌, ◌≤◌, ◌≡◌, refl, ap, Bool, true, false, ◌&&◌, Option, none, some, List, [], ◌∷◌, ◌++◌,
  map, max, inl, inr, arith, Member, All, ==_iff, ◌==◌, Bool-cases, Option-cases, if◌then◌else◌,
}
use yourcastbot.Table.{count_where, update_where, delete_where}
use yourcastbot.Table.Laws.{count-update-le, count-update_same, count-delete-le, All-update}
use yourcastbot.Outbox.{
  Outbox, Row, Job, Action, UserId, is_legacy, split, connect, has_id, is_leased, max_attempts,
  action_eq, user_eq,
}
use yourcastbot.Outbox.Claim.{is_lease_by}

-- A table that is up to date, with one row to an id, at most one lease to a user and action, and no
-- row past its attempts.
pub record IsSound (rs : List Row) : Type 0 where
  pub up_to_date : All (λ r. is_legacy r ≡ false) rs
  pub unique : (i : ℕ) → count_where (has_id i) rs ≤ 1
  pub exclusive : (u : UserId) (a : Action) → count_where (is_lease_by u a) rs ≤ 1
  pub bounded : All (λ r. r.attempts ≤ max_attempts) rs

pub split_legacy : (r : Row) → is_legacy (split r) ≡ false
split_legacy r = ground arith

pub map-split_same : (rs : List Row) → All (λ r. is_legacy r ≡ false) rs → map split rs ≡ rs
map-split_same [] h = refl
map-split_same (r ∷ rs) h = ground (arith, map-split_same rs h.1)

pub up_to_date_split : (rs : List Row) → All (λ r. is_legacy r ≡ false) (map split rs)
up_to_date_split [] = tt
up_to_date_split (r ∷ rs) = (split_legacy r, up_to_date_split rs)

pub connect_twice : (s : Outbox) → connect (connect s) ≡ connect s
unfolding connect
connect_twice s = rw (map-split_same (map split s.rows) (up_to_date_split s.rows))

-- An update that keeps what a row is about, and takes no lease.
pub record Keeps (f : Row → Row) : Type 0 where
  pub same_id : (r : Row) → (f r).id ≡ r.id
  pub same_action : (r : Row) → (f r).action ≡ r.action
  pub same_user : (r : Row) → (f r).user_id ≡ r.user_id
  pub same_attempts : (r : Row) → (f r).attempts ≡ r.attempts
  pub no_lease : (r : Row) → is_leased (f r).status ≡ true → is_leased r.status ≡ true

module _ (p : Row → Bool) (f : Row → Row) (k : Keeps f) where
  update-lease-le :
      (u : UserId) (a : Action) (rs : List Row)
      → count_where (is_lease_by u a) (update_where p f rs) ≤ count_where (is_lease_by u a) rs
  update-lease-le u a =
      count-update-le p (is_lease_by u a) f
        (λ r _ h. ground (arith, k.same_action r, k.same_user r, k.no_lease r))

  update_unique :
      (i : ℕ) (rs : List Row)
      → count_where (has_id i) (update_where p f rs) ≡ count_where (has_id i) rs
  update_unique i = count-update_same p (has_id i) f (λ r h. rw (k.same_id r))

  pub update-IsSound : (rs : List Row) → IsSound rs → IsSound (update_where p f rs)
  update-IsSound rs h = record {
    up_to_date =
        All-update p f (λ r. is_legacy r ≡ false)
          (λ r e. ground (arith, k.same_action r, k.same_user r)) rs h.up_to_date;
    unique = λ i. rw (update_unique i rs) (h.unique i);
    exclusive = λ u a. omega (arith, update-lease-le u a rs, h.exclusive u a);
    bounded =
        All-update p f (λ r. r.attempts ≤ max_attempts) (λ r e. ground (arith, k.same_attempts r))
          rs h.bounded;
  }
