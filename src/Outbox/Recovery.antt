-- ===== src/Outbox/Recovery.antt =====
-- Leases over time: what `reclaim` gives back and what it spares, and recovery from a crash.
use mathlib.Core.Path.{subst}
use yourcastbot.Outbox.{Outbox, Row, connect, inflight_add, is_in_flight, is_leased, leased, split}
use yourcastbot.Outbox.Lease.{give_back, is_expired, is_reclaimed, reclaim}
use yourcastbot.Outbox.Steps.{clear_in_flight}
use yourcastbot.Prelude.{
  Bool, List, Member, [], ap, arith, false, if◌then◌else◌, map, refl, true, ℕ, ◌≡◌, ◌⊎◌,
}
use yourcastbot.Table.{count_where, update_where}
use yourcastbot.Table.Laws.{Member-update, count-update_zero}

pub is_in_flight-add_self :
    (i mono : ℕ) (l : List (ℕ × ℕ)) → is_in_flight (inflight_add i mono l) i ≡ true
is_in_flight-add_self i mono l = ground arith

-- A lease that this process holds in memory is never reclaimed, whatever its time; nor is one that
-- has not expired.
pub reclaim_spares :
    (now : ℕ) (s : Outbox) (r : Row)
    → Member r (connect s).rows
    → (is_in_flight s.in_flight r.id ≡ true) ⊎ (is_expired now r.leased_until ≡ false)
    → Member r (reclaim now false s).1.rows
unfolding reclaim connect
reclaim_spares now s r m held =
    subst
      (λ b.
        Member (if b then give_back r else r)
          (update_where (is_reclaimed now false s.in_flight) give_back (map split s.rows)))
      (spared held)
      (Member-update (is_reclaimed now false s.in_flight) give_back (map split s.rows) r m)
  where
    spared :
        (is_in_flight s.in_flight r.id ≡ true) ⊎ (is_expired now r.leased_until ≡ false)
        → is_reclaimed now false s.in_flight r ≡ false
    spared h = ground arith

-- A leased row whose lease has expired and that this process does not hold is pending again, with
-- the attempts that it had.
pub reclaim_recovers :
    (now : ℕ) (s : Outbox) (r : Row)
    → Member r (connect s).rows
    → r.status ≡ leased
    → is_in_flight s.in_flight r.id ≡ false
    → is_expired now r.leased_until ≡ true
    → Member (give_back r) (reclaim now false s).1.rows
unfolding reclaim connect
reclaim_recovers now s r m l free late =
    subst
      (λ b.
        Member (if b then give_back r else r)
          (update_where (is_reclaimed now false s.in_flight) give_back (map split s.rows)))
      (given l)
      (Member-update (is_reclaimed now false s.in_flight) give_back (map split s.rows) r m)
  where
    given : r.status ≡ leased → is_reclaimed now false s.in_flight r ≡ true
    given e = ground arith

abbrev pub is_leased_row : Row → Bool
is_leased_row r = is_leased r.status

-- What a new process does first (clear memory, `reclaim(force=True)`): afterwards no row is leased,
-- and every row that was leased is pending with the attempts that it had.
pub restart_recovers :
    (now : ℕ) (s : Outbox)
    → let t = (reclaim now true (clear_in_flight s)).1 in
      (count_where is_leased_row t.rows ≡ 0)
      × ((r : Row) → Member r (connect s).rows → r.status ≡ leased → Member (give_back r) t.rows)
unfolding reclaim connect clear_in_flight
restart_recovers now s = (
  count-update_zero _ is_leased_row give_back (λ r h. refl) (λ r h. h) (map split s.rows),
  λ r m l.
      subst
        (λ b.
          Member (if b then give_back r else r)
            (update_where (is_reclaimed now true []) give_back (map split s.rows)))
        (ap is_leased l)
        (Member-update (is_reclaimed now true []) give_back (map split s.rows) r m),
)
