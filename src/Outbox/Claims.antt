-- ===== src/Outbox/Claims.antt =====
-- What a worker's claim returns and what it leaves in the table.
-- What a claim for an action `a` has done, by the state after it.
use mathlib.Core.Path.{subst}
use yourcastbot.Outbox.{
  Action, Outbox, Params, Row, connect, has_id, inflight_add, is_in_flight, lease_seconds, pending,
}
use yourcastbot.Outbox.Claim.{
  ClaimResult, Claimed, bad_job, chosen, claim, claim_order, hand_out, is_pending_id, lease,
  lease_rows, no_job, some_job, take_lease,
}
use yourcastbot.Outbox.Order.{CanClaim, chosen_best, chosen-none}
use yourcastbot.Outbox.Safety.{IsSound}
use yourcastbot.Outbox.Safety.Ops.{Sound}
use yourcastbot.Prelude.{
  Bool, List, Member, Option, ap, arith, false, if◌then◌else◌, none, refl, some, sym, true, ℕ, ◌+◌,
  ◌==◌, ◌≡◌, ◌≤◌,
}
use yourcastbot.Table.{count_where}
use yourcastbot.Table.Laws.{Member-count, Member-update, count-le}

pub record Leased (a : Action) (now : ℕ) (rs : List Row) (c : Claimed) (t : Outbox) (r : Row)
    : Type 0 where
  pub stood : Member r rs
  pub ready : CanClaim now a rs r
  pub first : (x : Row) → Member x rs → CanClaim now a rs x → claim_order x r ≡ false
  pub same_id : c.outbox_id ≡ r.id
  pub counted : c.attempts ≡ r.attempts + 1
  pub held : Member (take_lease (r.attempts + 1) (now + lease_seconds) r) t.rows
  pub in_memory : is_in_flight t.in_flight r.id ≡ true

abbrev claimed_id : ClaimResult → ℕ
claimed_id (some_job c) = c.outbox_id
claimed_id _ = 0

abbrev claimed_attempts : ClaimResult → ℕ
claimed_attempts (some_job c) = c.attempts
claimed_attempts _ = 0

lease_held :
    (now : ℕ) (r : Row) (rs : List Row)
    → Member r rs
    → r.status ≡ pending
    → Member (take_lease (r.attempts + 1) (now + lease_seconds) r) (lease_rows now r rs)
lease_held now r rs m p =
    let own : is_pending_id r.id r ≡ true = rw (p, is_pending_id) (ground arith) in
    subst
      (λ b.
        Member (if b then take_lease (r.attempts + 1) (now + lease_seconds) r else r)
          (lease_rows now r rs))
      own
      (Member-update (is_pending_id r.id) (take_lease (r.attempts + 1) (now + lease_seconds)) rs r
        m)

handed :
    (a : Action) (now mono : ℕ) (s t : Outbox) (c : Claimed) (r : Row) (q : Option Params)
    → chosen none (some a) now s.rows ≡ some r
    → hand_out r mono q (record s { rows = lease_rows now r s.rows }) ≡ (some_job c, t)
    → Leased a now s.rows c t r
handed a now mono s t c r none e h = absurd (not_bad (ap (λ (x : ClaimResult × Outbox). x.0) h))
  where
    not_bad : ¬ (bad_job ≡ some_job c)
    not_bad x = cc
handed a now mono s t c r (some q) e h =
    let (m, ok, first) = chosen_best a now s.rows r e in
    let job_eq : some_job _ ≡ some_job c = ap (λ (x : ClaimResult × Outbox). x.0) h in
    let rows_eq : lease_rows now r s.rows ≡ t.rows =
      ap (λ (x : ClaimResult × Outbox). x.1.rows) h in
    let memory_eq : inflight_add r.id mono s.in_flight ≡ t.in_flight =
      ap (λ (x : ClaimResult × Outbox). x.1.in_flight) h in
    record {
      stood = m;
      ready = ok;
      first = first;
      same_id = sym (ap claimed_id job_eq);
      counted = sym (ap claimed_attempts job_eq);
      held = rw (← rows_eq) (lease_held now r s.rows m ok.status);
      in_memory = rw (← memory_eq) (ground arith);
    }

lease-Leased :
    (a : Action) (now mono : ℕ) (s t : Outbox) (c : Claimed) (o : Option Row)
    → chosen none (some a) now s.rows ≡ o
    → lease o now mono s ≡ (some_job c, t)
    → (r : Row) × Leased a now s.rows c t r
lease-Leased a now mono s t c none e h =
    absurd (not_none (ap (λ (x : ClaimResult × Outbox). x.0) h))
  where
    not_none : ¬ (no_job ≡ some_job c)
    not_none x = cc
lease-Leased a now mono s t c (some r) e h =
    (r, one (count_where (is_pending_id r.id) s.rows == 1) h)
  where
    one :
        (b : Bool)
        → (if b
            then hand_out r mono r.payload (record s { rows = lease_rows now r s.rows })
            else (no_job, s))
          ≡ (some_job c, t)
        → Leased a now s.rows c t r
    one true k = handed a now mono s t c r r.payload e k
    one false k = cc (ap (λ (x : ClaimResult × Outbox). x.0) k)

-- A claim for an action that returns a job: the row is one that can be claimed and that no other
-- claimable row stands before; it is leased for five minutes with one attempt more, and its id is
-- in this process's memory.
pub claim_job :
    (a : Action) (now mono : ℕ) (s t : Outbox) (c : Claimed)
    → claim none (some a) now mono s ≡ (some_job c, t)
    → (r : Row) × Leased a now (connect s).rows c t r
unfolding claim
claim_job a now mono s t c h = lease-Leased a now mono (connect s) t c _ refl h

one_pending :
    (rs : List Row) (r : Row)
    → count_where (has_id r.id) rs ≤ 1
    → Member r rs
    → r.status ≡ pending
    → count_where (is_pending_id r.id) rs ≡ 1
one_pending rs r u m p =
    let own : is_pending_id r.id r ≡ true = rw (p, is_pending_id) (ground arith) in
    omega (
      arith,
      count-le (is_pending_id r.id) (has_id r.id) (λ x t. ground arith) rs,
      Member-count (is_pending_id r.id) rs r m own,
    )

nothing :
    (a : Action) (now mono : ℕ) (s : Outbox) (o : Option Row)
    → IsSound s.rows
    → chosen none (some a) now s.rows ≡ o
    → (lease o now mono s).0 ≡ no_job
    → o ≡ none
nothing a now mono s none h e k = refl
nothing a now mono s (some r) h e k =
    let (m, ok, _) = chosen_best a now s.rows r e in
    let one = one_pending s.rows r (h.unique r.id) m ok.status in
    absurd (given r.payload (rw one at k))
  where
    given :
        (q : Option Params)
        → ¬ ((hand_out r mono q (record s { rows = lease_rows now r s.rows })).0 ≡ no_job)
    given none x = cc
    given (some _) x = cc

-- On a sound table, a claim for an action returns nothing only when no row can be claimed: an idle
-- worker never waits beside work it may do.
pub claim_idle :
    (a : Action) (now mono : ℕ) (s : Outbox) (x : Row)
    → Sound s
    → (claim none (some a) now mono s).0 ≡ no_job
    → Member x (connect s).rows
    → ¬ (CanClaim now a (connect s).rows x)
unfolding claim connect
claim_idle a now mono s x h k m =
    chosen-none a now (connect s).rows x (nothing a now mono (connect s) _ h refl k) m
