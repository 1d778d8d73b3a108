-- ===== src/Digest/Oldest.antt =====
-- Whom the digest watcher serves next.
use yourcastbot.Digest.{Digest, Row}
use yourcastbot.Digest.Queue.{
  Job, claim, claim_order, is_claimable, is_pending_of, job_of, lease, leased_state,
}
use yourcastbot.Outbox.{Status, done, failed, is_pending, leased, pending}
use yourcastbot.Prelude.{
  Bool, List, Member, Option, ap, arith, false, if◌then◌else◌, none, refl, some, sym, true, ℕ, ◌+◌,
  ◌==◌, ◌≡◌, ◌≤◌,
}
use yourcastbot.Table.{best_where, count_where}
use yourcastbot.Table.Best.{IsOrder, best-Member, best-least}

order-asym : (a b : Row) → claim_order a b ≡ true → claim_order b a ≡ false
unfolding claim_order
order-asym a b h = ground arith

order-neg_trans :
    (a b c : Row) → claim_order a b ≡ false → claim_order b c ≡ false → claim_order a c ≡ false
unfolding claim_order
order-neg_trans a b c h k = ground arith

claim_order-IsOrder : IsOrder claim_order
claim_order-IsOrder = record { asym = order-asym; neg_trans = order-neg_trans }

not_before : (x r : Row) → claim_order x r ≡ false → r.created_at ≤ x.created_at
unfolding claim_order
not_before x r h = ground arith

-- The row `r` is pending and due, the job `j` is its next attempt, and no other user who is pending and
-- due was flagged before.
pub record IsOldest (now : ℕ) (rs : List Row) (j : Job) (r : Row) : Type 0 where
  pub stands : Member r rs
  pub is_waiting : r.status ≡ pending
  pub is_due : r.available_at ≤ now
  pub its_user : j.user_telegram_id ≡ r.user_telegram_id
  pub next_attempt : j.attempts ≡ r.attempts + 1
  pub waits_longest :
      (x : Row)
      → Member x rs
      → x.status ≡ pending
      → x.available_at ≤ now
      → r.created_at ≤ x.created_at

pending_case : (a : Status) → is_pending a ≡ true → a ≡ pending
pending_case pending h = refl
pending_case leased h = cc
pending_case done h = cc
pending_case failed h = cc

ready_row :
    (now : ℕ) (x : Row) → x.status ≡ pending → x.available_at ≤ now → is_claimable now x ≡ true
ready_row now x p d = rw (p) (ground (arith, d))

same_job :
    (b : Bool) (now : ℕ) (s t : Digest) (j : Job) (r : Row)
    → ◌≡◌ {A = Option Job × Digest}
        (if b then (some (job_of r), leased_state now r s) else (none, s))
        (some j, t)
    → some j ≡ some (job_of r)
same_job true now s t j r h = sym (ap (λ (y : Option Job × Digest). y.0) h)
same_job false now s t j r h = cc (ap (λ (y : Option Job × Digest). y.0) h)

job_field : (f : Job → ℕ) (j : Job) (r : Row) → some j ≡ some (job_of r) → f j ≡ f (job_of r)
job_field f j r e = let same : j ≡ job_of r = cc in ap f same

lease-IsOldest :
    (now : ℕ) (s t : Digest) (j : Job) (o : Option Row)
    → best_where (is_claimable now) claim_order s.rows ≡ o
    → lease o now s ≡ (some j, t)
    → (r : Row) × IsOldest now s.rows j r
lease-IsOldest now s t j none e k = cc (ap (λ (y : Option Job × Digest). y.0) k)
lease-IsOldest now s t j (some r) e k =
    let (m, ok) = best-Member (is_claimable now) claim_order s.rows r e in
    let own = same_job (count_where (is_pending_of r.user_telegram_id) s.rows == 1) now s t j r k in
    (
      r,
      record {
        stands = m;
        is_waiting = pending_case r.status (ground (arith, ok));
        is_due = ground (arith, ok);
        its_user = job_field (λ (y : Job). y.user_telegram_id) j r own;
        next_attempt = job_field (λ (y : Job). y.attempts) j r own;
        waits_longest = λ x mx p d. not_before x r (
            best-least (is_claimable now) claim_order claim_order-IsOrder s.rows r x e mx
              (ready_row now x p d));
      },
    )

-- The user that a claim returns is pending and due, comes with one attempt more, and no user who is
-- pending and due was flagged before.
pub claim-IsOldest :
    (now : ℕ) (s t : Digest) (j : Job)
    → claim now s ≡ (some j, t)
    → (r : Row) × IsOldest now s.rows j r
unfolding claim
claim-IsOldest now s t j h = lease-IsOldest now s t j _ refl h
