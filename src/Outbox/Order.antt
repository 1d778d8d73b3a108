-- ===== src/Outbox/Order.antt =====
-- Which row a claim gives out.
use yourcastbot.Outbox.{Action, Row, action_eq, max_attempts, pending}
use yourcastbot.Outbox.Claim.{
  chosen, claim_order, is_busy, is_circle_row, is_claimable, is_lease_by, older, stamp,
}
use yourcastbot.Outbox.Safety.Insert.{action_eq→≡}
use yourcastbot.Prelude.{
  Bool, List, Member, [], arith, false, if◌then◌else◌, none, refl, some, true, ℕ, ◌<◌, ◌∷◌, ◌≡◌,
  ◌≤◌, ◌⊎◌,
}
use yourcastbot.Table.{count_where, exists_where}
use yourcastbot.Table.Best.{IsOrder, best-Member, best-least, best-none}
use yourcastbot.Table.Laws.{exists-count}

older-asym : (a b : Row) → older a b ≡ true → older b a ≡ false
unfolding older
older-asym a b h = ground arith

older_parts :
    (a b : Row)
    → older a b ≡ false
    → (stamp b.created_at < stamp a.created_at)
      ⊎ ((stamp b.created_at ≡ stamp a.created_at) × (b.id ≤ a.id))
unfolding older
older_parts a b h = ground arith

not_older :
    (a b : Row)
    → (stamp b.created_at < stamp a.created_at)
      ⊎ ((stamp b.created_at ≡ stamp a.created_at) × (b.id ≤ a.id))
    → older a b ≡ false
unfolding older
not_older a b h = ground arith

older-neg_trans : (a b c : Row) → older a b ≡ false → older b c ≡ false → older a c ≡ false
older-neg_trans a b c h k = not_older a c (omega (arith, older_parts a b h, older_parts b c k))

order-asym : (a b : Row) → claim_order a b ≡ true → claim_order b a ≡ false
unfolding claim_order
order-asym a b h = by_kind (is_circle_row a) (is_circle_row b) h
  where
    by_kind :
        (p q : Bool)
        → (if p then (if q then older a b else false) else (if q then true else older b a)) ≡ true
        → (if q then (if p then older b a else false) else (if p then true else older a b)) ≡ false
    by_kind true true h = older-asym a b h
    by_kind true false h = cc
    by_kind false true h = refl
    by_kind false false h = older-asym b a h

abbrev ordered : Row → Row → Bool → Bool → Bool
ordered a b p q = if p then (if q then older a b else false) else (if q then true else older b a)

order-neg_trans :
    (a b c : Row) → claim_order a b ≡ false → claim_order b c ≡ false → claim_order a c ≡ false
unfolding claim_order
order-neg_trans a b c = by_kind (is_circle_row a) (is_circle_row b) (is_circle_row c)
  where
    by_kind :
        (p q r : Bool) → ordered a b p q ≡ false → ordered b c q r ≡ false → ordered a c p r ≡ false
    by_kind true true true h k = older-neg_trans a b c h k
    by_kind false false false h k = older-neg_trans c b a k h
    by_kind true _ false h k = refl
    by_kind true false true h k = cc
    by_kind false true _ h k = cc
    by_kind false false true h k = cc

claim_order-IsOrder : IsOrder claim_order
claim_order-IsOrder = record { asym = order-asym; neg_trans = order-neg_trans }

-- A row that a worker may be given: pending, due, with attempts left, and of a user without a lease
-- of this action.
pub record CanClaim (now : ℕ) (a : Action) (rs : List Row) (r : Row) : Type 0 where
  pub status : r.status ≡ pending
  pub due : r.available_at ≤ now
  pub left : r.attempts < max_attempts
  pub wanted : r.action ≡ a
  pub idle : count_where (is_lease_by r.user_id a) rs ≡ 0

claimable→CanClaim :
    (now : ℕ) (a : Action) (rs : List Row) (r : Row)
    → is_claimable now (some a) rs r ≡ true
    → CanClaim now a rs r
claimable→CanClaim now a rs r h =
    let e : r.action ≡ a = action_eq→≡ r.action a (ground arith) in
    record {
      status = ground arith;
      due = ground arith;
      left = ground arith;
      wanted = e;
      idle = rw (← e) (exists-count (is_lease_by r.user_id r.action) rs (ground arith));
    }

count-exists : (p : Row → Bool) (rs : List Row) → count_where p rs ≡ 0 → exists_where p rs ≡ false
count-exists p [] h = refl
count-exists p (r ∷ rs) h = ground (arith, count-exists p rs)

action_eq_refl : (a : Action) → action_eq a a ≡ true
action_eq_refl a = ground arith

CanClaim→claimable :
    (now : ℕ) (a : Action) (rs : List Row) (r : Row)
    → CanClaim now a rs r
    → is_claimable now (some a) rs r ≡ true
CanClaim→claimable now a rs r h =
    let busy : is_busy rs r ≡ false =
      rw h.wanted (count-exists (is_lease_by r.user_id a) rs h.idle) in
    let act : action_eq r.action a ≡ true = rw h.wanted (action_eq_refl a) in
    rw (h.status, busy, act) (ground arith)

-- What a claim for an action chooses on a table: a row that can be claimed, with none that can be
-- claimed standing before it in the queue's order.
pub chosen_best :
    (a : Action) (now : ℕ) (rs : List Row) (r : Row)
    → chosen none (some a) now rs ≡ some r
    → Member r rs
      × CanClaim now a rs r
      × ((x : Row) → Member x rs → CanClaim now a rs x → claim_order x r ≡ false)
unfolding chosen
chosen_best a now rs r h =
    let (m, ok) = best-Member (is_claimable now (some a) rs) claim_order rs r h in
    (
      m,
      claimable→CanClaim now a rs r ok,
      λ x mx k.
          best-least (is_claimable now (some a) rs) claim_order claim_order-IsOrder rs r x h mx
            (CanClaim→claimable now a rs x k),
    )

-- When nothing is chosen, no row can be claimed.
pub chosen-none :
    (a : Action) (now : ℕ) (rs : List Row) (x : Row)
    → chosen none (some a) now rs ≡ none
    → Member x rs
    → ¬ (CanClaim now a rs x)
unfolding chosen
chosen-none a now rs x h m k =
    let e = best-none (is_claimable now (some a) rs) claim_order rs x h m in
    let e' = CanClaim→claimable now a rs x k in cc
