-- ===== src/Outbox/Safety/NewLease.antt =====
-- The lease that a claim takes keeps the table sound.
use mathlib.Core.Path.{subst}
use native.Mathlib.Nat.{le_trans}
use yourcastbot.Prelude.{
  ℕ, ◌+◌, ◌≤◌, ◌≡◌, refl, Bool, true, false, ◌&&◌, Option, List, inl, inr, arith, Member,
  Bool-cases,
}
use yourcastbot.Table.{count_where}
use yourcastbot.Table.Laws.{
  count-update-le-add, count-update_same, count-le, count_zero, exists-count, All-update, All-intro,
}
use yourcastbot.Outbox.{Row, Action, UserId, is_legacy, has_id, max_attempts, action_eq, user_eq}
use yourcastbot.Outbox.Claim.{is_lease_by, is_claimable, lease_rows, is_pending_id, take_lease}
use yourcastbot.Outbox.Safety.{IsSound}
use yourcastbot.Outbox.Safety.Insert.{Member-unique, user_eq→≡, action_eq→≡}

module _ (rs : List Row) (r : Row) (action : Option Action) (now : ℕ) (h : IsSound rs)
    (m : Member r rs) (ok : is_claimable now action rs r ≡ true) where
  abbrev lease_of : Row → Row
  lease_of = take_lease (r.attempts + 1) (now + 300)

  abbrev takes : UserId → Action → Row → Bool
  takes u a x = is_pending_id r.id x && is_lease_by u a (lease_of x)

  same : (x : Row) → Member x rs → x.id ≡ r.id → x ≡ r
  same x mx e = Member-unique rs r x (h.unique r.id) m mx e

  -- The only row that the UPDATE leases is `r`.
  takes-only :
      (u : UserId) (a : Action) (x : Row)
      → Member x rs
      → takes u a x ≡ true
      → (user_eq r.user_id u && action_eq r.action a) ≡ true
  takes-only u a x mx t =
      let own : (user_eq x.user_id u && action_eq x.action a) ≡ true = ground arith in
      let e : x ≡ r = same x mx (ground arith) in
      subst (λ y. (user_eq y.user_id u && action_eq y.action a) ≡ true) e own

  free : count_where (is_lease_by r.user_id r.action) rs ≡ 0
  free = exists-count _ rs (ground arith)

  takes-le : (u : UserId) (a : Action) → count_where (takes u a) rs ≤ 1
  takes-le u a =
      le_trans (count-le (takes u a) (has_id r.id) (λ x t. ground arith) rs) (h.unique r.id)

  not-takes :
      (u : UserId) (a : Action)
      → (user_eq r.user_id u && action_eq r.action a) ≡ false
      → count_where (takes u a) rs ≡ 0
  not-takes u a e = count_zero _ rs (All-intro _ rs (λ x mx. ground (arith, takes-only u a x mx)))

  lease-exclusive :
      (u : UserId) (a : Action) → count_where (is_lease_by u a) (lease_rows now r rs) ≤ 1
  lease-exclusive u a =
      let add = count-update-le-add (is_pending_id r.id) (is_lease_by u a) lease_of rs in
      elim (Bool-cases (user_eq r.user_id u && action_eq r.action a)) [
        | inl e ↦
            let none_yet : count_where (is_lease_by u a) rs ≡ 0 =
              rw (← user_eq→≡ r.user_id u (ground arith), ← action_eq→≡ r.action a (ground arith))
                free in
            omega (arith, add, takes-le u a)
        | inr e ↦ omega (arith, add, not-takes u a e, h.exclusive u a)
      ]

  pub lease-IsSound : IsSound (lease_rows now r rs)
  lease-IsSound = record {
    up_to_date =
        All-update _ lease_of (λ x. is_legacy x ≡ false) (λ x e. ground arith) rs h.up_to_date;
    unique = λ i. rw (count-update_same _ (has_id i) lease_of (λ x e. refl) rs) (h.unique i);
    exclusive = lease-exclusive;
    bounded =
        All-update _ lease_of (λ x. x.attempts ≤ max_attempts) (λ x e. ground arith) rs h.bounded;
  }
