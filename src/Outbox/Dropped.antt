-- ===== src/Outbox/Dropped.antt =====
-- The circle's rows after a chat is dropped from them.
use yourcastbot.Outbox.{Params, Row, split}
use yourcastbot.Outbox.Payload.{contains, pop}
use yourcastbot.Outbox.Queue.{drop_params, drop_recipient, is_circle_for}
use yourcastbot.Prelude.{
  All, Bool-cases, List, Member, Option, [], arith, false, if◌then◌else◌, inl, inr, map, none, refl,
  some, true, ℕ, ◌++◌, ◌∷◌, ◌≡◌, ◌⊎◌,
}
use yourcastbot.Table.{update_where}

pop-contains {ℓ} : {V : Type ℓ} (c : ℕ) (m : List (ℕ × V)) → contains c (pop c m) ≡ false
pop-contains c [] = refl
pop-contains c (x ∷ m) = ground (arith, pop-contains c m)

dropped :
    (c e : ℕ) (r : Row) (q : Option Params)
    → r.payload ≡ q
    → is_circle_for c e r ≡ true
    → is_circle_for c e (drop_params c r q) ≡ false
dropped c e r none p h = ground arith
dropped c e r (some q) p h = ground (arith, pop-contains c q.chat_ids)

pub drop-All :
    (c e : ℕ) (rs : List Row)
    → All
        (λ r. is_circle_for c e r ≡ false)
        (update_where (is_circle_for c e) (drop_recipient c) rs)
drop-All c e [] = tt
drop-All c e (r ∷ rs) = (one (Bool-cases (is_circle_for c e r)), drop-All c e rs)
  where
    one :
        (is_circle_for c e r ≡ true) ⊎ (is_circle_for c e r ≡ false)
        → is_circle_for c e (if is_circle_for c e r then drop_recipient c r else r) ≡ false
    one (inl h) = rw (h, if◌then◌else◌) (dropped c e r r.payload refl h)
    one (inr h) = rw (h, if◌then◌else◌) h

All-split :
    (c e : ℕ) (rs : List Row)
    → All (λ r. is_circle_for c e r ≡ false) rs
    → All (λ r. is_circle_for c e r ≡ false) (map split rs)
All-split c e [] h = tt
All-split c e (r ∷ rs) h = (ground (arith, h.0), All-split c e rs h.1)

pub All-end :
    (c e : ℕ) (rs : List Row) (r : Row)
    → All (λ x. is_circle_for c e x ≡ false) rs
    → is_circle_for c e r ≡ false
    → All (λ x. is_circle_for c e x ≡ false) (rs ++ r ∷ [])
All-end c e [] r h k = (k, tt)
All-end c e (x ∷ rs) r h k = (h.0, All-end c e rs r h.1 k)

pub Member-last : (rs : List Row) (r : Row) → Member r (rs ++ r ∷ [])
Member-last [] r = inl refl
Member-last (x ∷ rs) r = inr (Member-last rs r)
