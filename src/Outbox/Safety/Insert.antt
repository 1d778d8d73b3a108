-- ===== src/Outbox/Safety/Insert.antt =====
-- A new row, deleted rows and a new lease keep the table sound.
use yourcastbot.Outbox.{Action, Job, Row, UserId, action_eq, has_id, split, user_eq}
use yourcastbot.Outbox.Claim.{is_lease_by}
use yourcastbot.Outbox.Queue.{last_id, new_row}
use yourcastbot.Outbox.Safety.{IsSound, split_legacy}
use yourcastbot.Prelude.{
  All, Bool, List, Member, [], ap, arith, false, true, ℕ, ◌++◌, ◌+◌, ◌<◌, ◌∷◌, ◌≡◌, ◌≤◌,
}
use yourcastbot.Table.{count_where, delete_where}
use yourcastbot.Table.Append.{count-append}
use yourcastbot.Table.Laws.{All-intro, Member-count, count-delete-le, count_zero}

pub user_eq→≡ : (u v : UserId) → user_eq u v ≡ true → u ≡ v
user_eq→≡ u v h = ground arith

pub action_eq→≡ : (a b : Action) → action_eq a b ≡ true → a ≡ b
action_eq→≡ a b h = ground arith

pub le-last_id : (rs : List Row) (r : Row) → Member r rs → r.id ≤ last_id rs
le-last_id [] r m = absurd m
le-last_id (x ∷ rs) r m = ground (arith, le-last_id rs r)

pub All-append :
    (P : Row → Type 0) (rs : List Row) (r : Row) → All P rs → P r → All P (rs ++ r ∷ [])
All-append P [] r h k = (k, tt)
All-append P (x ∷ rs) r h k = (h.0, All-append P rs r h.1 k)

fresh : (rs : List Row) (i : ℕ) → last_id rs < i → count_where (has_id i) rs ≡ 0
fresh rs i h = count_zero (has_id i) rs (All-intro _ rs (λ r m. different r (le-last_id rs r m)))
  where
    different : (r : Row) → r.id ≤ last_id rs → has_id i r ≡ false
    different r k = ground arith

-- The row of a new job, under the largest id yet plus one.
pub append-IsSound :
    (rs : List Row) (job : Job) (now : ℕ)
    → IsSound rs
    → IsSound (rs ++ split (new_row (last_id rs + 1) job now) ∷ [])
append-IsSound rs job now h =
    let r = split (new_row (last_id rs + 1) job now) in
    record {
      up_to_date = All-append _ rs r h.up_to_date (split_legacy _);
      unique = λ i. rw (count-append (has_id i) rs r) (ground (arith, fresh rs i, h.unique i));
      exclusive = λ u a. rw (count-append (is_lease_by u a) rs r) (ground (arith, h.exclusive u a));
      bounded = All-append _ rs r h.bounded (ground arith);
    }

All-delete :
    (p : Row → Bool) (P : Row → Type 0) (rs : List Row) → All P rs → All P (delete_where p rs)
All-delete p P [] h = tt
All-delete p P (r ∷ rs) h = ground (arith, All-delete p P rs h.1)

-- Deleting rows.
pub delete-IsSound : (p : Row → Bool) (rs : List Row) → IsSound rs → IsSound (delete_where p rs)
delete-IsSound p rs h = record {
  up_to_date = All-delete p _ rs h.up_to_date;
  unique = λ i. omega (arith, count-delete-le p (has_id i) rs, h.unique i);
  exclusive = λ u a. omega (arith, count-delete-le p (is_lease_by u a) rs, h.exclusive u a);
  bounded = All-delete p _ rs h.bounded;
}

id_of_eq : (x r : Row) → x ≡ r → x.id ≡ r.id
id_of_eq x r e = ap (λ (z : Row). z.id) e

-- Two rows of one id are one row.
pub Member-unique :
    (rs : List Row) (x y : Row)
    → count_where (has_id x.id) rs ≤ 1
    → Member x rs
    → Member y rs
    → y.id ≡ x.id
    → y ≡ x
Member-unique [] x y h m n e = absurd m
Member-unique (r ∷ rs) x y h m n e = ground (
  arith,
  Member-unique rs x y,
  Member-count (has_id x.id) rs y,
  Member-count (has_id x.id) rs x,
  id_of_eq x r,
  id_of_eq y r,
)
