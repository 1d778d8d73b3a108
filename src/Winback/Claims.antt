-- ===== src/Winback/Claims.antt =====
-- Each message of a schedule is taken by one caller.
use yourcastbot.Prelude.{
  Bool, Bool-cases, List, [], ap, arith, false, if◌then◌else◌, inl, inr, refl, some, suc, true,
  zero, ℕ, ◌&&◌, ◌+◌, ◌==◌, ◌∙◌, ◌∷◌, ◌≡◌, ◌≢◌, ◌≤◌,
}
use yourcastbot.Table.{count_where, find_where}
use yourcastbot.Table.Append.{find-update_found, find-update_other}
use yourcastbot.Table.Laws.{count-update_same, find-Member, update_none}
use yourcastbot.Winback.{Row, advance, claim, has_user, is_at, messages_sent, stage_of}

-- The workers' calls of `claim`, each with its chat and stage.
abbrev pub won : ℕ → Bool → ℕ × ℕ → List ℕ → List ℕ
won u taken (v, stage) l = if taken && v == u then stage ∷ l else l

-- The stages of the chat `u` that the calls took, in their order, and the rows after them.
abbrev pub claim_all : ℕ → List (ℕ × ℕ) → List Row → List ℕ × List Row
claim_all u [] rs = ([], rs)
claim_all u ((v, stage) ∷ cs) rs =
    let (taken, ts) = claim v stage rs in
    let (l, us) = claim_all u cs ts in (won u taken (v, stage) l, us)

-- n numbers from `stage`.
abbrev pub count_from : ℕ → ℕ → List ℕ
count_from stage zero = []
count_from stage (suc n) = stage ∷ count_from (suc stage) n

none_at :
    (u stage : ℕ) (rs : List Row)
    → count_where (has_user u) rs ≡ 0
    → count_where (is_at u stage) rs ≡ 0
none_at u stage [] c = refl
none_at u stage (x ∷ rs) c = ground (arith, none_at u stage rs)

-- The chat has one row; a call names its stage, or not.
at_stage :
    (u stage : ℕ) (rs : List Row) (r : Row)
    → count_where (has_user u) rs ≤ 1
    → find_where (has_user u) rs ≡ some r
    → count_where (is_at u stage) rs ≡ (if r.stage == stage then 1 else 0)
at_stage u stage [] r c e = absurd cc
at_stage u stage (x ∷ rs) r c e = elim (Bool-cases (has_user u x)) [
  | inl y ↦
      let f : some x ≡ some r = rw (y, if◌then◌else◌) at e in
      let same : x ≡ r = cc in
      let z = none_at u stage rs (ground arith) in rw (← same) (ground arith)
  | inr y ↦
      let k = at_stage u stage rs r (ground arith) (rw (y, if◌then◌else◌) at e) in ground arith
]

claim_keyed :
    (u v stage : ℕ) (rs : List Row)
    → count_where (has_user u) (claim v stage rs).1 ≡ count_where (has_user u) rs
unfolding claim
claim_keyed u v stage rs = count-update_same (is_at v stage) (has_user u) advance (λ r h. refl) rs

-- A call that names the chat's stage takes it, and moves the row on.
taken_claim :
    (u : ℕ) (rs : List Row) (r : Row)
    → count_where (has_user u) rs ≤ 1
    → find_where (has_user u) rs ≡ some r
    → ((claim u r.stage rs).0 ≡ true)
      × (find_where (has_user u) (claim u r.stage rs).1 ≡ some (advance r))
unfolding claim
taken_claim u rs r c e =
    let k = at_stage u r.stage rs r c e in
    let own : is_at u r.stage r ≡ true = ground (arith, find-Member (has_user u) rs r e) in
    let f = find-update_found (is_at u r.stage) (has_user u) advance (λ x h. refl) rs r e in
    (ground (arith, k), f ∙ ap (λ b. some (if b then advance r else r)) own)

-- A call that names another stage changes nothing.
refused_claim :
    (u stage : ℕ) (rs : List Row) (r : Row)
    → count_where (has_user u) rs ≤ 1
    → find_where (has_user u) rs ≡ some r
    → r.stage ≢ stage
    → claim u stage rs ≡ (false, rs)
unfolding claim
refused_claim u stage rs r c e n =
    let k : count_where (is_at u stage) rs ≡ 0 = ground (arith, at_stage u stage rs r c e) in
    rw (k, update_none (is_at u stage) advance rs k) refl

other_row_claim :
    (u v stage : ℕ) (rs : List Row)
    → v ≢ u
    → find_where (has_user u) (claim v stage rs).1 ≡ find_where (has_user u) rs
unfolding claim
other_row_claim u v stage rs n =
    find-update_other (is_at v stage) (has_user u) advance (λ r h. ground arith)
      (λ r h. ground arith) rs

-- What the calls took of a chat whose row is `r`.
pub record Took (u : ℕ) (r : Row) (l : List ℕ) (rs : List Row) : Type 0 where
  pub number : ℕ
  pub in_order : l ≡ count_from r.stage number
  pub left : messages_sent u rs ≡ some (r.stage + number)

own_key : (u : ℕ) → (u == u) ≡ true
own_key u = ground arith

add_taken :
    (u : ℕ) (r : Row) (l : List ℕ) (rs : List Row)
    → Took u (advance r) l rs
    → Took u r (r.stage ∷ l) rs
add_taken u r l rs t = record {
  number = suc t.number;
  in_order = ap (λ x. r.stage ∷ x) (t.in_order ∙ ap (λ n. count_from n t.number) (next r.stage));
  left = t.left ∙ ap some (omega arith);
}
  where
    next : (n : ℕ) → n + 1 ≡ suc n
    next n = omega arith

not_won :
    (u v stage : ℕ) (taken : Bool) (l : List ℕ) → (v == u) ≡ false → won u taken (v, stage) l ≡ l
not_won u v stage true l e = rw (e, if◌then◌else◌) refl
not_won u v stage false l e = refl

-- Each message of a chat's schedule is taken once: whatever calls claim its stages, in any order and
-- with calls for other chats between, those that are told True took one stage after the other from the
-- chat's own on, none of them twice, and as many count as sent. The chat has one row.
pub claim_all-Took :
    (u : ℕ) (cs : List (ℕ × ℕ)) (rs : List Row) (r : Row)
    → count_where (has_user u) rs ≤ 1
    → find_where (has_user u) rs ≡ some r
    → Took u r (claim_all u cs rs).0 (claim_all u cs rs).1
unfolding messages_sent
claim_all-Took u [] rs r c e = record {
  number = 0;
  in_order = refl;
  left = ap stage_of e ∙ ap some (omega arith);
}
claim_all-Took u ((v, stage) ∷ cs) rs r c e = elim (Bool-cases (v == u)) [
  | inr n ↦
      let d : v ≢ u = ground arith in
      let ts : List Row = (claim v stage rs).1 in
      rw (claim_all, not_won u v stage (claim v stage rs).0 (claim_all u cs ts).0 n)
        (claim_all-Took u cs ts r (rw (claim_keyed u v stage rs) c)
          (other_row_claim u v stage rs d ∙ e))
  | inl y ↦
      let same : v ≡ u = ground arith in
      elim (Bool-cases (r.stage == stage)) [
        | inl k ↦
            let here : stage ≡ r.stage = ground arith in
            let (t, f) = taken_claim u rs r c e in
            rw (same, here, t, won, own_key u)
              (add_taken u r _ _ (
                claim_all-Took u cs (claim u r.stage rs).1 (advance r)
                  (rw (claim_keyed u u r.stage rs) c) f))
        | inr k ↦
            let d : r.stage ≢ stage = ground arith in
            rw (same, refused_claim u stage rs r c e d, won) (claim_all-Took u cs rs r c e)
      ]
]
