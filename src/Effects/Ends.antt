-- ===== src/Effects/Ends.antt =====
-- A pass over the due effects ends, having run each of them once.
use yourcastbot.Effects.{
  Effect, claim, claimed, finish, finish_with, has_id, is_due, lease, lower_id, outcome,
}
use yourcastbot.Effects.Run.{Pass, count_in, counted, run_due}
use yourcastbot.Outbox.{Status}
use yourcastbot.Prelude.{
  Bool, List, Member, Option, Option-cases, [], ap, arith, false, inl, inr, none, not, refl, some,
  suc, true, zero, ℕ, ◌&&◌, ◌+◌, ◌<◌, ◌∷◌, ◌≡◌, ◌≤◌,
}
use yourcastbot.Table.{best_where, count_where, update_where}
use yourcastbot.Table.Best.{best-Member, best-none}
use yourcastbot.Table.Laws.{All-intro, Member-count, count-update_same, count_zero}

abbrev pub IsKeyed : List Effect → Type 0
IsKeyed es = (i : ℕ) → count_where (has_id i) es ≤ 1

abbrev due_other : ℕ → ℕ → Effect → Bool
due_other now i e = is_due now e && not (has_id i e)

count-other :
    (now i : ℕ) (f : Effect → Effect) (es : List Effect)
    → ((e : Effect) → (f e).id ≡ e.id)
    → count_where (due_other now i) (update_where (has_id i) f es)
      ≡ count_where (due_other now i) es
count-other now i f es same =
    count-update_same (has_id i) (due_other now i) f (λ e h. rw (same e) (ground arith)) es

count-settled :
    (now i : ℕ) (f : Effect → Effect) (es : List Effect)
    → ((e : Effect) → is_due now (f e) ≡ false)
    → count_where (is_due now) (update_where (has_id i) f es) ≡ count_where (due_other now i) es
count-settled now i f [] h = refl
count-settled now i f (e ∷ es) h = ground (arith, h e, count-settled now i f es h)

none_other :
    (now i : ℕ) (es : List Effect)
    → count_where (has_id i) es ≡ 0
    → count_where (due_other now i) es ≡ count_where (is_due now) es
none_other now i [] c = refl
none_other now i (e ∷ es) c = ground (arith, none_other now i es)

-- The row `x` is the only due one of its id.
one_due :
    (now : ℕ) (x : Effect) (es : List Effect)
    → count_where (has_id x.id) es ≤ 1
    → Member x es
    → is_due now x ≡ true
    → count_where (due_other now x.id) es + 1 ≡ count_where (is_due now) es
one_due now x [] c m d = absurd m
one_due now x (e ∷ es) c m d = elim m [
  | inl q ↦
      let own : has_id x.id e ≡ true = rw (← q) (ground arith) in
      let due : is_due now e ≡ true = rw (← q) d in ground (arith, none_other now x.id es)
  | inr k ↦ ground (arith, one_due now x es, Member-count (has_id x.id) es x k)
]

settled :
    (now : ℕ) (o : Option ℕ) (r e : Effect)
    → 1 ≤ r.attempts
    → is_due now (finish_with o r now e) ≡ false
settled now none r e h = refl
settled now (some x) r e h = ground arith

update-IsKeyed :
    (i : ℕ) (f : Effect → Effect) (es : List Effect)
    → ((e : Effect) → (f e).id ≡ e.id)
    → IsKeyed es
    → IsKeyed (update_where (has_id i) f es)
update-IsKeyed i f es same k j =
    rw (count-update_same (has_id i) (has_id j) f (λ e h. rw (same e) refl) es) (k j)

finish_id : (o : Option ℕ) (r : Effect) (now : ℕ) (e : Effect) → (finish_with o r now e).id ≡ e.id
finish_id none r now e = refl
finish_id (some x) r now e = ground arith

-- The table after the row `x` was leased and finished.
abbrev after_run : Option ℕ → ℕ → Effect → List Effect → List Effect
after_run o now x es =
    update_where (has_id x.id) (finish_with o (claimed x) now)
      (update_where (has_id x.id) (lease now) es)

after_run-IsKeyed :
    (o : Option ℕ) (now : ℕ) (x : Effect) (es : List Effect)
    → IsKeyed es
    → IsKeyed (after_run o now x es)
after_run-IsKeyed o now x es k =
    update-IsKeyed x.id (finish_with o (claimed x) now) _ (finish_id o (claimed x) now)
      (update-IsKeyed x.id (lease now) es (λ e. refl) k)

after_run-count :
    (o : Option ℕ) (now : ℕ) (x : Effect) (es : List Effect)
    → IsKeyed es
    → best_where (is_due now) lower_id es ≡ some x
    → count_where (is_due now) (after_run o now x es) + 1 ≡ count_where (is_due now) es
after_run-count o now x es k b =
    let (m, d) = best-Member (is_due now) lower_id es x b in
    rw
      (
        count-settled now x.id (finish_with o (claimed x) now)
            (update_where (has_id x.id) (lease now) es)
            (λ e. settled now o (claimed x) e (omega arith)),
        count-other now x.id (lease now) es (λ e. refl),
      )
      (one_due now x es (k x.id) m d)

none_due :
    (now : ℕ) (es : List Effect)
    → best_where (is_due now) lower_id es ≡ none
    → count_where (is_due now) es ≡ 0
none_due now es b =
    count_zero (is_due now) es
      (All-intro (λ e. is_due now e ≡ false) es (λ e m. best-none (is_due now) lower_id es e b m))

-- The pass ended, it ran `n` effects, and none is due any more.
pub record HasEnded (now n : ℕ) (o : Option Pass) : Type 0 where
  pub pass : Pass
  pub ended : o ≡ some pass
  pub ran_all : pass.ran ≡ n
  pub none_left : count_where (is_due now) pass.rows ≡ 0

counted-HasEnded :
    (now n : ℕ) (st : Status) (x : Effect) (o : Option Pass)
    → HasEnded now n o
    → HasEnded now (n + 1) (count_in st x o)
counted-HasEnded now n st x o e = record {
  pass = counted st x e.pass;
  ended = ap (count_in st x) e.ended;
  ran_all = ap (λ k. k + 1) e.ran_all;
  none_left = e.none_left;
}

-- A pass over the due effects ends, whatever the handlers raise: with fuel above the number of due
-- rows, it runs as many effects as are due, and leaves none due; the ids of the rows are different.
pub run_due-HasEnded :
    (fuel : ℕ) (handler : Effect → Option ℕ) (now : ℕ) (es : List Effect)
    → count_where (is_due now) es < fuel
    → IsKeyed es
    → HasEnded now (count_where (is_due now) es) (run_due fuel handler now es)
unfolding run_due claim finish
run_due-HasEnded zero handler now es h k = absurd (omega arith)
run_due-HasEnded (suc fuel) handler now es h k =
    elim (Option-cases (best_where (is_due now) lower_id es)) [
      | inl b ↦
          rw (b, none_due now es b)
            (record {
              pass = record { ran = 0; told = []; rows = es };
              ended = refl;
              ran_all = refl;
              none_left = none_due now es b;
            })
      | inr (x, b) ↦
          let o = handler (claimed x) in
          let c = after_run-count o now x es k b in
          let rest =
            run_due-HasEnded fuel handler now (after_run o now x es) (omega arith)
              (after_run-IsKeyed o now x es k) in
          rw (b, ← c) (counted-HasEnded now _ (outcome o (claimed x)) (claimed x) _ rest)
    ]
