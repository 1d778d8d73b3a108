-- ===== src/Limits/Wait.antt =====
-- The wait that a refused click is told.
use yourcastbot.Limits.{may, wait, wait_for, window_check}
use yourcastbot.Limits.Groups.{
  Member-episodes, episodes-Includes, episodes-IsSetList, episodes-Member, first_last-Member,
  first_last-le, last_of-Member, last_of-le, still_counted,
}
use yourcastbot.Prelude.{
  Bool-cases, List, [], ap, arith, false, inl, inr, length, ltb, max, refl, some, sym, ℕ, ◌+◌, ◌-◌,
  ◌<◌, ◌∙◌, ◌∷◌, ◌≡◌, ◌≢◌, ◌≤◌,
}
use yourcastbot.Table.{select_where}
use yourcastbot.Table.Laws.{Member-select, select-Member}
use yourcastbot.Usage.{
  Event, contains, episodes_since, first_last, first_to_leave, is_counted, last_of, least, rec,
  refs,
}
use yourcastbot.Usage.Sets.{
  Includes, Member-contains, contains-Member, length-Includes, length-lt-Includes, union-Member,
}

-- Before the episode that leaves first has left, no episode has.
stays-Includes :
    (u window now t m : ℕ) (es : List Event)
    → first_to_leave u rec window now es ≡ some m
    → t ≤ m + window
    → Includes (episodes_since u rec window t es) (episodes_since u rec window now es)
stays-Includes u window now t m es f l x k =
    let here = select_where (is_counted u rec window now) es in
    let (e, me, re, ae) =
      last_of-Member x here
        (elim (union-Member x (refs here) [] k) [ inl a ↦ a | inr b ↦ absurd b ]) in
    let least = first_last-le (episodes_since u rec window now es) here m x f k in
    let (mes, ce) = select-Member (is_counted u rec window now) es e me in
    Member-episodes u window t x es e mes (ground arith) re

-- Once it has left, it is not counted.
left-lt :
    (u window now t m : ℕ) (es : List Event)
    → first_to_leave u rec window now es ≡ some m
    → now ≤ t
    → m + window < t
    → length (episodes_since u rec window t es) < length (episodes_since u rec window now es)
left-lt u window now t m es f n l =
    let here = select_where (is_counted u rec window now) es in
    let (y, my, ly) = first_last-Member (episodes_since u rec window now es) here m f in
    length-lt-Includes (episodes_since u rec window t es) (episodes_since u rec window now es) y
      (episodes-IsSetList u window t es) (episodes-Includes u window now t es n) my
      (elim (Bool-cases (contains y (episodes_since u rec window t es))) [
        | inl c ↦
            let (e, me, ce, re) = episodes-Member u window t y es (contains-Member y _ c) in
            let old =
              Member-select (is_counted u rec window now) es e me
                (still_counted u window now t e n ce) in
            let le = last_of-le y here e old re in absurd (ground arith)
        | inr c ↦ c
      ])

first_exists :
    (xs : List ℕ) (es : List Event) → 0 < length xs → (m : ℕ) × (first_last xs es ≡ some m)
first_exists [] es h = absurd (ground arith)
first_exists (x ∷ xs) es h = (least (last_of x es) (first_last xs es), refl)

wait_cases :
    (u x limit window now w : ℕ) (es : List Event)
    → window_check u x [] limit window now es ≡ wait w
    → (contains x (episodes_since u rec window now es) ≡ false)
      × (ltb (length (episodes_since u rec window now es)) limit ≡ false)
      × (wait_for (first_to_leave u rec window now es) window now ≡ w)
unfolding window_check
wait_cases u x limit window now w es h =
    elim (Bool-cases (contains x (episodes_since u rec window now es))) [
      | inl a ↦ absurd (ground arith)
      | inr a ↦ elim (Bool-cases (ltb (length (episodes_since u rec window now es)) limit)) [
        | inl b ↦ absurd (ground arith)
        | inr b ↦ (a, b, ground arith)
      ]
    ]

few-may :
    (u x limit window t : ℕ) (es : List Event)
    → length (episodes_since u rec window t es) < limit
    → window_check u x [] limit window t es ≡ may
unfolding window_check
few-may u x limit window t es h = ground arith

not_may :
    (u x limit window t : ℕ) (es : List Event)
    → contains x (episodes_since u rec window t es) ≡ false
    → limit ≤ length (episodes_since u rec window t es)
    → window_check u x [] limit window t es ≢ may
unfolding window_check
not_may u x limit window t es n l h = absurd (ground arith)

wait-first :
    (u x limit window now w m : ℕ) (es : List Event)
    → first_to_leave u rec window now es ≡ some m
    → wait_for (first_to_leave u rec window now es) window now ≡ w
    → w ≡ max (m + window - now) 60
wait-first u x limit window now w m es f e = sym e ∙ ap (λ o. wait_for o window now) f

absent_later :
    (u x window now t : ℕ) (es : List Event)
    → now ≤ t
    → contains x (episodes_since u rec window now es) ≡ false
    → contains x (episodes_since u rec window t es) ≡ false
absent_later u x window now t es l n =
    elim (Bool-cases (contains x (episodes_since u rec window t es))) [
      | inl c ↦
          let k =
            Member-contains x (episodes_since u rec window now es)
              (episodes-Includes u window now t es l x (contains-Member x _ c)) in
          absurd (ground arith)
      | inr c ↦ c
    ]

-- A refused click is told the right wait: with no other click waiting, nothing delivered meanwhile,
-- and a limit above 0 that is not exceeded so far, the same click is allowed at any time after the
-- wait, and up to its end it is refused, if the wait told is longer than the least one, a minute.
pub wait_exact :
    (u x limit window now w t : ℕ) (es : List Event)
    → 0 < limit
    → length (episodes_since u rec window now es) ≤ limit
    → window_check u x [] limit window now es ≡ wait w
    → now ≤ t
    → (now + w < t → window_check u x [] limit window t es ≡ may)
      × (60 < w → t ≤ now + w → window_check u x [] limit window t es ≢ may)
wait_exact u x limit window now w t es pos within refused n =
    let (absent, full, told) = wait_cases u x limit window now w es refused in
    let full' : limit ≤ length (episodes_since u rec window now es) = ground arith in
    let (m, f) =
      first_exists (episodes_since u rec window now es)
        (select_where (is_counted u rec window now) es) (omega arith) in
    let eq = wait-first u x limit window now w m es f told in
    (
      λ l.
          let less = left-lt u window now t m es f n (ground arith) in
          few-may u x limit window t es (omega arith),
      λ big l.
          let le =
            length-Includes (episodes_since u rec window now es) (episodes_since u rec window t es)
              (episodes-IsSetList u window now es)
              (stays-Includes u window now t m es f (ground arith)) in
          not_may u x limit window t es (absent_later u x window now t es n absent) (omega arith),
    )
