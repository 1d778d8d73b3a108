-- ===== src/Limits/Groups.antt =====
-- The episodes of a window and the groups of their deliveries.
use mathlib.Core.Path.{subst}
use yourcastbot.Prelude.{
  Bool, Bool-cases, List, Member, Option-cases, [], ap, arith, if◌then◌else◌, inl, inr, leb, none,
  refl, some, sym, true, ℕ, ◌<◌, ◌==◌, ◌∙◌, ◌∷◌, ◌≡◌, ◌≤◌,
}
use yourcastbot.Table.{select_where}
use yourcastbot.Table.Laws.{Member-select}
use yourcastbot.Usage.{Event, episodes_since, first_last, is_counted, last_of, rec, refs}
use yourcastbot.Usage.Sets.{Includes, IsSetList, Member-union, union-IsSetList, union-Member}

pub refs-Member :
    (p : Event → Bool) (x : ℕ) (es : List Event)
    → Member x (refs (select_where p es))
    → (e : Event) × Member e es × (p e ≡ true) × (e.ref ≡ x)
refs-Member p x [] m = absurd m
refs-Member p x (e ∷ es) m = elim (Bool-cases (p e)) [
  | inl t ↦
      let m' : Member x (refs (e ∷ select_where p es)) =
        subst (λ b. Member x (refs (if b then e ∷ select_where p es else select_where p es))) t m in
      elim m' [
        | inl q ↦ (e, inl refl, t, sym q)
        | inr k ↦ let (d, md, pd, rd) = refs-Member p x es k in (d, inr md, pd, rd)
      ]
  | inr f ↦
      let m' : Member x (refs (select_where p es)) =
        subst (λ b. Member x (refs (if b then e ∷ select_where p es else select_where p es))) f m in
      let (d, md, pd, rd) = refs-Member p x es m' in (d, inr md, pd, rd)
]

pub Member-refs :
    (x : ℕ) (es : List Event) (e : Event) → Member e es → e.ref ≡ x → Member x (refs es)
Member-refs x [] e m r = absurd m
Member-refs x (d ∷ es) e m r = elim m [
  | inl q ↦ inl (sym r ∙ ap (λ (y : Event). y.ref) q)
  | inr k ↦ inr (Member-refs x es e k r)
]

-- An episode of the window is an event of the window, and the other way round.
pub episodes-Member :
    (u window now x : ℕ) (es : List Event)
    → Member x (episodes_since u rec window now es)
    → (e : Event) × Member e es × (is_counted u rec window now e ≡ true) × (e.ref ≡ x)
episodes-Member u window now x es m =
    elim (union-Member x (refs (select_where (is_counted u rec window now) es)) [] m) [
      | inl a ↦ refs-Member (is_counted u rec window now) x es a
      | inr b ↦ absurd b
    ]

pub Member-episodes :
    (u window now x : ℕ) (es : List Event) (e : Event)
    → Member e es
    → is_counted u rec window now e ≡ true
    → e.ref ≡ x
    → Member x (episodes_since u rec window now es)
Member-episodes u window now x es e m c r =
    Member-union x (refs (select_where (is_counted u rec window now) es)) [] (
      inl (
        Member-refs x (select_where (is_counted u rec window now) es) e
          (Member-select (is_counted u rec window now) es e m c) r))

-- What leaves a window does not come back.
pub still_counted :
    (u window now later : ℕ) (e : Event)
    → now ≤ later
    → is_counted u rec window later e ≡ true
    → is_counted u rec window now e ≡ true
still_counted u window now later e l h = ground arith

pub episodes-Includes :
    (u window now later : ℕ) (es : List Event)
    → now ≤ later
    → Includes (episodes_since u rec window now es) (episodes_since u rec window later es)
episodes-Includes u window now later es l x m =
    let (e, me, ce, re) = episodes-Member u window later x es m in
    Member-episodes u window now x es e me (still_counted u window now later e l ce) re

pub episodes-IsSetList :
    (u window now : ℕ) (es : List Event) → IsSetList (episodes_since u rec window now es)
episodes-IsSetList u window now es =
    union-IsSetList (refs (select_where (is_counted u rec window now) es)) [] tt

pub last_of-le :
    (x : ℕ) (es : List Event) (e : Event) → Member e es → e.ref ≡ x → e.at ≤ last_of x es
last_of-le x [] e m r = absurd m
last_of-le x (d ∷ es) e m r = elim m [
  | inl q ↦
      let a : e.at ≡ d.at = ap (λ (y : Event). y.at) q in
      let b : e.ref ≡ d.ref = ap (λ (y : Event). y.ref) q in ground arith
  | inr k ↦ ground (arith, last_of-le x es e k r)
]

last_positive :
    (x : ℕ) (es : List Event)
    → 0 < last_of x es
    → (e : Event) × Member e es × (e.ref ≡ x) × (e.at ≡ last_of x es)
last_positive x [] h = absurd (ground arith)
last_positive x (d ∷ es) h = elim (Bool-cases (d.ref == x)) [
  | inl t ↦ elim (Bool-cases (leb (last_of x es) d.at)) [
    | inl l ↦ (d, inl refl, ground arith, ground arith)
    | inr l ↦ let (e, m, r, a) = last_positive x es (ground arith) in (e, inr m, r, ground arith)
  ]
  | inr f ↦ let (e, m, r, a) = last_positive x es (ground arith) in (e, inr m, r, ground arith)
]

-- The last delivery of an episode is one of them.
pub last_of-Member :
    (x : ℕ) (es : List Event)
    → Member x (refs es)
    → (e : Event) × Member e es × (e.ref ≡ x) × (e.at ≡ last_of x es)
last_of-Member x [] m = absurd m
last_of-Member x (d ∷ es) m = elim (Bool-cases (d.ref == x)) [
  | inl t ↦ elim (Bool-cases (leb (last_of x es) d.at)) [
    | inl l ↦ (d, inl refl, ground arith, ground arith)
    | inr l ↦ let (e, k, r, a) = last_positive x es (ground arith) in (e, inr k, r, ground arith)
  ]
  | inr f ↦ elim m [
    | inl q ↦ absurd (ground arith)
    | inr n ↦ let (e, k, r, a) = last_of-Member x es n in (e, inr k, r, ground arith)
  ]
]

pub first_last-Member :
    (xs : List ℕ) (es : List Event) (m : ℕ)
    → first_last xs es ≡ some m
    → (y : ℕ) × Member y xs × (last_of y es ≡ m)
first_last-Member [] es m h = cc
first_last-Member (x ∷ xs) es m h = elim (Option-cases (first_last xs es)) [
  | inl n ↦ (x, inl refl, ground arith)
  | inr (k, e) ↦ elim (Bool-cases (leb (last_of x es) k)) [
    | inl l ↦ (x, inl refl, ground arith)
    | inr l ↦ let (y, my, ly) = first_last-Member xs es k e in (y, inr my, ground arith)
  ]
]

first_last-none :
    (xs : List ℕ) (es : List Event) (y : ℕ) → first_last xs es ≡ none → Member y xs → ⊥
first_last-none [] es y h k = k
first_last-none (x ∷ xs) es y h k = cc

pub first_last-le :
    (xs : List ℕ) (es : List Event) (m y : ℕ)
    → first_last xs es ≡ some m
    → Member y xs
    → m ≤ last_of y es
first_last-le [] es m y h k = absurd k
first_last-le (x ∷ xs) es m y h k = elim (Option-cases (first_last xs es)) [
  | inl n ↦ elim k [
    | inl q ↦ rw (q) (ground arith)
    | inr k' ↦ absurd (first_last-none xs es y n k')
  ]
  | inr (j, e) ↦ elim k [
    | inl q ↦ rw (q) (ground arith)
    | inr k' ↦ ground (arith, first_last-le xs es j y e k')
  ]
]
