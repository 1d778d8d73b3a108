-- ===== src/Limits/Clicks.antt =====
-- A chat's clicks and deliveries over time.
use mathlib.Core.Path.{subst}
use native.Mathlib.Nat.{le_trans}
use yourcastbot.Limits.{Window, counted, may, wait, window_check}
use yourcastbot.Limits.Groups.{
  Member-episodes, episodes-Includes, episodes-IsSetList, episodes-Member,
}
use yourcastbot.Prelude.{
  Bool-cases, List, Member, [], ap, arith, if◌then◌else◌, inl, inr, length, ltb, refl, sym, true, ℕ,
  ◌++◌, ◌==◌, ◌∙◌, ◌∷◌, ◌≡◌, ◌≤◌, ◌⊎◌,
}
use yourcastbot.Usage.{Event, add, contains, delivery, episodes_since, rec, record_deliveries}
use yourcastbot.Usage.Sets.{
  Includes, IsSetList, Member-union, contains-Member, length-Includes, union-IsSetList,
  union-Member,
}

pub record Clicks : Type 0 where
  pub events : List Event
  pub waiting : List ℕ

pub data Op : Type 0 where
  tap : ℕ → Op
  deliver : ℕ → Op

abbrev pub drop_one : ℕ → List ℕ → List ℕ
drop_one x [] = []
drop_one x (y ∷ ys) = if x == y then ys else y ∷ drop_one x ys

abbrev pub tapped : Window → ℕ → Clicks → Clicks
tapped may x s = record s { waiting = x ∷ s.waiting }
tapped (wait w) x s = s

-- A tap is queued if the check allows it; a queued episode is delivered and put in the ledger.
abbrev pub step : ℕ → ℕ → ℕ → ℕ → Op → Clicks → Clicks
step u limit window now (tap x) s =
    tapped (window_check u x s.waiting limit window now s.events) x s
step u limit window now (deliver x) s =
    if contains x s.waiting
    then record {
      events = record_deliveries (u ∷ []) rec x now s.events;
      waiting = drop_one x s.waiting;
    }
    else s

abbrev pub steps : ℕ → ℕ → ℕ → List (ℕ × Op) → Clicks → Clicks
steps u limit window [] s = s
steps u limit window ((now, o) ∷ os) s = steps u limit window os (step u limit window now o s)

-- The times do not go back, from `start` to `stop`.
abbrev pub IsOrdered : ℕ → List (ℕ × Op) → ℕ → Type 0
IsOrdered start [] stop = start ≤ stop
IsOrdered start ((now, o) ∷ os) stop = (start ≤ now) × IsOrdered now os stop

abbrev pub IsWithin : ℕ → ℕ → ℕ → ℕ → Clicks → Type 0
IsWithin u limit window now s = length (counted u s.waiting window now s.events) ≤ limit

counted-IsSetList :
    (u window now : ℕ) (w : List ℕ) (es : List Event) → IsSetList (counted u w window now es)
counted-IsSetList u window now w es =
    union-IsSetList w (episodes_since u rec window now es) (episodes-IsSetList u window now es)

later-IsWithin :
    (u limit window now later : ℕ) (s : Clicks)
    → now ≤ later
    → IsWithin u limit window now s
    → IsWithin u limit window later s
later-IsWithin u limit window now later s l h =
    le_trans
      (length-Includes (counted u s.waiting window later s.events)
        (counted u s.waiting window now s.events)
        (counted-IsSetList u window later s.waiting s.events)
        (λ x m. elim (union-Member x s.waiting (episodes_since u rec window later s.events) m) [
          | inl a ↦ Member-union x s.waiting _ (inl a)
          | inr b ↦
              Member-union x s.waiting _ (inr (episodes-Includes u window now later s.events l x b))
        ]))
      h

length-add :
    (x : ℕ) (s : List ℕ) (limit : ℕ)
    → length s ≤ limit
    → contains x s ≡ true ⊎ (ltb (length s) limit ≡ true)
    → length (add x s) ≤ limit
length-add x s limit h (inl e) = rw (e, if◌then◌else◌) h
length-add x s limit h (inr e) = ground arith

-- What `window_check` allows.
pub may_cases :
    (u x limit window now : ℕ) (w : List ℕ) (es : List Event)
    → window_check u x w limit window now es ≡ may
    → (contains x (counted u w window now es) ≡ true)
      ⊎ (ltb (length (counted u w window now es)) limit ≡ true)
unfolding window_check
may_cases u x limit window now w es h = elim (Bool-cases (contains x (counted u w window now es))) [
  | inl a ↦ inl a
  | inr a ↦ elim (Bool-cases (ltb (length (counted u w window now es)) limit)) [
    | inl b ↦ inr b
    | inr b ↦ absurd (ground arith)
  ]
]

tap-IsWithin :
    (u limit window now x : ℕ) (s : Clicks) (v : Window)
    → window_check u x s.waiting limit window now s.events ≡ v
    → IsWithin u limit window now s
    → IsWithin u limit window now (tapped v x s)
tap-IsWithin u limit window now x s may e h =
    length-add x (counted u s.waiting window now s.events) limit h
      (may_cases u x limit window now s.waiting s.events e)
tap-IsWithin u limit window now x s (wait w) e h = h

Member-drop : (x y : ℕ) (l : List ℕ) → Member y (drop_one x l) → Member y l
Member-drop x y [] m = m
Member-drop x y (z ∷ zs) m = elim (Bool-cases (x == z)) [
  | inl e ↦ inr (subst (λ b. Member y (if b then zs else z ∷ drop_one x zs)) e m)
  | inr e ↦
      elim (subst (λ b. Member y (if b then zs else z ∷ drop_one x zs)) e m)
        as (λ _. Member y (z ∷ zs)) [ inl q ↦ inl q | inr k ↦ inr (Member-drop x y zs k) ]
]

Member-append : (es : List Event) (d e : Event) → Member e (es ++ d ∷ []) → Member e es ⊎ (e ≡ d)
Member-append [] d e (inl q) = inr q
Member-append [] d e (inr k) = absurd k
Member-append (x ∷ es) d e (inl q) = inl (inl q)
Member-append (x ∷ es) d e (inr k) = elim (Member-append es d e k) [
  | inl a ↦ inl (inr a)
  | inr b ↦ inr b
]

-- A delivery counts no episode that did not count before.
delivered-Includes :
    (u window now x : ℕ) (w : List ℕ) (es : List Event)
    → Member x w
    → Includes
        (counted u w window now es)
        (counted u (drop_one x w) window now (es ++ delivery rec x now u ∷ []))
delivered-Includes u window now x w es mx y m = elim (union-Member y (drop_one x w) _ m) [
  | inl a ↦ Member-union y w _ (inl (Member-drop x y w a))
  | inr b ↦
      let (e, me, ce, re) = episodes-Member u window now y (es ++ delivery rec x now u ∷ []) b in
      elim (Member-append es (delivery rec x now u) e me) [
        | inl old ↦ Member-union y w _ (inr (Member-episodes u window now y es e old ce re))
        | inr q ↦
            let same : x ≡ y = sym (ap (λ (z : Event). z.ref) q) ∙ re in
            Member-union y w _ (inl (subst (λ z. Member z w) same mx))
      ]
]

deliver-IsWithin :
    (u limit window now x : ℕ) (s : Clicks)
    → IsWithin u limit window now s
    → IsWithin u limit window now (step u limit window now (deliver x) s)
deliver-IsWithin u limit window now x s h = elim (Bool-cases (contains x s.waiting)) [
  | inl e ↦
      rw (e, if◌then◌else◌)
        (le_trans
          (length-Includes _ _ (counted-IsSetList u window now (drop_one x s.waiting) _)
            (delivered-Includes u window now x s.waiting s.events (contains-Member x s.waiting e)))
          h)
  | inr e ↦ rw (e, if◌then◌else◌) h
]

step-IsWithin :
    (u limit window now : ℕ) (o : Op) (s : Clicks)
    → IsWithin u limit window now s
    → IsWithin u limit window now (step u limit window now o s)
step-IsWithin u limit window now (tap x) s h = tap-IsWithin u limit window now x s _ refl h
step-IsWithin u limit window now (deliver x) s h = deliver-IsWithin u limit window now x s h

-- Through any sequence of a chat's taps and deliveries, the different episodes delivered in the
-- window together with those still waiting stay at most `limit`, if they are at the start.
pub steps-IsWithin :
    (u limit window start stop : ℕ) (os : List (ℕ × Op)) (s : Clicks)
    → IsOrdered start os stop
    → IsWithin u limit window start s
    → IsWithin u limit window stop (steps u limit window os s)
steps-IsWithin u limit window start stop [] s l h = later-IsWithin u limit window start stop s l h
steps-IsWithin u limit window start stop ((now, o) ∷ os) s l h =
    steps-IsWithin u limit window now stop os (step u limit window now o s) l.1
      (step-IsWithin u limit window now o s (later-IsWithin u limit window start now s l.0 h))
