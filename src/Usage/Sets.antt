-- ===== src/Usage/Sets.antt =====
-- Sets as lists without repetition: membership, and the count under inclusion.
use mathlib.Core.Path.{subst}
use yourcastbot.Prelude.{
  Bool-cases, List, Member, [], arith, false, if◌then◌else◌, inl, inr, length, refl, sym, true, ℕ,
  ◌<◌, ◌==◌, ◌∷◌, ◌≡◌, ◌≤◌, ◌⊎◌,
}
use yourcastbot.Usage.{add, contains, union}

pub contains-Member : (x : ℕ) (s : List ℕ) → contains x s ≡ true → Member x s
contains-Member x [] h = cc
contains-Member x (y ∷ ys) h = elim (Bool-cases (x == y)) [
  | inl e ↦ inl (ground arith)
  | inr e ↦ inr (contains-Member x ys (ground arith))
]

pub Member-contains : (x : ℕ) (s : List ℕ) → Member x s → contains x s ≡ true
Member-contains x [] m = absurd m
Member-contains x (y ∷ ys) m = elim m [
  | inl e ↦ ground arith
  | inr m' ↦ ground (arith, Member-contains x ys m')
]

abbrev pub Includes : List ℕ → List ℕ → Type 0
Includes t s = (x : ℕ) → Member x s → Member x t

abbrev pub IsSetList : List ℕ → Type 0
IsSetList [] = Unit
IsSetList (x ∷ xs) = (contains x xs ≡ false) × IsSetList xs

pub add-IsSetList : (x : ℕ) (s : List ℕ) → IsSetList s → IsSetList (add x s)
add-IsSetList x s i = elim (Bool-cases (contains x s)) [
  | inl e ↦ rw (e, if◌then◌else◌) i
  | inr e ↦ rw (e, if◌then◌else◌) (e, i)
]

pub union-IsSetList : (xs s : List ℕ) → IsSetList s → IsSetList (union xs s)
union-IsSetList [] s i = i
union-IsSetList (x ∷ xs) s i = add-IsSetList x (union xs s) (union-IsSetList xs s i)

pub Member-add : (x y : ℕ) (s : List ℕ) → (y ≡ x) ⊎ Member y s → Member y (add x s)
Member-add x y s m = elim (Bool-cases (contains x s)) [
  | inl e ↦
      rw (e, if◌then◌else◌)
        (elim m [ inl q ↦ subst (λ z. Member z s) (sym q) (contains-Member x s e) | inr k ↦ k ])
  | inr e ↦ rw (e, if◌then◌else◌) m
]

pub add-Member : (x y : ℕ) (s : List ℕ) → Member y (add x s) → (y ≡ x) ⊎ Member y s
add-Member x y s m = elim (Bool-cases (contains x s)) [
  | inl e ↦ inr (subst (λ b. Member y (if b then s else x ∷ s)) e m)
  | inr e ↦ subst (λ b. Member y (if b then s else x ∷ s)) e m
]

pub Member-union : (y : ℕ) (xs s : List ℕ) → Member y xs ⊎ Member y s → Member y (union xs s)
Member-union y [] s (inl m) = absurd m
Member-union y [] s (inr m) = m
Member-union y (x ∷ xs) s (inl (inl e)) = Member-add x y (union xs s) (inl e)
Member-union y (x ∷ xs) s (inl (inr m)) =
    Member-add x y (union xs s) (inr (Member-union y xs s (inl m)))
Member-union y (x ∷ xs) s (inr m) = Member-add x y (union xs s) (inr (Member-union y xs s (inr m)))

pub union-Member : (y : ℕ) (xs s : List ℕ) → Member y (union xs s) → Member y xs ⊎ Member y s
union-Member y [] s m = inr m
union-Member y (x ∷ xs) s m = elim (add-Member x y (union xs s) m) [
  | inl e ↦ inl (inl e)
  | inr k ↦ elim (union-Member y xs s k) [ inl a ↦ inl (inr a) | inr b ↦ inr b ]
]

abbrev without : ℕ → List ℕ → List ℕ
without x [] = []
without x (y ∷ ys) = let rest = without x ys in if x == y then rest else y ∷ rest

without-le : (x : ℕ) (s : List ℕ) → length (without x s) ≤ length s
without-le x [] = omega arith
without-le x (y ∷ ys) = ground (arith, without-le x ys)

without-lt : (x : ℕ) (s : List ℕ) → Member x s → length (without x s) < length s
without-lt x [] m = absurd m
without-lt x (y ∷ ys) m = elim m [
  | inl e ↦ ground (arith, without-le x ys)
  | inr m' ↦ ground (arith, without-lt x ys m')
]

Member-without : (x y : ℕ) (s : List ℕ) → Member y s → (x == y) ≡ false → Member y (without x s)
Member-without x y [] m n = absurd m
Member-without x y (z ∷ zs) m n = elim (Bool-cases (x == z)) [
  | inl e ↦
      rw (e, if◌then◌else◌)
        (elim m [ inl q ↦ absurd (ground arith) | inr m' ↦ Member-without x y zs m' n ])
  | inr e ↦
      rw (e, if◌then◌else◌) (elim m [ inl q ↦ inl q | inr m' ↦ inr (Member-without x y zs m' n) ])
]

not_in : (x y : ℕ) (xs : List ℕ) → contains x xs ≡ false → Member y xs → (x == y) ≡ false
not_in x y xs c m = elim (Bool-cases (x == y)) [
  | inl e ↦
      let same : y ≡ x = ground arith in
      let t = Member-contains x xs (subst (λ z. Member z xs) same m) in absurd (ground arith)
  | inr e ↦ e
]

-- A set has at most as many elements as a list that includes it.
pub length-Includes : (s t : List ℕ) → IsSetList s → Includes t s → length s ≤ length t
length-Includes [] t i h = omega arith
length-Includes (x ∷ xs) t i h =
    let rest =
      length-Includes xs (without x t) i.1
        (λ y m. Member-without x y t (h y (inr m)) (not_in x y xs i.0 m)) in
    let less = without-lt x t (h x (inl refl)) in ground arith

-- It has fewer if the list has an element that the set has not.
pub length-lt-Includes :
    (s t : List ℕ) (y : ℕ)
    → IsSetList s
    → Includes t s
    → Member y t
    → contains y s ≡ false
    → length s < length t
length-lt-Includes s t y i h m n =
    let rest =
      length-Includes s (without y t) i (λ z k. Member-without y z t (h z k) (not_in y z s n k)) in
    let less = without-lt y t m in ground arith
