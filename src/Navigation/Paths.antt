-- ===== src/Navigation/Paths.antt =====
-- What a user's path through the screens leaves on the stack.
use yourcastbot.Navigation.{Menu}
use yourcastbot.Navigation.Refines.{stack-go_back}
use yourcastbot.Navigation.Repeats.{NoRepeat}
use yourcastbot.Navigation.Screens.{
  Act, Answer, Handler, Route, adds, button, clears, drops, forgets, go_back, is_screen, saves,
  shows, visit,
}
use yourcastbot.Navigation.Stack.{act_all_on, go_back_on, push_on, stack, stack-visit, visit_on}
use yourcastbot.Prelude.{
  All, Bool, List, [], ap, arith, false, length, none, refl, suc, true, zero, ℕ, ◌&&◌, ◌++◌, ◌∙◌,
  ◌∷◌, ◌≡◌, ◌≢◌,
}

abbrev pub is_quiet : Act → Bool
is_quiet (saves r params) = true
is_quiet (forgets r) = true
is_quiet _ = false

abbrev pub all_quiet : List Act → Bool
all_quiet [] = true
all_quiet (x ∷ xs) = is_quiet x && all_quiet xs

abbrev pub is_shows : Answer → Bool
is_shows shows = true
is_shows _ = false

-- A handler that shows its screen, and leaves the stack of screens to the router.
abbrev pub IsPlain : Handler → Type 0
IsPlain h = (h.answer ≡ shows) × (all_quiet h.acts ≡ true)

quiet_on : (xs : List Act) (s : List ℕ) → all_quiet xs ≡ true → act_all_on xs s ≡ s
quiet_on [] s h = refl
quiet_on (adds r ∷ xs) s h = cc
quiet_on (drops ∷ xs) s h = cc
quiet_on (saves r params ∷ xs) s h = quiet_on xs s h
quiet_on (forgets r ∷ xs) s h = quiet_on xs s h
quiet_on (clears ∷ xs) s h = cc

visit_plain : (h : Handler) (r : ℕ) (s : List ℕ) → IsPlain h → visit_on h button r s ≡ push_on r s
visit_plain h r s (a, q) = rw (a, quiet_on h.acts s q) refl

back_plain :
    (table : List Route) (handlers : ℕ → Handler) (c p : ℕ) (s : List ℕ)
    → c ≢ p
    → is_screen table p ≡ true
    → IsPlain (handlers p)
    → go_back_on table handlers none (c ∷ p ∷ s) ≡ p ∷ s
back_plain table handlers c p s n i (a, q) =
    rw (i, a, quiet_on (handlers p).acts (c ∷ p ∷ s) q) (ground arith)

-- "Back" undoes a step forward: from a screen that "Back" can open, a button to another screen and then
-- "Back" leave the stack of screens as it was, if the visit and the step back leave the stack to the
-- router, whatever else each of them does.
pub visit-go_back :
    (table : List Route) (h : Handler) (handlers : ℕ → Handler) (r p : ℕ) (s : List ℕ) (m : Menu)
    → stack m ≡ p ∷ s
    → p ≢ r
    → is_screen table p ≡ true
    → IsPlain h
    → IsPlain (handlers p)
    → stack (go_back table handlers none (visit h button r m)) ≡ stack m
visit-go_back table h handlers r p s m e n i hr hp =
    stack-go_back table handlers none (visit h button r m)
    ∙ ap (go_back_on table handlers none) (stack-visit h button r m)
    ∙ rw (e, visit_plain h r (p ∷ s) hr) (ground (arith, back_plain table handlers r p s))

abbrev pub backs : ℕ → List Route → (ℕ → Handler) → Menu → Menu
backs zero table handlers m = m
backs (suc n) table handlers m = backs n table handlers (go_back table handlers none m)

-- Every screen on the stack can be opened again.
abbrev pub AreOpen : List Route → (ℕ → Handler) → List ℕ → Type 0
AreOpen table handlers s = All (λ r. (is_screen table r ≡ true) × IsPlain (handlers r)) s

-- "Back" leads out: as many taps on it as the stack has screens above its first one leave that one,
-- when no screen stands twice in a row, and every screen can be opened and leaves the stack to the
-- router.
pub backs_reach :
    (table : List Route) (handlers : ℕ → Handler) (s : List ℕ) (b : ℕ) (m : Menu)
    → stack m ≡ s ++ b ∷ []
    → NoRepeat (s ++ b ∷ [])
    → AreOpen table handlers (s ++ b ∷ [])
    → stack (backs (length s) table handlers m) ≡ b ∷ []
backs_reach table handlers [] b m e h o = e
backs_reach table handlers (c ∷ []) b m e h o =
    stack-go_back table handlers none m
    ∙ ap (go_back_on table handlers none) e
    ∙ back_plain table handlers c b [] h.0 o.1.0.0 o.1.0.1
backs_reach table handlers (c ∷ p ∷ s) b m e h o =
    backs_reach table handlers (p ∷ s) b (go_back table handlers none m)
      (stack-go_back table handlers none m
        ∙ ap (go_back_on table handlers none) e
        ∙ back_plain table handlers c p (s ++ b ∷ []) h.0 o.1.0.0 o.1.0.1)
      h.1 o.1
