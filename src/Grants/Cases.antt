-- ===== src/Grants/Cases.antt =====
-- The stores that the check of a holder can leave: one case for each operation that it calls.
use mathlib.Core.Path.{subst}
use yourcastbot.Grants.{Reason, Store, stopped, unsubscribed}
use yourcastbot.Grants.Check.{
  Checked, Conf, Message, Verdict, after_end, after_hold, after_mark, after_missing, check,
  grace_hours, missing,
}
use yourcastbot.Grants.Hold.{end, hold, mark_missing}
use yourcastbot.Prelude.{
  Bool, List, Option, [], false, if◌then◌else◌, ltb, none, refl, some, sym, true, ℕ, ◌*◌, ◌+◌, ◌==◌,
  ◌∷◌, ◌≡◌,
}

after_end-store : (x : Bool × Store) (m : Message) → (after_end x m).store ≡ x.1
after_end-store (true, s) m = refl
after_end-store (false, s) m = refl

after_hold-store : (x : Bool × Store) (v : Verdict) → (after_hold x v).store ≡ x.1
after_hold-store (true, s) v = refl
after_hold-store (false, s) v = refl

choose :
    (P : Store → Type 0) (b : Bool) (x y : Checked)
    → P x.store
    → P y.store
    → P (if b then x else y).store
choose P true x y h k = h
choose P false x y h k = k

-- `Q` is what ending the grant starts from.
module _ (P Q : Store → Type 0) (u now : ℕ) where
  after_mark-elim :
      (x : Option ℕ × Store) (absent : List ℕ)
      → P x.1
      → Q x.1
      → ((r : Reason) (t : Store) → Q t → P (end u r now true t).1)
      → P (after_mark x u absent now).store
  after_mark-elim (none, s) absent h q k = h
  after_mark-elim (some since, s) absent h q k = choose P (since == now) _ _ h (
      choose P (ltb now (since + grace_hours * 3600)) _ _ h
        (subst P (sym (after_end-store (end u unsubscribed now true s) _)) (k unsubscribed s q)))

  after_missing-elim :
      (o : Option (List ℕ)) (s : Store)
      → P (hold u now s).1
      → P (mark_missing u now s).1
      → Q (mark_missing u now s).1
      → ((r : Reason) (t : Store) → Q t → P (end u r now true t).1)
      → P (after_missing o u now s).store
  after_missing-elim none s h m n k = subst P (sym (after_hold-store (hold u now s) _)) h
  after_missing-elim (some []) s h m n k = subst P (sym (after_hold-store (hold u now s) _)) h
  after_missing-elim (some (c ∷ cs)) s h m n k =
      after_mark-elim (mark_missing u now s) (c ∷ cs) m n k

pub check-elim :
    (P Q : Store → Type 0) (u : ℕ) (conf : Conf) (now : ℕ) (is_member : ℕ → Option Bool) (s : Store)
    → Q s
    → P (hold u now s).1
    → P (mark_missing u now s).1
    → Q (mark_missing u now s).1
    → ((r : Reason) (t : Store) → Q t → P (end u r now true t).1)
    → P (check u conf now is_member s).store
unfolding check
check-elim P Q u conf now is_member s p h m n k =
    choose P conf.is_enabled _ _
      (after_missing-elim P Q u now (missing is_member conf.channels) s h m n k)
      (subst P (sym (after_end-store (end u stopped now true s) _)) (k stopped s p))
