-- ===== src/Balancer/Slots.antt =====
-- A worker has one job at most, and none when it is idle.
use yourcastbot.Balancer.{
  Balancer, Filled, Slot, actions, ensure_sender_alive, fill_action, fill_actions, fill_idle,
  fill_next, fill_pool, fill_slot, give, hand_to, set_pool, slot_idle, swept,
}
use yourcastbot.Balancer.Steps.{die, get_job, rest, take, update_at}
use yourcastbot.Outbox.{Action, Outbox, action_eq}
use yourcastbot.Outbox.Claim.{ClaimResult, Claimed, bad_job, claim, no_job, some_job}
use yourcastbot.Prelude.{
  All, Bool, Bool-cases, List, Option, [], arith, false, if◌then◌else◌, inl, inr, none, refl, some,
  suc, true, zero, ℕ, ◌∷◌, ◌≡◌,
}

-- A worker is free, was given a job, or works on one.
pub data IsOk : Slot → Type 0 where
  free : {x : Slot} → x.queue ≡ [] → x.job ≡ none → x.paused ≡ true → IsOk x
  given : {x : Slot} (c : Claimed) → x.queue ≡ c ∷ [] → x.job ≡ none → x.paused ≡ false → IsOk x
  working : {x : Slot} (c : Claimed) → x.queue ≡ [] → x.job ≡ some c → x.paused ≡ false → IsOk x

-- A thread that was replaced has no job that waits.
abbrev pub HasNoQueue : Slot → Type 0
HasNoQueue x = x.queue ≡ []

pub record AreOk (b : Balancer) : Type 0 where
  pub in_slots : (a : Action) → All IsOk (b.slots a)
  pub in_replaced : All HasNoQueue b.replaced

alive-IsOk : (x : Slot) → slot_idle x ≡ true → IsOk x → IsOk (ensure_sender_alive x)
alive-IsOk x i (free q j p) = elim (Bool-cases x.is_alive) [
  | inl y ↦ rw (y, if◌then◌else◌) (free q j p)
  | inr y ↦ rw (y, if◌then◌else◌) (free q refl refl)
]
alive-IsOk x i (given c q j p) = absurd (ground arith)
alive-IsOk x i (working c q j p) = absurd (ground arith)

still_idle : (x : Slot) → slot_idle x ≡ true → slot_idle (ensure_sender_alive x) ≡ true
still_idle x i = ground arith

give-IsOk : (c : Claimed) (x : Slot) → slot_idle x ≡ true → IsOk x → IsOk (give c x)
give-IsOk c x i (free q j p) = given c (rw q refl) j refl
give-IsOk c x i (given d q j p) = absurd (ground arith)
give-IsOk c x i (working d q j p) = absurd (ground arith)

get_job-IsOk :
    (q : List Claimed) (j : Option Claimed) (x : Slot)
    → x.queue ≡ q
    → x.job ≡ j
    → IsOk x
    → IsOk (get_job q j x)
get_job-IsOk [] j x e k h = h
get_job-IsOk (c ∷ cs) (some d) x e k h = h
get_job-IsOk (c ∷ cs) none x e k (free q j p) = absurd (ground (arith, e, q))
get_job-IsOk (c ∷ cs) none x e k (given d q j p) = let l : cs ≡ [] = cc in working c l refl p
get_job-IsOk (c ∷ cs) none x e k (working d q j p) = absurd (ground (arith, e, q))

pub take-IsOk : (x : Slot) → IsOk x → IsOk (take x)
take-IsOk x h = get_job-IsOk x.queue x.job x refl refl h

pub rest-IsOk : (x : Slot) → IsOk x → IsOk (rest x)
rest-IsOk x (free q j p) = free q refl (rw p refl)
rest-IsOk x (given c q j p) = given c q refl (rw (p, q) refl)
rest-IsOk x (working c q j p) = free q refl (rw (p, q) refl)

pub die-IsOk : (x : Slot) → IsOk x → IsOk (die x)
die-IsOk x (free q j p) = free q j p
die-IsOk x (given c q j p) = given c q j p
die-IsOk x (working c q j p) = working c q j p

rest-HasNoQueue : (x : Slot) → HasNoQueue x → HasNoQueue (rest x)
rest-HasNoQueue x q = q

pub update_at-All :
    (P : Slot → Type 0) (f : Slot → Slot)
    → ((x : Slot) → P x → P (f x))
    → (i : ℕ) (xs : List Slot) → All P xs
    → All P (update_at i f xs)
update_at-All P f h i [] a = tt
update_at-All P f h zero (x ∷ xs) a = (h x a.0, a.1)
update_at-All P f h (suc i) (x ∷ xs) a = (a.0, update_at-All P f h i xs a.1)

pub set_pool-IsOk :
    (a : Action) (xs : List Slot) (slots : Action → List Slot)
    → All IsOk xs
    → ((c : Action) → All IsOk (slots c))
    → (c : Action) → All IsOk (set_pool a xs slots c)
set_pool-IsOk a xs slots h k c = elim (Bool-cases (action_eq c a)) [
  | inl y ↦ rw (y, if◌then◌else◌) h
  | inr y ↦ rw (y, if◌then◌else◌) (k c)
]

hand-IsOk :
    (others : Outbox → Filled) (x : Slot) (xs : List Slot) (r : ClaimResult) (s : Outbox)
    → ((t : Outbox) → All IsOk (others t).slots)
    → slot_idle x ≡ true
    → IsOk x
    → All IsOk xs
    → All IsOk (hand_to others x xs (r, s)).slots
hand-IsOk others x xs no_job s h i o os = (o, os)
hand-IsOk others x xs bad_job s h i o os = (o, os)
hand-IsOk others x xs (some_job c) s h i o os =
    (give-IsOk c (ensure_sender_alive x) (still_idle x i) (alive-IsOk x i o), h s)

fill_slot-IsOk :
    (b : Bool) (others : Outbox → Filled) (a : Action) (now mono : ℕ) (s : Outbox) (x : Slot)
    (xs : List Slot)
    → ((t : Outbox) → All IsOk (others t).slots)
    → slot_idle x ≡ b
    → IsOk x
    → All IsOk xs
    → All IsOk (fill_slot b others a now mono s x xs).slots
fill_slot-IsOk false others a now mono s x xs h i o os = (o, h s)
fill_slot-IsOk true others a now mono s x xs h i o os =
    let (r, t) = claim none (some a) now mono s in hand-IsOk others x xs r t h i o os

fill_pool-IsOk :
    (a : Action) (now mono : ℕ) (s : Outbox) (xs : List Slot)
    → All IsOk xs
    → All IsOk (fill_pool a now mono s xs).slots
unfolding fill_pool
fill_pool-IsOk a now mono s [] o = tt
fill_pool-IsOk a now mono s (x ∷ xs) o =
    fill_slot-IsOk (slot_idle x) (λ t. fill_pool a now mono t xs) a now mono s x xs
      (λ t. fill_pool-IsOk a now mono t xs o.1) refl o.0 o.1

filled-AreOk :
    (a : Action) (now mono : ℕ) (b : Balancer) → AreOk b → AreOk (fill_action a now mono b).1
filled-AreOk a now mono b h = record {
  in_slots =
      set_pool-IsOk a (fill_pool a now mono b.outbox (b.slots a)).slots b.slots
        (fill_pool-IsOk a now mono b.outbox (b.slots a) (h.in_slots a)) h.in_slots;
  in_replaced = h.in_replaced;
}

next-AreOk :
    (others : Balancer → Bool × Balancer) (r : Bool) (b : Balancer)
    → ((c : Balancer) → AreOk c → AreOk (others c).1)
    → AreOk b
    → AreOk (fill_next others (r, b)).1
next-AreOk others true b k h = h
next-AreOk others false b k h = k b h

fill_actions-AreOk :
    (bs : List Action) (now mono : ℕ) (b : Balancer)
    → AreOk b
    → AreOk (fill_actions bs now mono b).1
fill_actions-AreOk [] now mono b h = h
fill_actions-AreOk (a ∷ bs) now mono b h =
    next-AreOk (λ c. fill_actions bs now mono c) (fill_action a now mono b).0
      (fill_action a now mono b).1 (λ c k. fill_actions-AreOk bs now mono c k)
      (filled-AreOk a now mono b h)

pub fill_idle-AreOk : (now mono : ℕ) (b : Balancer) → AreOk b → AreOk (fill_idle now mono b).1
unfolding fill_idle
fill_idle-AreOk now mono b h =
    fill_actions-AreOk actions now mono (record b { outbox = swept now b.outbox })
      (record { in_slots = h.in_slots; in_replaced = h.in_replaced })
