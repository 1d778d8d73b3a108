-- ===== src/Balancer/Runs.antt =====
-- The workers under every step of the balancer and of its threads.
use yourcastbot.Balancer.{Balancer, Message, Slot, drain, leftover, stalled, unknown_action}
use yourcastbot.Balancer.Slots.{
  AreOk, HasNoQueue, IsOk, die-IsOk, fill_idle-AreOk, free, given, rest-IsOk, set_pool-IsOk,
  take-IsOk, update_at-All, working,
}
use yourcastbot.Balancer.Steps.{
  Step, beats, die, dies, dispatch, ends, fresh, heartbeat_once, is_stuck, job_of, late_ends, nth,
  on_slot, receive, replace_stalled, rest, restore, restores, settled, step, steps, take, takes,
  turn, turns, update_at,
}
use yourcastbot.Outbox.{Action, circle, rec, update}
use yourcastbot.Outbox.Claim.{Claimed}
use yourcastbot.Outbox.Finish.{SendError}
use yourcastbot.Prelude.{
  All, Bool, Bool-cases, List, Option, [], arith, false, if◌then◌else◌, inl, inr, none, refl, some,
  true, ℕ, ◌++◌, ◌∷◌, ◌≡◌,
}
use yourcastbot.Table.{select_where}
use yourcastbot.Table.Laws.{All-update}

stuck_no_queue :
    (ids : List ℕ) (xs : List Slot) → All IsOk xs → All HasNoQueue (select_where (is_stuck ids) xs)
stuck_no_queue ids [] h = tt
stuck_no_queue ids (x ∷ xs) h = elim (Bool-cases (is_stuck ids x)) [
  | inl y ↦ rw (y, if◌then◌else◌) (one x h.0 y, stuck_no_queue ids xs h.1)
  | inr y ↦ rw (y, if◌then◌else◌) (stuck_no_queue ids xs h.1)
]
  where
    one : (x : Slot) → IsOk x → is_stuck ids x ≡ true → HasNoQueue x
    one x (free q j p) y = q
    one x (given c q j p) y = absurd (ground (arith, j))
    one x (working c q j p) y = q

if_fresh-IsOk : (b : Bool) (x : Slot) → IsOk x → IsOk (if b then fresh x else x)
if_fresh-IsOk true x h = free refl refl refl
if_fresh-IsOk false x h = h

All-append : (P : Slot → Type 0) (xs ys : List Slot) → All P xs → All P ys → All P (xs ++ ys)
All-append P [] ys h k = k
All-append P (x ∷ xs) ys h k = (h.0, All-append P xs ys h.1 k)

replace-AreOk : (ids : List ℕ) (b : Balancer) → AreOk b → AreOk (replace_stalled ids b)
unfolding replace_stalled
replace-AreOk ids b h = record {
  in_slots = λ a.
      All-update (is_stuck ids) fresh IsOk (λ x k. if_fresh-IsOk (is_stuck ids x) x k) (b.slots a)
        (h.in_slots a);
  in_replaced = All-append HasNoQueue b.replaced _ h.in_replaced (
      All-append HasNoQueue (select_where (is_stuck ids) (b.slots rec)) _
        (stuck_no_queue ids (b.slots rec) (h.in_slots rec))
        (All-append HasNoQueue (select_where (is_stuck ids) (b.slots circle)) _
          (stuck_no_queue ids (b.slots circle) (h.in_slots circle))
          (stuck_no_queue ids (b.slots update) (h.in_slots update))));
}

dispatch-AreOk :
    (m : Message) (now mono : ℕ) (b : Balancer) → AreOk b → AreOk (dispatch m now mono b)
unfolding dispatch
dispatch-AreOk drain now mono b h = fill_idle-AreOk now mono b h
dispatch-AreOk (stalled ids) now mono b h =
    fill_idle-AreOk now mono (replace_stalled ids b) (replace-AreOk ids b h)
dispatch-AreOk (leftover a) now mono b h = fill_idle-AreOk now mono b h
dispatch-AreOk (unknown_action i) now mono b h = h

receive-AreOk :
    (q : List Message) (now mono : ℕ) (b : Balancer) → AreOk b → AreOk (receive q now mono b)
receive-AreOk [] now mono b h = fill_idle-AreOk now mono b h
receive-AreOk (m ∷ ms) now mono b h =
    dispatch-AreOk m now mono (record b { main_queue = ms })
      (record { in_slots = h.in_slots; in_replaced = h.in_replaced })

on_slot-AreOk :
    (a : Action) (i : ℕ) (f : Slot → Slot) (b : Balancer)
    → ((x : Slot) → IsOk x → IsOk (f x))
    → AreOk b
    → AreOk (on_slot a i f b)
on_slot-AreOk a i f b k h = record {
  in_slots =
      set_pool-IsOk a (update_at i f (b.slots a)) b.slots
        (update_at-All IsOk f k i (b.slots a) (h.in_slots a)) h.in_slots;
  in_replaced = h.in_replaced;
}

settled-AreOk :
    (c : Option Claimed) (x : Option Slot) (e : Option SendError) (now : ℕ) (b : Balancer)
    → AreOk b
    → AreOk (settled c x e now b)
settled-AreOk none x e now b h = h
settled-AreOk (some c) x e now b h = record { in_slots = h.in_slots; in_replaced = h.in_replaced }

step-AreOk : (x : Step) (b : Balancer) → AreOk b → AreOk (step x b)
unfolding step turn restore heartbeat_once
step-AreOk (turns now mono) b h = receive-AreOk b.main_queue now mono b h
step-AreOk (restores now mono) b h =
    fill_idle-AreOk now mono _ (record { in_slots = h.in_slots; in_replaced = h.in_replaced })
step-AreOk (beats now mono) b h = record { in_slots = h.in_slots; in_replaced = h.in_replaced }
step-AreOk (takes a i) b h = on_slot-AreOk a i take b take-IsOk h
step-AreOk (ends a i e now) b h =
    let x : Option Slot = nth i (b.slots a) in
    on_slot-AreOk a i rest (settled (job_of x) x e now b) rest-IsOk
      (settled-AreOk (job_of x) x e now b h)
step-AreOk (late_ends i e now) b h =
    let x : Option Slot = nth i b.replaced in
    let k : AreOk (settled (job_of x) x e now b) = settled-AreOk (job_of x) x e now b h in
    record {
      in_slots = k.in_slots;
      in_replaced = update_at-All HasNoQueue rest (λ y q. q) i b.replaced h.in_replaced;
    }
step-AreOk (dies a i) b h = on_slot-AreOk a i die b die-IsOk h

-- A worker has one job at most, waiting or at work, and none while it is idle: so after any sequence of
-- turns, starts, heartbeats and of threads that take a job, end it or die. A thread that is replaced,
-- because its job is stuck, leaves no other job behind.
pub steps-AreOk : (xs : List Step) (b : Balancer) → AreOk b → AreOk (steps xs b)
unfolding steps
steps-AreOk [] b h = h
steps-AreOk (x ∷ xs) b h = steps-AreOk xs (step x b) (step-AreOk x b h)
