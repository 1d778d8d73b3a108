-- ===== src/Balancer.antt =====
-- app/core/balancers/recordSender.py: the threads that send, and the balancer that claims jobs of the
-- outbox for them. A method runs at one time, with `mono` the monotonic clock.
pub mod Steps
pub mod Slots
pub mod Runs
pub mod Idle
mod Tests
use yourcastbot.Outbox.{Action, Outbox, action_eq, circle, rec, update}
use yourcastbot.Outbox.Claim.{ClaimResult, Claimed, bad_job, claim, no_job, some_job}
use yourcastbot.Outbox.Lease.{fail_exhausted, reclaim}
use yourcastbot.Prelude.{
  Bool, List, Option, [], false, if◌then◌else◌, none, some, true, ℕ, ◌&&◌, ◌++◌, ◌∷◌,
}

-- A RecordSender with its queue; `job` is what it works on, whose id is `current_outbox_id`.
pub record Slot : Type 0 where
  pub queue : List Claimed
  pub job : Option Claimed
  pub paused : Bool
  pub is_alive : Bool

pub data Message : Type 0 where
  drain : Message
  stalled : List ℕ → Message
  -- A leftover of `rec`, `circle` or `update`.
  leftover : Action → Message
  unknown_action : ℕ → Message

-- `threads` and `queues`; the threads that were replaced go on with their old queues.
pub record Balancer : Type 0 where
  pub slots : Action → List Slot
  pub replaced : List Slot
  pub main_queue : List Message
  pub outbox : Outbox

abbrev pub actions : List Action
actions = rec ∷ circle ∷ update ∷ []

abbrev pub has_none : List Claimed → Bool
has_none [] = true
has_none (c ∷ cs) = false

-- `_slot_idle`
abbrev pub slot_idle : Slot → Bool
slot_idle x = has_none x.queue && x.paused

-- A thread that starts on a queue.
abbrev pub new_sender : List Claimed → Slot
new_sender q = record { queue = q; job = none; paused = true; is_alive = true }

abbrev pub ensure_sender_alive : Slot → Slot
ensure_sender_alive x = if x.is_alive then x else new_sender x.queue

-- `resume`, and the job into the queue.
abbrev pub give : Claimed → Slot → Slot
give c x = record x { paused = false; queue = x.queue ++ c ∷ [] }

-- How the pass over the idle workers of an action goes.
pub data Flow : Type 0 where
  -- No worker of the action is idle any more.
  all_given : Flow
  no_more_jobs : Flow
  raised : Flow

pub record Filled : Type 0 where
  pub flow : Flow
  pub outbox : Outbox
  pub slots : List Slot

abbrev pub keep : Slot → Filled → Filled
keep x f = record f { slots = x ∷ f.slots }

abbrev pub hand_to : (Outbox → Filled) → Slot → List Slot → ClaimResult × Outbox → Filled
hand_to others x xs (no_job, s) = record { flow = no_more_jobs; outbox = s; slots = x ∷ xs }
hand_to others x xs (bad_job, s) = record { flow = raised; outbox = s; slots = x ∷ xs }
hand_to others x xs (some_job c, s) = keep (give c (ensure_sender_alive x)) (others s)

abbrev pub fill_slot :
    Bool → (Outbox → Filled) → Action → ℕ → ℕ → Outbox → Slot → List Slot → Filled
fill_slot false others a now mono s x xs = keep x (others s)
fill_slot true others a now mono s x xs = hand_to others x xs (claim none (some a) now mono s)

-- The loop over the idle workers of an action.
unfoldable pub fill_pool : Action → ℕ → ℕ → Outbox → List Slot → Filled
fill_pool a now mono s [] = record { flow = all_given; outbox = s; slots = [] }
fill_pool a now mono s (x ∷ xs) =
    fill_slot (slot_idle x) (λ t. fill_pool a now mono t xs) a now mono s x xs

abbrev pub set_pool : Action → List Slot → (Action → List Slot) → Action → List Slot
set_pool a xs slots b = if action_eq b a then xs else slots b

abbrev pub filled : Action → Filled → Balancer → Balancer
filled a f b = record b { slots = set_pool a f.slots b.slots; outbox = f.outbox }

abbrev pub is_raised : Flow → Bool
is_raised raised = true
is_raised _ = false

abbrev pub fill_action : Action → ℕ → ℕ → Balancer → Bool × Balancer
fill_action a now mono b =
    let f : Filled = fill_pool a now mono b.outbox (b.slots a) in (is_raised f.flow, filled a f b)

abbrev pub fill_next : (Balancer → Bool × Balancer) → Bool × Balancer → Bool × Balancer
fill_next others (true, b) = (true, b)
fill_next others (false, b) = others b

abbrev pub fill_actions : List Action → ℕ → ℕ → Balancer → Bool × Balancer
fill_actions [] now mono b = (false, b)
fill_actions (a ∷ bs) now mono b =
    fill_next (λ c. fill_actions bs now mono c) (fill_action a now mono b)

abbrev pub swept : ℕ → Outbox → Outbox
swept now s = (fail_exhausted (reclaim now false s).1).1

-- `_fill_idle`; first whether it raised.
unfoldable pub fill_idle : ℕ → ℕ → Balancer → Bool × Balancer
fill_idle now mono b = fill_actions actions now mono (record b { outbox = swept now b.outbox })
