-- ===== src/Balancer/Steps.antt =====
-- The rest of the balancer and of its threads: `_dispatch`, `_replace_stalled`, `_heartbeat_once`, the
-- start of `run`, and the loop of a RecordSender.
use yourcastbot.Balancer.{
  Balancer, Message, Slot, drain, fill_idle, has_none, leftover, new_sender, set_pool, stalled,
  unknown_action,
}
use yourcastbot.Outbox.{Action, Outbox, circle, rec, update}
use yourcastbot.Outbox.Claim.{Claimed}
use yourcastbot.Outbox.Finish.{SendError, fail_or_retry, mark_done}
use yourcastbot.Outbox.Lease.{fail_exhausted, heartbeat, reclaim, release_stalled}
use yourcastbot.Prelude.{
  Bool, List, Option, [], false, if◌then◌else◌, is_some, none, some, suc, true, zero, ℕ, ◌&&◌, ◌++◌,
  ◌==◌, ◌||◌, ◌∷◌,
}
use yourcastbot.Table.{select_where, update_where}

abbrev pub is_among : ℕ → List ℕ → Bool
is_among i [] = false
is_among i (j ∷ l) = j == i || is_among i l

abbrev pub works_on : List ℕ → Option Claimed → Bool
works_on ids none = false
works_on ids (some c) = is_among c.outbox_id ids

abbrev pub is_stuck : List ℕ → Slot → Bool
is_stuck ids x = works_on ids x.job

abbrev pub fresh : Slot → Slot
fresh x = new_sender []

-- `_replace_stalled`
unfoldable pub replace_stalled : List ℕ → Balancer → Balancer
replace_stalled ids b = record b {
  slots = λ a. update_where (is_stuck ids) fresh (b.slots a);
  replaced =
      b.replaced
      ++ (select_where (is_stuck ids) (b.slots rec)
          ++ (select_where (is_stuck ids) (b.slots circle)
              ++ select_where (is_stuck ids) (b.slots update)));
}

-- `_dispatch`
unfoldable pub dispatch : Message → ℕ → ℕ → Balancer → Balancer
dispatch drain now mono b = (fill_idle now mono b).1
dispatch (stalled ids) now mono b = (fill_idle now mono (replace_stalled ids b)).1
dispatch (leftover a) now mono b = (fill_idle now mono b).1
dispatch (unknown_action i) now mono b = b

abbrev pub receive : List Message → ℕ → ℕ → Balancer → Balancer
receive [] now mono b = (fill_idle now mono b).1
receive (m ∷ ms) now mono b = dispatch m now mono (record b { main_queue = ms })

-- A turn of the loop of `run`: a message, or the time that ran out.
unfoldable pub turn : ℕ → ℕ → Balancer → Balancer
turn now mono b = receive b.main_queue now mono b

-- What `run` does before its loop.
unfoldable pub restore : ℕ → ℕ → Balancer → Balancer
restore now mono b =
    (fill_idle now mono (record b { outbox = (fail_exhausted (reclaim now true b.outbox).1).1 })).1

abbrev pub told : List ℕ → List Message → List Message
told [] q = q
told (i ∷ is) q = q ++ stalled (i ∷ is) ∷ []

-- `_heartbeat_once`
unfoldable pub heartbeat_once : ℕ → ℕ → Balancer → Balancer
heartbeat_once now mono b =
    let (ids, s) = release_stalled mono b.outbox in
    record b { outbox = (heartbeat now mono s).1; main_queue = told ids b.main_queue }

-- A thread gets a job of its queue, if it works on none.
abbrev pub get_job : List Claimed → Option Claimed → Slot → Slot
get_job (c ∷ cs) none x = record x { queue = cs; job = some c }
get_job _ _ x = x

abbrev pub take : Slot → Slot
take x = get_job x.queue x.job x

abbrev pub ended : Option SendError → Claimed → ℕ → Outbox → Outbox
ended none c now s = mark_done c.outbox_id (some c.attempts) s
ended (some e) c now s = (fail_or_retry c.outbox_id (some e) (some c.attempts) now s).1

-- The `finally` of the loop.
abbrev pub rest : Slot → Slot
rest x = record x { job = none; paused = x.paused || has_none x.queue }

-- A thread that works on no job dies.
abbrev pub die : Slot → Slot
die x = record x { is_alive = x.is_alive && is_some x.job }

abbrev pub update_at : ℕ → (Slot → Slot) → List Slot → List Slot
update_at i f [] = []
update_at zero f (x ∷ xs) = f x ∷ xs
update_at (suc i) f (x ∷ xs) = x ∷ update_at i f xs

abbrev pub on_slot : Action → ℕ → (Slot → Slot) → Balancer → Balancer
on_slot a i f b = record b { slots = set_pool a (update_at i f (b.slots a)) b.slots }

abbrev pub nth : ℕ → List Slot → Option Slot
nth i [] = none
nth zero (x ∷ xs) = some x
nth (suc i) (x ∷ xs) = nth i xs

abbrev pub job_of : Option Slot → Option Claimed
job_of none = none
job_of (some x) = x.job

-- An idle thread nudges the balancer.
abbrev pub nudged : Option Slot → List Message → List Message
nudged none q = q
nudged (some x) q = if has_none x.queue then q ++ drain ∷ [] else q

abbrev pub settled : Option Claimed → Option Slot → Option SendError → ℕ → Balancer → Balancer
settled none x e now b = b
settled (some c) x e now b = record b {
  outbox = ended e c now b.outbox;
  main_queue = nudged x b.main_queue;
}

-- `process_input` ends, with an error or none.
abbrev pub finish_job : Action → ℕ → Option SendError → ℕ → Balancer → Balancer
finish_job a i e now b =
    let x : Option Slot = nth i (b.slots a) in on_slot a i rest (settled (job_of x) x e now b)

-- The same in a thread that was replaced.
abbrev pub finish_late : ℕ → Option SendError → ℕ → Balancer → Balancer
finish_late i e now b =
    let x : Option Slot = nth i b.replaced in
    record (settled (job_of x) x e now b) { replaced = update_at i rest b.replaced }

-- What can happen: a turn, a start, a heartbeat, a thread that takes a job, that ends it, that dies.
pub data Step : Type 0 where
  turns : ℕ → ℕ → Step
  restores : ℕ → ℕ → Step
  beats : ℕ → ℕ → Step
  takes : Action → ℕ → Step
  ends : Action → ℕ → Option SendError → ℕ → Step
  late_ends : ℕ → Option SendError → ℕ → Step
  dies : Action → ℕ → Step

unfoldable pub step : Step → Balancer → Balancer
step (turns now mono) b = turn now mono b
step (restores now mono) b = restore now mono b
step (beats now mono) b = heartbeat_once now mono b
step (takes a i) b = on_slot a i take b
step (ends a i e now) b = finish_job a i e now b
step (late_ends i e now) b = finish_late i e now b
step (dies a i) b = on_slot a i die b

unfoldable pub steps : List Step → Balancer → Balancer
steps [] b = b
steps (x ∷ xs) b = steps xs (step x b)
