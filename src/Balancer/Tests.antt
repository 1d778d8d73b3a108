-- ===== src/Balancer/Tests.antt =====
-- Two workers for clicks, and one click that waits.
use yourcastbot.Balancer.{Balancer, Slot, drain, fill_idle, fill_pool, new_sender}
use yourcastbot.Balancer.Runs.{steps-AreOk}
use yourcastbot.Balancer.Slots.{AreOk, IsOk, free}
use yourcastbot.Balancer.Steps.{Step, beats, dispatch, ends, step, steps, takes, turn, turns}
use yourcastbot.Outbox.{Action, Outbox, Params, Row, chat, circle, connect, pending, rec, update}
use yourcastbot.Outbox.Claim.{chosen, claim, claim_order, older}
use yourcastbot.Outbox.Lease.{fail_exhausted, reclaim}
use yourcastbot.Prelude.{All, List, [], none, refl, some, ◌∷◌, ◌≡◌}

abbrev params : Params
params = record {
  link = none;
  record_uniq_id = some 4;
  chat_ids = (7, 1) ∷ [];
  utglangs = [];
  bitratestg = [];
}

abbrev click : Row
click = record {
  id = 1;
  created_at = some 100;
  action = rec;
  user_id = chat 7;
  payload = some params;
  status = pending;
  attempts = 0;
  leased_until = none;
  available_at = 100;
}

abbrev box : Outbox
box = record { rows = click ∷ []; in_flight = [] }

abbrev pool : Action → List Slot
pool rec = new_sender [] ∷ new_sender [] ∷ []
pool circle = new_sender [] ∷ []
pool update = []

abbrev balancer : Balancer
balancer = record { slots = pool; replaced = []; main_queue = drain ∷ []; outbox = box }

balancer-AreOk : AreOk balancer
balancer-AreOk = record { in_slots = each; in_replaced = tt }
  where
    each : (a : Action) → All IsOk (pool a)
    each rec = (free refl refl refl, (free refl refl refl, tt))
    each circle = (free refl refl refl, tt)
    each update = tt

abbrev morning : List Step
morning = turns 200 10 ∷ takes rec 0 ∷ beats 230 40 ∷ ends rec 0 none 240 ∷ turns 250 60 ∷ []

steps-AreOk_example : AreOk (steps morning balancer)
steps-AreOk_example = steps-AreOk morning balancer balancer-AreOk

job_given : (steps (turns 200 10 ∷ takes rec 0 ∷ []) balancer).outbox.in_flight ≡ (1, 10) ∷ []
unfolding steps step turn dispatch fill_idle fill_pool fail_exhausted reclaim claim chosen connect
    claim_order older
job_given = refl
