-- ===== src/Outbox/Tests.antt =====
-- Runs of the queue on small tables, and the theorems at concrete inputs.
use yourcastbot.Outbox.{
  Outbox, Params, Row, channel, chat, circle, connect, done, leased, pending, rec,
}
use yourcastbot.Outbox.Claim.{
  Claimed, chosen, claim, claim_order, no_job, older, some_job, take_lease,
}
use yourcastbot.Outbox.Claims.{Leased, claim_idle, claim_job}
use yourcastbot.Outbox.Click.{enqueue_user_rec}
use yourcastbot.Outbox.Dedupe.{Tapped, tap, tap-Tapped}
use yourcastbot.Outbox.Fencing.{stale_worker}
use yourcastbot.Outbox.Finish.{fail_or_retry, mark_done, skipped}
use yourcastbot.Outbox.Lease.{give_back, reclaim, touch}
use yourcastbot.Outbox.Order.{CanClaim}
use yourcastbot.Outbox.Queue.{is_circle_for}
use yourcastbot.Outbox.Recovery.{is_leased_row, restart_recovers}
use yourcastbot.Outbox.Safety.Ops.{Sound}
use yourcastbot.Outbox.Safety.Runs.{run_all-Sound}
use yourcastbot.Outbox.Steps.{
  claim_op, clear_in_flight, crash, done_op, fail_op, reclaim_op, run_all,
}
use yourcastbot.Outbox.Terminal.Ops.{Moves}
use yourcastbot.Outbox.Terminal.Runs.{run_all-Moves}
use yourcastbot.Prelude.{All, Member, [], arith, false, inl, inr, none, refl, some, true, ◌∷◌, ◌≡◌}
use yourcastbot.Table.{count_where}

abbrev params : Params
params = record {
  link = some "https://cdn/e9.mp3";
  record_uniq_id = some 9;
  chat_ids = (7, 1) ∷ (8, 1) ∷ [];
  utglangs = (7, "en") ∷ [];
  bitratestg = [];
}

-- A click of chat 7 that waits.
abbrev click : Row
click = record {
  id = 1;
  created_at = some 100;
  action = rec;
  user_id = chat 7;
  payload = some params;
  status = pending;
  attempts = 0;
  leased_until = none;
  available_at = 100;
}

-- A circle job of channel 3 from before the split, on its second attempt.
abbrev circle_row : Row
circle_row = record {
  id = 2;
  created_at = some 90;
  action = rec;
  user_id = channel 3;
  payload = some params;
  status = leased;
  attempts = 2;
  leased_until = some 400;
  available_at = 90;
}

abbrev circle_split : Row
circle_split = record circle_row { action = circle }

abbrev sent : Row
sent = record {
  id = 3;
  created_at = some 50;
  action = rec;
  user_id = chat 8;
  payload = some params;
  status = done;
  attempts = 1;
  leased_until = none;
  available_at = 50;
}

abbrev box : Outbox
box = record { rows = click ∷ circle_row ∷ sent ∷ []; in_flight = (2, 30) ∷ [] }

box-Sound : Sound box
box-Sound = record {
  up_to_date = (refl, (refl, (refl, tt)));
  unique = λ i. ground arith;
  exclusive = λ u a. ground arith;
  bounded = omega arith;
}

abbrev claimed : Claimed
claimed = record { outbox_id = 1; attempts = 1; action = rec; user_id = chat 7; params = params }

abbrev after_claim : Outbox
after_claim = record {
  rows = take_lease 1 500 click ∷ circle_split ∷ sent ∷ [];
  in_flight = (1, 60) ∷ (2, 30) ∷ [];
}

claim_click : claim none (some rec) 200 60 box ≡ (some_job claimed, after_claim)
unfolding claim connect chosen claim_order older
claim_click = refl

-- The circle's worker is busy with channel 3, and nothing else is of the circle.
claim_no_circle : (claim none (some circle) 200 60 box).0 ≡ no_job
unfolding claim connect chosen claim_order older
claim_no_circle = refl

run_all-Sound_example :
    Sound
      (run_all (claim_op (some rec) 200 60 ∷ crash ∷ reclaim_op 210 true ∷ done_op 1 none ∷ []) box)
run_all-Sound_example =
    run_all-Sound (claim_op (some rec) 200 60 ∷ crash ∷ reclaim_op 210 true ∷ done_op 1 none ∷ [])
      box box-Sound

run_all-Moves_example :
    Moves box (run_all (claim_op (some rec) 200 60 ∷ fail_op 1 none (some 1) 220 ∷ []) box)
run_all-Moves_example =
    run_all-Moves (claim_op (some rec) 200 60 ∷ fail_op 1 none (some 1) 220 ∷ []) box box-Sound
      (refl, (refl, tt))

claim_job_example : (r : Row) × Leased rec 200 (connect box).rows claimed after_claim r
claim_job_example = claim_job rec 200 60 box after_claim claimed claim_click

claim_idle_example : ¬ (CanClaim 200 circle (connect box).rows click)
unfolding connect
claim_idle_example = claim_idle circle 200 60 box click box-Sound claim_no_circle (inl refl)

in_box : Member circle_split (connect box).rows
unfolding connect
in_box = inr (inl refl)

stale_worker_example :
    (mark_done 2 (some 1) box ≡ connect box)
    × (touch (some 2) (some 1) 200 60 box ≡ (0, connect box))
    × (fail_or_retry 2 none (some 1) 200 box ≡ (skipped, connect box))
stale_worker_example = stale_worker box box-Sound circle_split in_box 1 (omega arith) none 200 60

tap-Tapped_example :
    Tapped 8 9 box (enqueue_user_rec (tap 8 9 params) 300 box)
    × All (λ r. is_circle_for 8 9 r ≡ false) (enqueue_user_rec (tap 8 9 params) 300 box).1.rows
tap-Tapped_example = tap-Tapped 8 9 300 params box

restart_recovers_example :
    let t = (reclaim 600 true (clear_in_flight box)).1 in
    (count_where is_leased_row t.rows ≡ 0)
    × ((r : Row) → Member r (connect box).rows → r.status ≡ leased → Member (give_back r) t.rows)
restart_recovers_example = restart_recovers 600 box
