-- ===== src/Balancer/Idle.antt =====
-- No worker is idle beside a job that it may do.
use yourcastbot.Balancer.{Filled, all_given, no_more_jobs, slot_idle}
use yourcastbot.Outbox.{Action, Outbox, Row, connect}
use yourcastbot.Outbox.Order.{CanClaim}
use yourcastbot.Prelude.{All, Member, false, ℕ, ◌≡◌}

abbrev pub NoneLeft : Action → ℕ → Outbox → Type 0
NoneLeft a now s = (r : Row) → Member r (connect s).rows → ¬ (CanClaim now a (connect s).rows r)

-- How a pass over the workers of an action ends, unless it raises.
pub record Served (a : Action) (now : ℕ) (f : Filled) : Type 0 where
  pub all_busy : f.flow ≡ all_given → All (λ x. slot_idle x ≡ false) f.slots
  pub none_waits : f.flow ≡ no_more_jobs → NoneLeft a now f.outbox
