-- ===== src/Payments/Once.antt =====
-- An invoice that was paid stays known, whatever payments, months and refunds come.
use yourcastbot.Grants.Start.{plan_of}
use yourcastbot.Payments.{Bank, Payment, is_invoice, last_rowid, patreon}
use yourcastbot.Payments.Apply.{
  Invoice, already_processed, apply_payment, credit, new_payment, plan_sold, written,
}
use yourcastbot.Payments.Patreon.{credit_month}
use yourcastbot.Payments.Refund.{apply_refund, is_charge, is_paid_charge, refund_of, take_back}
use yourcastbot.Prelude.{
  Bool, Bool-cases, List, Option, Option-cases, [], arith, false, inl, inr, none, refl, some, true,
  ℕ, ◌++◌, ◌+◌, ◌∷◌, ◌≡◌,
}
use yourcastbot.Table.{exists_where, find_where, update_where}
use yourcastbot.Table.Append.{exists-append, exists-update}

-- What writes to payment_history, with its arguments.
pub data Event : Type 0 where
  pays : ℕ → Invoice → ℕ → ℕ → Event
  pledges : ℕ → ℕ → ℕ → ℕ → ℕ → ℕ → Event
  takes_back : ℕ → ℕ → Event

abbrev pub run_event : Event → Bank → Bank
run_event (pays u inv period now) b = (apply_payment u inv period now b).1
run_event (pledges u month credit_cents paid_cents day now) b =
    (credit_month u month credit_cents paid_cents day now b).1
run_event (takes_back charge period) b = (apply_refund charge period b).1

abbrev pub run_events : List Event → Bank → Bank
run_events [] b = b
run_events (e ∷ es) b = run_events es (run_event e b)

abbrev is_known : ℕ → ℕ → ℕ → Bank → Bool
is_known u service invoice b = exists_where (is_invoice u service invoice) b.history

-- What an event does to payment_history.
data Written : List Payment → List Payment → Type 0 where
  kept : (ps : List Payment) → Written ps ps
  added :
      (ps : List Payment) (p : Payment)
      → exists_where (is_invoice p.user_id p.service_type p.invoice_id) ps ≡ false
      → Written ps (ps ++ p ∷ [])
  marked : (c : ℕ) (ps : List Payment) → Written ps (update_where (is_charge c) take_back ps)

found_marked :
    (o : Option Payment) (charge period : ℕ) (b : Bank)
    → Written b.history (refund_of o charge period b).1.history
found_marked none charge period b = kept b.history
found_marked (some x) charge period b = elim (Option-cases (plan_of x.user_id b.tables)) [
  | inl n ↦ rw n (marked charge b.history)
  | inr (p, e) ↦ rw e (marked charge b.history)
]

paid_again :
    (u : ℕ) (inv : Invoice) (period now : ℕ) (b : Bank)
    → is_known u inv.service_type inv.invoice_id b ≡ true
    → apply_payment u inv period now b ≡ (already_processed, b)
unfolding apply_payment
paid_again u inv period now b k = rw k refl

pub paid_first :
    (u : ℕ) (inv : Invoice) (period now : ℕ) (b : Bank)
    → is_known u inv.service_type inv.invoice_id b ≡ false
    → apply_payment u inv period now b
      ≡ written u inv now
          (credit (plan_of u b.tables) (plan_sold inv b.tables) u inv period now b.tables)
          b
unfolding apply_payment
paid_first u inv period now b k = rw k refl

pledged_again :
    (u month credit_cents paid_cents day now : ℕ) (b : Bank)
    → is_known u patreon month b ≡ true
    → credit_month u month credit_cents paid_cents day now b ≡ (false, b)
unfolding credit_month
pledged_again u month credit_cents paid_cents day now b k = rw k refl

pledged-Written :
    (u month credit_cents paid_cents day now : ℕ) (b : Bank)
    → is_known u patreon month b ≡ false
    → Written b.history (credit_month u month credit_cents paid_cents day now b).1.history
unfolding credit_month
pledged-Written u month credit_cents paid_cents day now b k = rw k (added b.history _ k)

event-Written : (e : Event) (b : Bank) → Written b.history (run_event e b).history
unfolding apply_refund
event-Written (pays u inv period now) b =
    elim (Bool-cases (is_known u inv.service_type inv.invoice_id b)) [
      | inl k ↦ rw (run_event, paid_again u inv period now b k) (kept b.history)
      | inr k ↦ rw (run_event, paid_first u inv period now b k) (added b.history _ k)
    ]
event-Written (pledges u month credit_cents paid_cents day now) b =
    elim (Bool-cases (is_known u patreon month b)) [
      | inl k ↦
          rw (run_event, pledged_again u month credit_cents paid_cents day now b k) (kept b.history)
      | inr k ↦ pledged-Written u month credit_cents paid_cents day now b k
    ]
event-Written (takes_back charge period) b =
    found_marked (find_where (is_paid_charge charge) b.history) charge period b

written_known :
    (v t j : ℕ) (ps qs : List Payment)
    → Written ps qs
    → exists_where (is_invoice v t j) ps ≡ true
    → exists_where (is_invoice v t j) qs ≡ true
written_known v t j _ _ (kept ps) c = c
written_known v t j _ _ (added ps p n) c = rw (exists-append (is_invoice v t j) ps p, c) refl
written_known v t j _ _ (marked k ps) c =
    rw (exists-update (is_charge k) (is_invoice v t j) take_back (λ r h. refl) ps) c

runs_known :
    (u service invoice : ℕ) (es : List Event) (b : Bank)
    → is_known u service invoice b ≡ true
    → is_known u service invoice (run_events es b) ≡ true
runs_known u service invoice [] b k = k
runs_known u service invoice (e ∷ es) b k =
    runs_known u service invoice es (run_event e b)
      (written_known u service invoice _ _ (event-Written e b) k)

paid_known :
    (u : ℕ) (inv : Invoice) (period now : ℕ) (b : Bank)
    → is_known u inv.service_type inv.invoice_id (apply_payment u inv period now b).1 ≡ true
paid_known u inv period now b = elim (Bool-cases (is_known u inv.service_type inv.invoice_id b)) [
  | inl k ↦ rw (paid_again u inv period now b k) k
  | inr k ↦
      let i : ℕ = last_rowid b.history + 1 in
      rw
        (
          paid_first u inv period now b k,
          exists-append (is_invoice u inv.service_type inv.invoice_id) b.history
              (new_payment u inv i),
          k,
        )
        (ground arith)
]

abbrev IsRepeat : Invoice → Invoice → Type 0
IsRepeat a b = (a.service_type ≡ b.service_type) × (a.invoice_id ≡ b.invoice_id)

-- An invoice that a user paid is credited once: whatever payments, Patreon months and refunds come
-- after it, the same service's invoice of the same id is answered as processed, and changes nothing,
-- even with another amount or plan.
pub apply_payment_again :
    (u : ℕ) (inv other : Invoice) (period now later : ℕ) (es : List Event) (b : Bank)
    → IsRepeat other inv
    → apply_payment u other period later (run_events es (apply_payment u inv period now b).1)
      ≡ (already_processed, run_events es (apply_payment u inv period now b).1)
apply_payment_again u inv other period now later es b (t, j) = paid_again u other period later _ (
    rw (t, j)
      (runs_known u inv.service_type inv.invoice_id es (apply_payment u inv period now b).1
        (paid_known u inv period now b)))

pledged_known :
    (u month credit_cents paid_cents day now : ℕ) (b : Bank)
    → is_known u patreon month (credit_month u month credit_cents paid_cents day now b).1 ≡ true
unfolding credit_month
pledged_known u month credit_cents paid_cents day now b =
    elim (Bool-cases (is_known u patreon month b)) [
      | inl k ↦ rw k k
      | inr k ↦ rw (k, exists-append (is_invoice u patreon month) b.history _, k) (ground arith)
    ]

-- A month of a Patreon pledge is credited once: whatever payments, Patreon months and refunds come after
-- it, crediting the same user's month again answers that nothing was credited, and changes nothing,
-- even with another amount.
pub credit_month_again :
    (u month credit_cents paid_cents day now c p d later : ℕ) (es : List Event) (b : Bank)
    → let t = run_events es (credit_month u month credit_cents paid_cents day now b).1 in
      credit_month u month c p d later t ≡ (false, t)
credit_month_again u month credit_cents paid_cents day now c p d later es b =
    pledged_again u month c p d later _ (
      runs_known u patreon month es (credit_month u month credit_cents paid_cents day now b).1
        (pledged_known u month credit_cents paid_cents day now b))
