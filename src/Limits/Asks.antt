-- ===== src/Limits/Asks.antt =====
-- A chat's questions over time.
use native.Mathlib.Nat.{le_trans}
use yourcastbot.Limits.AiQuota.{left_month, left_today, questions, quota_seconds}
use yourcastbot.Plan.{Entitlements}
use yourcastbot.Prelude.{Bool, List, [], arith, false, refl, true, ℕ, ◌++◌, ◌+◌, ◌<◌, ◌∷◌, ◌≡◌, ◌≤◌}
use yourcastbot.Table.{count_where}
use yourcastbot.Table.Laws.{count-le}
use yourcastbot.Usage.{Event, ask, count_since, is_counted, paid_event, record_cost}

-- A question that is allowed is answered and put in the ledger.
abbrev pub asked : Bool → ℕ → ℕ → ℕ → ℕ → List Event → List Event
asked true u x cost now es = record_cost ask u x cost now es
asked false u x cost now es = es

-- The time, the episode and the cost of a question.
pub record Question : Type 0 where
  pub at : ℕ
  pub ref : ℕ
  pub cost : ℕ

abbrev pub ask_step : Entitlements → ℕ → Question → List Event → List Event
ask_step rights u q es = asked (questions rights u q.at es).is_allowed u q.ref q.cost q.at es

abbrev pub ask_all : Entitlements → ℕ → List Question → List Event → List Event
ask_all rights u [] es = es
ask_all rights u (q ∷ qs) es = ask_all rights u qs (ask_step rights u q es)

abbrev pub IsTimed : ℕ → List Question → ℕ → Type 0
IsTimed start [] stop = start ≤ stop
IsTimed start (q ∷ qs) stop = (start ≤ q.at) × IsTimed q.at qs stop

-- The counts of the last 24 hours and of the last 30 days, where the profile limits these.
pub record IsUnder (rights : Entitlements) (u now : ℕ) (es : List Event) : Type 0 where
  pub day : count_since u ask 86400 now es ≤ rights.features.ai_questions_day
  pub month :
      0 < rights.features.ai_questions_month
      → count_since u ask quota_seconds now es ≤ rights.features.ai_questions_month

later-count :
    (u window now later : ℕ) (es : List Event)
    → now ≤ later
    → count_since u ask window later es ≤ count_since u ask window now es
later-count u window now later es l =
    count-le (is_counted u ask window later) (is_counted u ask window now) (λ e h. ground arith) es

later-IsUnder :
    (rights : Entitlements) (u now later : ℕ) (es : List Event)
    → now ≤ later
    → IsUnder rights u now es
    → IsUnder rights u later es
later-IsUnder rights u now later es l h = record {
  day = le_trans (later-count u 86400 now later es l) h.day;
  month = λ k. le_trans (later-count u quota_seconds now later es l) (h.month k);
}

count-append :
    (p : Event → Bool) (es : List Event) (e : Event)
    → count_where p (es ++ e ∷ []) ≤ count_where p es + 1
count-append p [] e = ground arith
count-append p (x ∷ xs) e = ground (arith, count-append p xs e)

-- What `questions` leaves when it allows one.
allowed-left :
    (rights : Entitlements) (u now : ℕ) (es : List Event)
    → (questions rights u now es).is_allowed ≡ true
    → (0 < left_today rights u now es)
      × (0 < rights.features.ai_questions_month → 0 < left_month rights u now es)
unfolding questions
allowed-left rights u now es h = ground arith

asked-IsUnder :
    (rights : Entitlements) (u : ℕ) (q : Question) (es : List Event) (b : Bool)
    → (questions rights u q.at es).is_allowed ≡ b
    → IsUnder rights u q.at es
    → IsUnder rights u q.at (asked b u q.ref q.cost q.at es)
asked-IsUnder rights u q es false e h = h
asked-IsUnder rights u q es true e h =
    let (a, b) = allowed-left rights u q.at es e in
    let event = paid_event ask u q.ref q.cost q.at in
    let c = count-append (is_counted u ask 86400 q.at) es event in
    let d = count-append (is_counted u ask quota_seconds q.at) es event in
    record { day = omega arith; month = λ k. let g = b k in omega arith }

-- Through any sequence of a chat's questions, the answered ones of the last 24 hours stay within the
-- profile's number for a day, and those of the last 30 days within its number for a month, where it
-- has one, if they are so at the start.
pub ask_all-IsUnder :
    (rights : Entitlements) (u start stop : ℕ) (qs : List Question) (es : List Event)
    → IsTimed start qs stop
    → IsUnder rights u start es
    → IsUnder rights u stop (ask_all rights u qs es)
ask_all-IsUnder rights u start stop [] es l h = later-IsUnder rights u start stop es l h
ask_all-IsUnder rights u start stop (q ∷ qs) es l h =
    ask_all-IsUnder rights u q.at stop qs (ask_step rights u q es) l.1
      (asked-IsUnder rights u q es _ refl (later-IsUnder rights u start q.at es l.0 h))
