-- ===== src/Limits/AiQuota.antt =====
-- app/service/ai/quota.py: hours of audio, questions and the budget of AI. A dollar is
-- 3,600,000,000 parts, as in the ledger; a cent of price brings 0.95 * 0.7 of a cent.
use yourcastbot.Plan.{Entitlements, is_trial}
use yourcastbot.Prelude.{
  Bool, List, Option, false, if◌then◌else◌, leb, ltb, min, none, not, some, suc, true, zero, ℕ,
  ◌&&◌, ◌*◌, ◌+◌, ◌-◌,
}
use yourcastbot.Usage.{Event, ai_spent_since, ask, count_since}

abbrev pub quota_seconds : ℕ
quota_seconds = 30 * 86400

abbrev pub unknown_seconds : ℕ
unknown_seconds = 3600

-- Of an hour's transcript; a second is a 3,600th of it.
abbrev pub transcribe_rate : Bool → ℕ
transcribe_rate paid_model = if paid_model then 120000 else 20000

abbrev pub ai_call : ℕ
ai_call = 36000000

-- What a cent of the plan's price leaves for AI: payout_share times ai_budget_share.
abbrev pub cent_share : ℕ
cent_share = 23940000

pub record Budget : Type 0 where
  pub limit : ℕ
  pub spent : ℕ

abbrev pub fits : Budget → ℕ → Bool
fits b cost = leb (b.spent + cost) b.limit

abbrev pub budget : Entitlements → ℕ → ℕ → List Event → Option Budget
budget rights u now es =
    if rights.features.ai_budget && ltb 0 rights.price
    then some (record {
      limit = rights.price * cent_share;
      spent = ai_spent_since u quota_seconds now es;
    })
    else none

-- `seconds or UNKNOWN_SECONDS`
abbrev pub known : ℕ → ℕ
known zero = unknown_seconds
known (suc n) = suc n

abbrev pub transcribe_cost : ℕ → Bool → ℕ
transcribe_cost seconds paid_model = known seconds * transcribe_rate paid_model + ai_call

abbrev pub in_budget : Option Budget → ℕ → Bool
in_budget none cost = true
in_budget (some b) cost = fits b cost

-- `paid_transcribe_fits`, with the seconds of the paid model in the last 30 days
unfoldable pub paid_transcribe_fits : Entitlements → ℕ → ℕ → ℕ → ℕ → List Event → Bool
paid_transcribe_fits rights u seconds used now es =
    let limit : ℕ = if rights.features.ai then rights.features.ai_paid_hours * 3600 else 0 in
    ltb 0 limit
    && (leb (used + known seconds) limit
        && in_budget (budget rights u now es) (transcribe_cost seconds true))

pub record Quota : Type 0 where
  pub is_allowed : Bool
  pub limit : ℕ
  pub used : ℕ
  pub needed : ℕ
  pub level : ℕ
  pub is_for_trial : Bool
  pub by_budget : Bool
  pub grant : Option ℕ

abbrev pub hours_limit : Entitlements → ℕ
hours_limit rights = if rights.features.ai then rights.features.ai_hours * 3600 else 0

abbrev pub cost_of : ℕ → ℕ
cost_of zero = ai_call
cost_of (suc n) = transcribe_cost (suc n) false

-- `check`, with the seconds of the requests of the last 30 days
unfoldable pub check : Entitlements → ℕ → ℕ → ℕ → ℕ → List Event → Quota
check rights u needed used now es =
    let ok : Bool = ltb 0 (hours_limit rights) && leb (used + needed) (hours_limit rights) in
    if ok
      && (rights.features.ai_budget && not (in_budget (budget rights u now es) (cost_of needed)))
    then record {
      is_allowed = false;
      limit = hours_limit rights;
      used = used;
      needed = needed;
      level = rights.level;
      is_for_trial = is_trial rights;
      by_budget = true;
      grant = none;
    }
    else record {
      is_allowed = ok;
      limit = hours_limit rights;
      used = used;
      needed = needed;
      level = rights.level;
      is_for_trial = is_trial rights;
      by_budget = false;
      grant = rights.grant;
    }

pub record Questions : Type 0 where
  pub is_allowed : Bool
  pub limit : ℕ
  pub left : ℕ
  pub is_for_trial : Bool
  pub by_budget : Bool
  pub level : ℕ
  pub month_limit : ℕ
  pub grant : Option ℕ

abbrev pub no_questions : Entitlements → Questions
no_questions rights = record {
  is_allowed = false;
  limit = 0;
  left = 0;
  is_for_trial = false;
  by_budget = false;
  level = 0;
  month_limit = 0;
  grant = rights.grant;
}

abbrev pub left_today : Entitlements → ℕ → ℕ → List Event → ℕ
left_today rights u now es = rights.features.ai_questions_day - count_since u ask 86400 now es

abbrev pub left_month : Entitlements → ℕ → ℕ → List Event → ℕ
left_month rights u now es =
    rights.features.ai_questions_month - count_since u ask quota_seconds now es

abbrev pub answer : Entitlements → ℕ → Bool → Bool → ℕ → Questions
answer rights left allowed by_budget month = record {
  is_allowed = allowed;
  limit = rights.features.ai_questions_day;
  left = left;
  is_for_trial = is_trial rights;
  by_budget = by_budget;
  level = rights.level;
  month_limit = month;
  grant = none;
}

abbrev pub asked_budget : Entitlements → ℕ → ℕ → ℕ → List Event → Questions
asked_budget rights u left now es =
    if ltb 0 left && (rights.features.ai_budget && not (in_budget (budget rights u now es) ai_call))
    then answer rights left false true 0
    else answer rights left (ltb 0 left) false 0

-- `questions`
unfoldable pub questions : Entitlements → ℕ → ℕ → List Event → Questions
questions rights u now es =
    let today = left_today rights u now es in
    let left = min today (left_month rights u now es) in
    if rights.features.ai
    then (if ltb 0 today && ltb 0 rights.features.ai_questions_month
        then (if ltb 0 left
            then asked_budget rights u left now es
            else answer rights 0 false false rights.features.ai_questions_month)
        else asked_budget rights u today now es)
    else no_questions rights
