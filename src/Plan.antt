-- ===== src/Plan.antt =====
-- app/service/plan/features.py and entitlements.py: what a plan gives, as a profile of features.
-- The numbers are those of config.py. Hours are whole: the fractions that a grant's own `ai_hours` may
-- have are not modelled. A kind of grant is a number.
use yourcastbot.Prelude.{
  Bool, List, Option, [], false, if◌then◌else◌, ltb, none, or_else, some, suc, true, zero, ℕ, ◌==◌,
  ◌∷◌,
}

pub record Features : Type 0 where
  pub ai : Bool
  pub ai_hours : ℕ
  pub ai_paid_hours : ℕ
  pub ai_questions_day : ℕ
  pub ai_questions_month : ℕ
  pub ai_budget : Bool
  pub clicks : Option ℕ
  pub clicks_hours : ℕ

pub data Profile : Type 0 where
  no_plan : Profile
  trial : Profile
  level_key : ℕ → Profile
  grant_key : ℕ → Profile

-- CHANNELS
abbrev pub channels_kind : ℕ
channels_kind = 0

abbrev pub lookup : List (ℕ × ℕ) → ℕ → ℕ
lookup [] k = 0
lookup ((i, v) ∷ l) k = if i == k then v else lookup l k

abbrev pub has_key : List (ℕ × ℕ) → ℕ → Bool
has_key [] k = false
has_key ((i, v) ∷ l) k = if i == k then true else has_key l k

abbrev pub ai_summary_hours_per_month : List (ℕ × ℕ)
ai_summary_hours_per_month = (1, 5) ∷ (2, 15) ∷ (3, 30) ∷ []

abbrev pub ai_paid_transcribe_hours_per_month : List (ℕ × ℕ)
ai_paid_transcribe_hours_per_month = (1, 2) ∷ (2, 4) ∷ (3, 15) ∷ []

abbrev pub ai_questions_per_day : List (ℕ × ℕ)
ai_questions_per_day = (1, 5) ∷ (2, 10) ∷ (3, 20) ∷ []

abbrev pub ai_questions_per_month : List (ℕ × ℕ)
ai_questions_per_month = (1, 50) ∷ (2, 100) ∷ (3, 200) ∷ []

abbrev pub ai_summary_trial_hours : ℕ
ai_summary_trial_hours = 5

abbrev pub ai_trial_questions_per_day : ℕ
ai_trial_questions_per_day = 5

abbrev pub ai_trial_questions_per_month : ℕ
ai_trial_questions_per_month = 50

abbrev pub free_rec_per_week : ℕ
free_rec_per_week = 10

abbrev pub trial_rec_per_day : ℕ
trial_rec_per_day = 100

abbrev pub week_hours : ℕ
week_hours = 168

abbrev pub day_hours : ℕ
day_hours = 24

-- `_paid_level`
abbrev pub paid_level : ℕ → Features
paid_level level = record {
  ai = ltb 0 (lookup ai_summary_hours_per_month level);
  ai_hours = lookup ai_summary_hours_per_month level;
  ai_paid_hours = lookup ai_paid_transcribe_hours_per_month level;
  ai_questions_day = lookup ai_questions_per_day level;
  ai_questions_month = lookup ai_questions_per_month level;
  ai_budget = true;
  clicks = none;
  clicks_hours = day_hours;
}

-- `_paid_level(None)`
abbrev pub level_without_values : Features
level_without_values = record {
  ai = false;
  ai_hours = 0;
  ai_paid_hours = 0;
  ai_questions_day = 0;
  ai_questions_month = 0;
  ai_budget = true;
  clicks = none;
  clicks_hours = day_hours;
}

abbrev pub no_ai : ℕ → ℕ → Features
no_ai count hours = record {
  ai = false;
  ai_hours = 0;
  ai_paid_hours = 0;
  ai_questions_day = 0;
  ai_questions_month = 0;
  ai_budget = false;
  clicks = some count;
  clicks_hours = hours;
}

-- `defaults()[name]`
abbrev pub defaults : Profile → Option Features
defaults no_plan = some (no_ai free_rec_per_week week_hours)
defaults trial = some (record {
  ai = true;
  ai_hours = ai_summary_trial_hours;
  ai_paid_hours = 0;
  ai_questions_day = ai_trial_questions_per_day;
  ai_questions_month = ai_trial_questions_per_month;
  ai_budget = false;
  clicks = some trial_rec_per_day;
  clicks_hours = day_hours;
})
defaults (grant_key k) =
    if k == channels_kind then some (no_ai trial_rec_per_day day_hours) else none
defaults (level_key n) = if has_key ai_summary_hours_per_month n then some (paid_level n) else none

-- One feature of an edited profile with its value, of the features' types as `clean` leaves them.
pub data Edit : Type 0 where
  edit_ai : Bool → Edit
  edit_ai_hours : ℕ → Edit
  edit_ai_paid_hours : ℕ → Edit
  edit_ai_questions_day : ℕ → Edit
  edit_ai_questions_month : ℕ → Edit
  edit_ai_budget : Bool → Edit
  edit_clicks : Option ℕ → Edit
  edit_clicks_hours : ℕ → Edit

abbrev pub set_feature : Edit → Features → Features
set_feature (edit_ai b) f = record f { ai = b }
set_feature (edit_ai_hours n) f = record f { ai_hours = n }
set_feature (edit_ai_paid_hours n) f = record f { ai_paid_hours = n }
set_feature (edit_ai_questions_day n) f = record f { ai_questions_day = n }
set_feature (edit_ai_questions_month n) f = record f { ai_questions_month = n }
set_feature (edit_ai_budget b) f = record f { ai_budget = b }
set_feature (edit_clicks n) f = record f { clicks = n }
set_feature (edit_clicks_hours n) f = record f { clicks_hours = n }

abbrev pub set_features : List Edit → Features → Features
set_features [] f = f
set_features (e ∷ es) f = set_features es (set_feature e f)

abbrev pub profile_eq : Profile → Profile → Bool
profile_eq no_plan no_plan = true
profile_eq trial trial = true
profile_eq (level_key a) (level_key b) = a == b
profile_eq (grant_key a) (grant_key b) = a == b
profile_eq _ _ = false

abbrev pub edits_of : Profile → List (Profile × List Edit) → List Edit
edits_of p [] = []
edits_of p ((q, es) ∷ l) = if profile_eq q p then es else edits_of p l

abbrev pub edit_all : List Edit → Option Features → Option Features
edit_all es none = none
edit_all es (some f) = some (set_features es f)

-- `merged(edits)[name]`: known profiles only.
abbrev pub merged : List (Profile × List Edit) → Profile → Option Features
merged edits p = edit_all (edits_of p edits) (defaults p)

abbrev pub fallback : List (Profile × List Edit) → Profile → Features
fallback edits (level_key n) = level_without_values
fallback edits p = or_else (merged edits no_plan) (no_ai free_rec_per_week week_hours)

-- `profile(name)`
unfoldable pub profile : List (Profile × List Edit) → Profile → Features
profile edits p = or_else (merged edits p) (fallback edits p)

pub record Entitlements : Type 0 where
  pub level : ℕ
  pub price : ℕ
  pub is_paid : Bool
  pub name : Profile
  pub features : Features
  pub grant : Option ℕ

abbrev pub is_running : Entitlements → Bool
is_running e = ltb 0 e.level

abbrev pub is_trial : Entitlements → Bool
is_trial e = profile_eq e.name trial

abbrev pub purchase_level : Entitlements → ℕ
purchase_level e = elim e.grant [ none ↦ e.level | some _ ↦ 0 ]

abbrev pub name_of : ℕ → Bool → Option ℕ → Profile
name_of zero paid grant = no_plan
name_of (suc n) paid (some k) = grant_key k
name_of (suc n) true none = level_key (suc n)
name_of (suc n) false none = trial

unfoldable pub for_plan : List (Profile × List Edit) → ℕ → Bool → ℕ → Option ℕ → Entitlements
for_plan edits level paid price grant = record {
  level = level;
  price = price;
  is_paid = paid;
  name = name_of level paid grant;
  features = profile edits (name_of level paid grant);
  grant = if ltb 0 level then grant else none;
}
