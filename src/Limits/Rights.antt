-- ===== src/Limits/Rights.antt =====
-- What the kind of a plan decides about AI and clicks.
use yourcastbot.Limits.{limit_hit}
use yourcastbot.Plan.{
  Edit, Features, Profile, ai_summary_hours_per_month, channels_kind, day_hours, edit_all, edits_of,
  for_plan, free_rec_per_week, grant_key, has_key, level_key, level_without_values, no_ai, no_plan,
  paid_level, profile, purchase_level, trial_rec_per_day, week_hours,
}
use yourcastbot.Prelude.{
  Bool, List, Option, [], arith, false, if◌then◌else◌, ltb, none, or_else, refl, some, suc, true,
  zero, ℕ, ◌<◌, ◌==◌, ◌≡◌,
}
use yourcastbot.Usage.{Event}

-- The admin edited nothing of this profile.
abbrev pub IsPlain : List (Profile × List Edit) → Profile → Type 0
IsPlain edits p = edits_of p edits ≡ []

known_grant :
    (b : Bool) (f : Features)
    → f.ai ≡ false
    → (or_else (edit_all [] (if b then some f else none)) (no_ai free_rec_per_week week_hours)).ai
      ≡ false
known_grant true f h = h
known_grant false f h = refl

grant-ai :
    (edits : List (Profile × List Edit)) (k : ℕ)
    → IsPlain edits no_plan
    → IsPlain edits (grant_key k)
    → (profile edits (grant_key k)).ai ≡ false
unfolding profile
grant-ai edits k plain mine =
    rw (mine, plain) (known_grant (k == channels_kind) (no_ai trial_rec_per_day day_hours) refl)

no_plan-ai :
    (edits : List (Profile × List Edit))
    → IsPlain edits no_plan
    → (profile edits no_plan).ai ≡ false
unfolding profile
no_plan-ai edits plain = rw (plain) refl

known_level :
    (b : Bool) (f : Features)
    → f.clicks ≡ none
    → (or_else (edit_all [] (if b then some f else none)) level_without_values).clicks ≡ none
known_level true f h = h
known_level false f h = refl

level-clicks :
    (edits : List (Profile × List Edit)) (n : ℕ)
    → IsPlain edits (level_key n)
    → (profile edits (level_key n)).clicks ≡ none
unfolding profile
level-clicks edits n mine =
    rw (mine) (known_level (has_key ai_summary_hours_per_month n) (paid_level n) refl)

-- With the profiles of no plan and of the grants as they come, AI is for a running plan that no
-- grant holds, and what buying sees of the plan is then its level.
pub ai_for_plans :
    (edits : List (Profile × List Edit)) (level price : ℕ) (paid : Bool) (grant : Option ℕ)
    → IsPlain edits no_plan
    → ((k : ℕ) → IsPlain edits (grant_key k))
    → (for_plan edits level paid price grant).features.ai ≡ true
    → (0 < level)
      × (grant ≡ none)
      × (purchase_level (for_plan edits level paid price grant) ≡ level)
unfolding for_plan
ai_for_plans edits zero price paid grant plain grants h =
    absurd (ground (arith, no_plan-ai edits plain))
ai_for_plans edits (suc n) price paid none plain grants h =
    let up : ltb 0 (suc n) ≡ true = ground arith in (omega arith, refl, rw (up, if◌then◌else◌) refl)
ai_for_plans edits (suc n) price paid (some k) plain grants h =
    absurd (ground (arith, grant-ai edits k plain (grants k)))

-- A plan paid for that no grant holds has no limit of clicks, whatever its level and the ledger, while the admin did not
-- edit its profile.
pub paid-limit_hit :
    (edits : List (Profile × List Edit)) (level price u x now : ℕ) (waiting : List ℕ)
    (es : List Event)
    → 0 < level
    → IsPlain edits (level_key level)
    → limit_hit (for_plan edits level true price none) u x waiting now es ≡ none
unfolding for_plan limit_hit
paid-limit_hit edits zero price u x now waiting es pos plain = absurd (omega arith)
paid-limit_hit edits (suc n) price u x now waiting es pos plain =
    rw (level-clicks edits (suc n) plain) refl
