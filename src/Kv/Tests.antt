-- ===== src/Kv/Tests.antt =====
-- Runs on a small table, and the theorems at concrete inputs.
use yourcastbot.Kv.{
  Row, Value, delete_kv, get_kv, incr_kv, new_row, number, set_kv, text, update_kv,
}
use yourcastbot.Kv.Lookup.{assign, changed, kv_refines, lookup}
use yourcastbot.Kv.Migrate.{
  Entry, broken, items_with_prefix, migrate_updater_state_from_shelve, stored_as,
}
use yourcastbot.Prelude.{
  List, Option, [], false, if◌then◌else◌, negsuc, none, pos, refl, some, true, ℕ, ◌+ℤ◌, ◌==◌, ◌∷◌,
  ◌≡◌,
}

abbrev table : List Row
table = new_row 1 (number (pos 41)) ∷ new_row 2 (text 7 none) ∷ []

-- A change that deletes a key, and raises on a missing one.
abbrev forget : Option Value → Option (Option Value)
forget none = none
forget (some v) = some none

counts_on :
    incr_kv 1 table ≡ some (pos 42, new_row 1 (number (pos 42)) ∷ new_row 2 (text 7 none) ∷ [])
unfolding incr_kv set_kv ◌+ℤ◌
counts_on = refl

spaced :
    incr_kv 3 (new_row 3 (text 8 (some (negsuc 1))) ∷ [])
    ≡ some (negsuc 0, new_row 3 (number (negsuc 0)) ∷ [])
unfolding incr_kv set_kv ◌+ℤ◌
spaced = refl

raised : update_kv 4 forget table ≡ (none, table)
unfolding update_kv
raised = refl

refuses_text : incr_kv 2 table ≡ none
unfolding incr_kv
refuses_text = refl

kv_refines_example :
    (lookup (set_kv 2 (number (pos 5)) table) ≡ assign 2 (some (number (pos 5))) (lookup table))
    × (lookup (delete_kv 2 table) ≡ assign 2 none (lookup table))
    × (lookup (update_kv 2 forget table).1 ≡ changed 2 (forget (lookup table 2)) (lookup table))
    × ((update_kv 2 forget table).0 ≡ forget (lookup table 2))
    × (get_kv 2 (some (text 0 none)) (set_kv 2 (number (pos 5)) table) ≡ some (number (pos 5)))
    × (get_kv 2 (some (text 0 none)) (delete_kv 2 table) ≡ some (text 0 none))
kv_refines_example = kv_refines 2 (number (pos 5)) (some (text 0 none)) forget table

-- The cursor reads, the second key's read raises.
abbrev shelf : ℕ → Entry
shelf k = if k == 0 then stored_as (number (pos 41)) else broken

migrated :
    migrate_updater_state_from_shelve true shelf [] ≡ (false, new_row 0 (number (pos 41)) ∷ [])
unfolding migrate_updater_state_from_shelve get_kv set_kv
migrated = refl

listed_keys :
    items_with_prefix (λ k. k == 0) (new_row 0 (number (pos 41)) ∷ new_row 1 (text 2 none) ∷ [])
    ≡ new_row 0 (number (pos 41)) ∷ []
unfolding items_with_prefix
listed_keys = refl
