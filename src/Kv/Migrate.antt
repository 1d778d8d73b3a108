-- ===== src/Kv/Migrate.antt =====
-- `items_with_prefix` and `migrate_updater_state_from_shelve` of db/runtime_kv.py. Which keys begin with
-- the prefix, and what the old shelve file answers, are parameters.
use yourcastbot.Kv.{Row, Value, get_kv, set_kv}
use yourcastbot.Prelude.{Bool, List, [], false, is_some, none, true, ℕ, ◌∷◌}
use yourcastbot.Table.{select_where}

abbrev pub key_has : (ℕ → Bool) → Row → Bool
key_has begins r = begins r.key

unfoldable pub items_with_prefix : (ℕ → Bool) → List Row → List Row
items_with_prefix begins rs = select_where (key_has begins) rs

-- A key of the shelve: it is not there, it reads, or its read raises.
pub data Entry : Type 0 where
  missing : Entry
  stored_as : Value → Entry
  broken : Entry

-- The copy of the keys, in their order; it ends at a read that raises, and keeps what it copied.
abbrev pub copy_key :
    Entry → ℕ → (Bool → List Row → Bool × List Row) → Bool → List Row → Bool × List Row
copy_key missing k others copied rs = others copied rs
copy_key (stored_as v) k others copied rs = others true (set_kv k v rs)
copy_key broken k others copied rs = (false, rs)

abbrev pub copy_keys : (ℕ → Entry) → List ℕ → Bool → List Row → Bool × List Row
copy_keys shelf [] copied rs = (copied, rs)
copy_keys shelf (k ∷ ks) copied rs = copy_key (shelf k) k (λ c t. copy_keys shelf ks c t) copied rs

abbrev pub last_channel_id : ℕ
last_channel_id = 0

abbrev pub last_channel_restarted : ℕ
last_channel_restarted = 1

abbrev pub new_podcast_available_flag : ℕ
new_podcast_available_flag = 2

abbrev pub migrate_if : Bool → Bool → (ℕ → Entry) → List Row → Bool × List Row
migrate_if true opens shelf rs = (false, rs)
migrate_if false false shelf rs = (false, rs)
migrate_if false true shelf rs =
    copy_keys shelf (last_channel_id ∷ last_channel_restarted ∷ new_podcast_available_flag ∷ [])
      false rs

-- `opens` is whether the shelve opens.
unfoldable pub migrate_updater_state_from_shelve : Bool → (ℕ → Entry) → List Row → Bool × List Row
migrate_updater_state_from_shelve opens shelf rs =
    migrate_if (is_some (get_kv last_channel_id none rs)) opens shelf rs
