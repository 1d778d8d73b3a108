-- ===== src/Kv.antt =====
-- db/runtime_kv.py: a key-value table for what the processes share. A key is a number for its text.
-- A value is a number, as `str` spells it, or another text with the number that `int` reads from it, if
-- any (`int` takes spaces, signs and leading zeros).
pub mod Lookup
pub mod Migrate
mod Tests
use yourcastbot.Prelude.{
  Bool, List, Option, [], if◌then◌else◌, none, pos, some, ℕ, ℤ, ◌++◌, ◌+ℤ◌, ◌==◌, ◌∷◌,
}
use yourcastbot.Table.{delete_where, exists_where, find_where, update_where}

pub data Value : Type 0 where
  number : ℤ → Value
  text : ℕ → Option ℤ → Value

pub record Row : Type 0 where
  pub key : ℕ
  pub value : Value

abbrev pub has_key : ℕ → Row → Bool
has_key k r = r.key == k

abbrev pub value_of : Option Row → Option Value
value_of none = none
value_of (some r) = some r.value

-- SELECT value WHERE key = ?
abbrev pub stored : ℕ → List Row → Option Value
stored k rs = value_of (find_where (has_key k) rs)

abbrev pub or_default : Option Value → Option Value → Option Value
or_default none default = default
or_default (some v) default = some v

-- `none` where the caller's default is None
unfoldable pub get_kv : ℕ → Option Value → List Row → Option Value
get_kv k default rs = or_default (stored k rs) default

abbrev pub new_row : ℕ → Value → Row
new_row k v = record { key = k; value = v }

abbrev pub put : Value → Row → Row
put v r = record r { value = v }

-- INSERT .. ON CONFLICT(key) DO UPDATE
unfoldable pub set_kv : ℕ → Value → List Row → List Row
set_kv k v rs =
    if exists_where (has_key k) rs
    then update_where (has_key k) (put v) rs
    else rs ++ new_row k v ∷ []

unfoldable pub delete_kv : ℕ → List Row → List Row
delete_kv k rs = delete_where (has_key k) rs

-- `none` where `int` refuses the text.
abbrev pub next_value : Option Value → Option ℤ
next_value none = some (pos 1)
next_value (some (number n)) = some (n +ℤ pos 1)
next_value (some (text t none)) = none
next_value (some (text t (some n))) = some (n +ℤ pos 1)

abbrev pub incr_with : ℕ → Option ℤ → List Row → Option (ℤ × List Row)
incr_with k none rs = none
incr_with k (some n) rs = some (n, set_kv k (number n) rs)

-- `none` when it raises, and then nothing changes.
unfoldable pub incr_kv : ℕ → List Row → Option (ℤ × List Row)
incr_kv k rs = incr_with k (next_value (stored k rs)) rs

abbrev pub write : ℕ → Option Value → List Row → List Row
write k none rs = delete_kv k rs
write k (some v) rs = set_kv k v rs

-- A change that raises is rolled back.
abbrev pub write_or_raise : ℕ → Option (Option Value) → List Row → Option (Option Value) × List Row
write_or_raise k none rs = (none, rs)
write_or_raise k (some v) rs = (some v, write k v rs)

-- `change` gives the new value, or None, which deletes the key; `none` is a change that raises.
unfoldable pub update_kv :
    ℕ → (Option Value → Option (Option Value)) → List Row → Option (Option Value) × List Row
update_kv k change rs = write_or_raise k (change (stored k rs)) rs
