-- ===== src/Kv/Lookup.antt =====
-- The table as a partial function from keys to values.
use mathlib.Core.Path.{fun_ext, subst}
use yourcastbot.Kv.{
  Row, Value, delete_kv, get_kv, has_key, new_row, or_default, put, set_kv, stored, update_kv,
  write, write_or_raise,
}
use yourcastbot.Prelude.{
  Bool-cases, List, Option, [], ap, arith, false, if◌then◌else◌, inl, inr, none, refl, some, sym,
  true, ℕ, ◌++◌, ◌==◌, ◌∙◌, ◌∷◌, ◌≡◌,
}
use yourcastbot.Table.{delete_where, exists_where, update_where}

abbrev pub Map : Type 0
Map = ℕ → Option Value

-- The function that the rows stand for.
abbrev pub lookup : List Row → Map
lookup rs k = stored k rs

abbrev pub assign : ℕ → Option Value → Map → Map
assign k v m x = if x == k then v else m x

put-other :
    (k x : ℕ) (v : Value) (rs : List Row)
    → (x == k) ≡ false
    → stored x (update_where (has_key k) (put v) rs) ≡ stored x rs
put-other k x v [] n = refl
put-other k x v (r ∷ rs) n = ground (arith, put-other k x v rs n)

put-own :
    (k : ℕ) (v : Value) (rs : List Row)
    → exists_where (has_key k) rs ≡ true
    → stored k (update_where (has_key k) (put v) rs) ≡ some v
put-own k v [] e = cc
put-own k v (r ∷ rs) e = ground (arith, put-own k v rs)

append-lookup :
    (k x : ℕ) (v : Value) (rs : List Row)
    → exists_where (has_key k) rs ≡ false
    → stored x (rs ++ new_row k v ∷ []) ≡ (if x == k then some v else stored x rs)
append-lookup k x v [] e = ground arith
append-lookup k x v (r ∷ rs) e = ground (arith, append-lookup k x v rs)

put-lookup :
    (k x : ℕ) (v : Value) (rs : List Row)
    → exists_where (has_key k) rs ≡ true
    → stored x (update_where (has_key k) (put v) rs) ≡ (if x == k then some v else stored x rs)
put-lookup k x v rs e = elim (Bool-cases (x == k)) [
  | inl t ↦
      let same : x ≡ k = ground arith in
      rw (t, if◌then◌else◌)
        (subst (λ y. stored y (update_where (has_key k) (put v) rs) ≡ some v) (sym same)
          (put-own k v rs e))
  | inr f ↦ rw (f, if◌then◌else◌) (put-other k x v rs f)
]

pub set-lookup :
    (k x : ℕ) (v : Value) (rs : List Row)
    → stored x (set_kv k v rs) ≡ (if x == k then some v else stored x rs)
unfolding set_kv
set-lookup k x v rs = elim (Bool-cases (exists_where (has_key k) rs)) [
  | inl e ↦ rw (e, if◌then◌else◌) (put-lookup k x v rs e)
  | inr e ↦ rw (e, if◌then◌else◌) (append-lookup k x v rs e)
]

delete-lookup :
    (k x : ℕ) (rs : List Row)
    → stored x (delete_where (has_key k) rs) ≡ (if x == k then none else stored x rs)
delete-lookup k x [] = ground arith
delete-lookup k x (r ∷ rs) = ground (arith, delete-lookup k x rs)

-- What a write does to the function: the key's value is the one written, or none; no other changes.
pub write-lookup :
    (k x : ℕ) (v : Option Value) (rs : List Row)
    → stored x (write k v rs) ≡ (if x == k then v else stored x rs)
unfolding delete_kv
write-lookup k x none rs = delete-lookup k x rs
write-lookup k x (some v) rs = set-lookup k x v rs

-- What a change makes of the function: nothing where it raises.
abbrev pub changed : ℕ → Option (Option Value) → Map → Map
changed k none m = m
changed k (some v) m = assign k v m

raise-lookup :
    (k x : ℕ) (o : Option (Option Value)) (rs : List Row)
    → lookup (write_or_raise k o rs).1 x ≡ changed k o (lookup rs) x
raise-lookup k x none rs = refl
raise-lookup k x (some v) rs = write-lookup k x v rs

answered : (k : ℕ) (o : Option (Option Value)) (rs : List Row) → (write_or_raise k o rs).0 ≡ o
answered k none rs = refl
answered k (some v) rs = refl

-- The table behaves as the function from keys to values that `assign` changes: setting, deleting and
-- updating a key give that key the value set, none, or `change` of the old value, and no other key
-- changes. An update returns what `change` gave, and where `change` raises, so does the update, and no
-- key changes. A read gives the key's value, or the default.
pub kv_refines :
    (k : ℕ) (v : Value) (default : Option Value) (change : Option Value → Option (Option Value))
    (rs : List Row)
    → (lookup (set_kv k v rs) ≡ assign k (some v) (lookup rs))
      × (lookup (delete_kv k rs) ≡ assign k none (lookup rs))
      × (lookup (update_kv k change rs).1 ≡ changed k (change (lookup rs k)) (lookup rs))
      × ((update_kv k change rs).0 ≡ change (lookup rs k))
      × (get_kv k default (set_kv k v rs) ≡ some v)
      × (get_kv k default (delete_kv k rs) ≡ default)
unfolding update_kv get_kv
kv_refines k v default change rs =
    let own : (k == k) ≡ true = ground arith in
    let set : stored k (set_kv k v rs) ≡ some v =
      set-lookup k k v rs ∙ rw (own, if◌then◌else◌) refl in
    let gone : stored k (delete_kv k rs) ≡ none =
      write-lookup k k none rs ∙ rw (own, if◌then◌else◌) refl in
    (
      fun_ext (λ x. set-lookup k x v rs),
      fun_ext (λ x. write-lookup k x none rs),
      fun_ext (λ x. raise-lookup k x (change (stored k rs)) rs),
      answered k (change (stored k rs)) rs,
      ap (λ o. or_default o default) set,
      ap (λ o. or_default o default) gone,
    )
