-- ===== src/Table.antt =====
-- The SQL statements that the program sends to SQLite, over a table as a list of rows:
-- SELECT .. WHERE, SELECT COUNT(*), UPDATE .. WHERE, DELETE .. WHERE, and ORDER BY .. LIMIT 1.
pub mod Laws
pub mod Best
pub mod Sums
pub mod Keys
pub mod Append
use yourcastbot.Prelude.{
  ℕ, suc, Bool, true, false, ◌||◌, not, Option, none, some, List, [], ◌∷◌, if◌then◌else◌,
}

module _ {ℓ} {R : Type ℓ} where
  -- SELECT * WHERE p
  abbrev pub select_where : (R → Bool) → List R → List R
  select_where p [] = []
  select_where p (r ∷ rs) = if p r then r ∷ select_where p rs else select_where p rs

  -- SELECT COUNT(*) WHERE p; also what `changes()` is after an UPDATE or DELETE WHERE p
  abbrev pub count_where : (R → Bool) → List R → ℕ
  count_where p [] = 0
  count_where p (r ∷ rs) = if p r then suc (count_where p rs) else count_where p rs

  -- SELECT 1 WHERE p
  abbrev pub exists_where : (R → Bool) → List R → Bool
  exists_where p [] = false
  exists_where p (r ∷ rs) = p r || exists_where p rs

  -- UPDATE SET f WHERE p
  abbrev pub update_where : (R → Bool) → (R → R) → List R → List R
  update_where p f [] = []
  update_where p f (r ∷ rs) = (if p r then f r else r) ∷ update_where p f rs

  -- DELETE WHERE p
  abbrev pub delete_where : (R → Bool) → List R → List R
  delete_where p = select_where (λ r. not (p r))

  -- SELECT * WHERE p, the first row (of a key: the only one)
  abbrev pub find_where : (R → Bool) → List R → Option R
  find_where p [] = none
  find_where p (r ∷ rs) = if p r then some r else find_where p rs

  abbrev pub better : (R → R → Bool) → R → Option R → R
  better before r none = r
  better before r (some b) = if before b r then b else r

  -- SELECT * WHERE p ORDER BY before LIMIT 1
  abbrev pub best_where : (R → Bool) → (R → R → Bool) → List R → Option R
  best_where p before [] = none
  best_where p before (r ∷ rs) =
      if p r then some (better before r (best_where p before rs)) else best_where p before rs
