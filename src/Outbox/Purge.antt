-- ===== src/Outbox/Purge.antt =====
-- What `purge_old` deletes.
-- The rows that a purge with these limits deletes.
use yourcastbot.Outbox.{Outbox, Row, connect, done, done_keep_days, failed, failed_keep_days, split}
use yourcastbot.Outbox.Finish.{Purged, is_old, iso_before, keep_days, purge_old}
use yourcastbot.Prelude.{
  Bool, List, Member, Option, [], arith, false, length, map, none, not, refl, some, ℕ, ◌+◌, ◌||◌,
  ◌↔◌, ◌∷◌, ◌≡◌,
}
use yourcastbot.Table.{count_where, delete_where}
use yourcastbot.Table.Laws.{Member-select, select-Member}

abbrev pub is_purged : ℕ → ℕ → ℕ → Row → Bool
is_purged now d f r = is_old done (iso_before now d) r || is_old failed (iso_before now f) r

kept_twice :
    (p q : Row → Bool) (rs : List Row) (r : Row)
    → Member r (delete_where q (delete_where p rs)) ↔ (Member r rs × ((p r || q r) ≡ false))
kept_twice p q rs r = (there, back)
  where
    there : Member r (delete_where q (delete_where p rs)) → Member r rs × ((p r || q r) ≡ false)
    there m =
        let (m', nq) = select-Member (λ x. not (q x)) (delete_where p rs) r m in
        let (m'', np) = select-Member (λ x. not (p x)) rs r m' in (m'', ground arith)

    back : Member r rs × ((p r || q r) ≡ false) → Member r (delete_where q (delete_where p rs))
    back h =
        Member-select (λ x. not (q x)) (delete_where p rs) r
          (Member-select (λ x. not (p x)) rs r h.0 (ground (arith, h.1))) (ground (arith, h.1))

split_counts :
    (p q : Row → Bool) (rs : List Row)
    → count_where p rs
        + count_where q (delete_where p rs)
        + length (delete_where q (delete_where p rs))
      ≡ length rs
split_counts p q [] = refl
split_counts p q (r ∷ rs) = ground (arith, split_counts p q rs)

-- A purge with valid limits (or the defaults, a week for done and two for failed) keeps exactly the
-- rows that are not old done or old failed ones, so never an open row; its two numbers are the rows
-- that are gone.
pub purge_old_lem :
    (d f : Option ℕ) (now days_done days_failed : ℕ) (s : Outbox)
    → keep_days d done_keep_days ≡ some days_done
    → keep_days f failed_keep_days ≡ some days_failed
    → (n : Purged) × (t : Outbox) × (purge_old d f now s ≡ some (n, t))
      × ((r : Row)
          → Member r t.rows
            ↔ (Member r (connect s).rows × (is_purged now days_done days_failed r ≡ false)))
      × (n.done_rows + n.failed_rows + length t.rows ≡ length (connect s).rows)
unfolding purge_old connect
purge_old_lem d f now days_done days_failed s hd hf = (
  record {
    done_rows = count_where (is_old done (iso_before now days_done)) (map split s.rows);
    failed_rows =
        count_where (is_old failed (iso_before now days_failed))
          (delete_where (is_old done (iso_before now days_done)) (map split s.rows));
  },
  record {
    rows =
        delete_where (is_old failed (iso_before now days_failed))
          (delete_where (is_old done (iso_before now days_done)) (map split s.rows));
    in_flight = s.in_flight;
  },
  rw (hd, hf) refl,
  λ r.
      kept_twice (is_old done (iso_before now days_done))
        (is_old failed (iso_before now days_failed)) (map split s.rows) r,
  split_counts (is_old done (iso_before now days_done)) (is_old failed (iso_before now days_failed))
      (map split s.rows),
)

-- A keep time of less than a day is refused before any row is touched.
pub purge_old_refused : (f : Option ℕ) (now : ℕ) (s : Outbox) → purge_old (some 0) f now s ≡ none
unfolding purge_old
purge_old_refused f now s = refl
