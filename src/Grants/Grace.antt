-- ===== src/Grants/Grace.antt =====
-- The grace: from the warning of a holder who left a channel to the end of the grant.
use mathlib.Core.Option
use yourcastbot.Grants.{Grant, Plan, Store, active, has_id, holds, is_active, unsubscribed}
use yourcastbot.Grants.Check.{
  Checked, Conf, Message, after_end, after_mark, check, ended, missing, off_message, warn_message,
  warned,
}
use yourcastbot.Grants.Hold.{close, end, mark_missing, miss, switch_off}
use yourcastbot.Grants.Single.{IsSingle, end_grant-none, update-IsSingle}
use yourcastbot.Prelude.{
  Bool, List, Member, Option, [], ap, arith, false, if◌then◌else◌, ltb, none, or_else, refl, some,
  true, ℕ, ◌*◌, ◌+◌, ◌<◌, ◌==◌, ◌∙◌, ◌∷◌, ◌≡◌, ◌≤◌,
}
use yourcastbot.Table.{find_where, update_where}
use yourcastbot.Table.Keys.{find_only}
use yourcastbot.Table.Laws.{find-Member, find-update}

-- The store after the mark of the grant `g`.
abbrev pub marked : Grant → ℕ → Store → Store
marked g now s = record s { grants = update_where (has_id g.id) (miss now) s.grants }

active_id : (u : ℕ) (s : Store) (g : Grant) → active u s ≡ some g → Member g s.grants
active_id u s g e = (find-Member (is_active u) s.grants g e).0

found_id :
    (u : ℕ) (s : Store) (g : Grant)
    → IsSingle s
    → active u s ≡ some g
    → find_where (has_id g.id) s.grants ≡ some g
found_id u s g i e =
    find_only (has_id g.id) s.grants g (i.one_id g.id) (active_id u s g e) (ground arith)

abbrev miss_if : ℕ → ℕ → Grant → Grant
miss_if i now r = if has_id i r then miss now r else r

miss_own : (now : ℕ) (g : Grant) → miss_if g.id now g ≡ miss now g
miss_own now g = let t : has_id g.id g ≡ true = ground arith in rw (t, if◌then◌else◌) refl

abbrev close_if : ℕ → ℕ → Grant → Grant
close_if i now r = if has_id i r then close now unsubscribed r else r

close_own : (now : ℕ) (g : Grant) → close_if g.id now g ≡ close now unsubscribed g
close_own now g = let t : has_id g.id g ≡ true = ground arith in rw (t, if◌then◌else◌) refl

-- What `mark_missing` does, the running grant given.
pub mark_missing_lem :
    (u now : ℕ) (s : Store) (g : Grant)
    → IsSingle s
    → active u s ≡ some g
    → mark_missing u now s ≡ (some (or_else g.missing_since now), marked g now s)
unfolding mark_missing
mark_missing_lem u now s g i e =
    let found : find_where (has_id g.id) (marked g now s).grants ≡ some (miss now g) =
      find-update (has_id g.id) (has_id g.id) (miss now) (λ r _. refl) s.grants
      ∙ ap (λ o. Option.map (miss_if g.id now) o) (found_id u s g i e)
      ∙ ap some (miss_own now g) in
    rw (e, found) refl

-- The running grant after the mark.
pub marked-active :
    (u now : ℕ) (s : Store) (g : Grant)
    → active u s ≡ some g
    → active u (marked g now s) ≡ some (miss now g)
marked-active u now s g e =
    find-update (has_id g.id) (is_active u) (miss now) (λ r _. refl) s.grants
    ∙ ap (λ o. Option.map (miss_if g.id now) o) e
    ∙ ap some (miss_own now g)

-- The check of a holder who misses a channel, as far as the mark decides it.
pub check-missing :
    (u : ℕ) (conf : Conf) (now c : ℕ) (cs : List ℕ) (m : ℕ → Option Bool) (s : Store) (g : Grant)
    → IsSingle s
    → active u s ≡ some g
    → conf.is_enabled ≡ true
    → missing m conf.channels ≡ some (c ∷ cs)
    → check u conf now m s
      ≡ after_mark (some (or_else g.missing_since now), marked g now s) u (c ∷ cs) now
unfolding check
check-missing u conf now c cs m s g i e on left = rw (on, left, mark_missing_lem u now s g i e) refl

pub marked-IsSingle : (g : Grant) (now : ℕ) (s : Store) → IsSingle s → IsSingle (marked g now s)
marked-IsSingle g now s i = update-IsSingle (has_id g.id) (miss now) s _ (λ x. refl) (λ v x h. h) i

-- The end of the running grant `g`: it is closed as unsubscribed, nothing of the user runs, and the
-- plan row that it holds goes back to the plan from before, without hours and deliveries.
pub record HasEnded (u now : ℕ) (g : Grant) (ps : List Plan) (x : Checked) : Type 0 where
  pub verdict : x.verdict ≡ ended
  pub none_runs : active u x.store ≡ none
  pub closed : Grant
  pub found : find_where (has_id g.id) x.store.grants ≡ some closed
  pub reason : closed.end_reason ≡ some unsubscribed
  pub at : closed.ended_at ≡ some now
  pub plans : x.store.plans ≡ update_where (holds u g.tariff_id) (switch_off g.prev_tariff_id) ps

end-running :
    (u now : ℕ) (s : Store) (g : Grant) (m : Message)
    → IsSingle s
    → active u s ≡ some g
    → HasEnded u now g s.plans (after_end (end u unsubscribed now true s) m)
      × ((after_end (end u unsubscribed now true s) m).messages ≡ m ∷ [])
unfolding end
end-running u now s g m i e = (
  rw (e) (record {
    verdict = refl;
    none_runs = end_grant-none (some g) u unsubscribed now true s e i;
    closed = close now unsubscribed g;
    found =
        find-update (has_id g.id) (has_id g.id) (close now unsubscribed) (λ r _. refl) s.grants
        ∙ ap (λ o. Option.map (close_if g.id now) o) (found_id u s g i e)
        ∙ ap some (close_own now g);
    reason = refl;
    at = refl;
    plans = refl;
  }),
  rw (e) refl,
)

-- What a later check does to a holder who still misses a channel: nothing but the note of the check
-- until the grace is over, and then the grant ends.
abbrev pub FollowsUp : ℕ → ℕ → ℕ → Grant → List ℕ → List Plan → Checked → Type 0
FollowsUp u first later g absent ps x =
    (later < first + 24 * 3600
      → (x.verdict ≡ warned)
        × (x.messages ≡ [])
        × (active u x.store ≡ some (miss later (miss first g)))
        × (x.store.plans ≡ ps))
    × (first + 24 * 3600 ≤ later → HasEnded u later g ps x × (x.messages ≡ off_message absent ∷ []))

first_mark :
    (u now c : ℕ) (cs : List ℕ) (g : Grant) (s : Store)
    → g.missing_since ≡ none
    → after_mark (some (or_else g.missing_since now), marked g now s) u (c ∷ cs) now
      ≡ record { verdict = warned; messages = warn_message (c ∷ cs) ∷ []; store = marked g now s }
first_mark u now c cs g s e =
    let t : (now == now) ≡ true = ground arith in rw (e, or_else, t, if◌then◌else◌) refl

follow :
    (u since first later c : ℕ) (cs : List ℕ) (g : Grant) (s : Store)
    → since ≡ first
    → first < later
    → IsSingle s
    → active u s ≡ some (miss later (miss first g))
    → FollowsUp u first later g (c ∷ cs) s.plans (after_mark (some since, s) u (c ∷ cs) later)
follow u since first later c cs g s k l i e =
    let f : (since == later) ≡ false = ground arith in
    let (done, sent) =
      end-running u later s (miss later (miss first g)) (off_message (c ∷ cs)) i e in
    (
      λ d.
          let t : ltb later (since + 24 * 3600) ≡ true = ground arith in
          rw (f, if◌then◌else◌, t, if◌then◌else◌) (refl, refl, e, refl),
      λ d.
          let t : ltb later (since + 24 * 3600) ≡ false = ground arith in
          rw (f, if◌then◌else◌, t, if◌then◌else◌)
            (
              record {
                verdict = done.verdict;
                none_runs = done.none_runs;
                closed = done.closed;
                found = done.found;
                reason = done.reason;
                at = done.at;
                plans = done.plans;
              },
              sent,
            ),
    )

-- On tables with single grants, a holder of a grant not yet marked who is found out of a listed channel
-- is warned with the channels missing. The next check, at any later time, if it finds any missing, sends
-- nothing before GRACE_HOURS are over, and leaves the grant running and the plans as they are. From then
-- on it ends the grant with a message: the row is closed as unsubscribed at that time, no grant of the
-- user runs, and the plan row that it held is switched off, back on the plan from before.
pub check-FollowsUp :
    (u : ℕ) (conf : Conf) (now c later d : ℕ) (cs ds : List ℕ) (m n : ℕ → Option Bool) (s : Store)
    (g : Grant)
    → IsSingle s
    → active u s ≡ some g
    → g.missing_since ≡ none
    → conf.is_enabled ≡ true
    → missing m conf.channels ≡ some (c ∷ cs)
    → missing n conf.channels ≡ some (d ∷ ds)
    → now < later
    → ((check u conf now m s).verdict ≡ warned)
      × ((check u conf now m s).messages ≡ warn_message (c ∷ cs) ∷ [])
      × FollowsUp u now later g (d ∷ ds) s.plans (check u conf later n (check u conf now m s).store)
check-FollowsUp u conf now c later d cs ds m n s g i e fresh on left left' l =
    let first = check-missing u conf now c cs m s g i e on left ∙ first_mark u now c cs g s fresh in
    let again = marked-active u now s g e in
    let single = marked-IsSingle g now s i in
    let second =
      check-missing u conf later d ds n (marked g now s) (miss now g) single again on left' in
    let since : or_else g.missing_since now ≡ now = rw (fresh) refl in
    let rest =
      follow u (or_else g.missing_since now) now later d ds g
        (marked (miss now g) later (marked g now s)) since l
        (marked-IsSingle (miss now g) later (marked g now s) single)
        (marked-active u later (marked g now s) (miss now g) again) in
    rw (first) (refl, refl, rw (second) rest)
