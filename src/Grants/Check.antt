-- ===== src/Grants/Check.antt =====
-- app/jobs/plan_grants.py: the hourly check of one holder. What `getChatMember` answers is a
-- parameter (`none`: it does not say); a message is sent by returning it.
use yourcastbot.Grants.{Store, stopped, unsubscribed}
use yourcastbot.Grants.Hold.{end, hold, mark_missing}
use yourcastbot.Prelude.{
  Bool, List, Option, [], false, if◌then◌else◌, ltb, none, some, true, ℕ, ◌*◌, ◌+◌, ◌==◌, ◌∷◌,
}

-- GRACE_HOURS of app/service/plan/channels.py
abbrev pub grace_hours : ℕ
grace_hours = 24

-- `settings`: the listed channels.
pub record Conf : Type 0 where
  pub is_enabled : Bool
  pub channels : List ℕ

pub data Verdict : Type 0 where
  is_held : Verdict
  warned : Verdict
  ended : Verdict
  is_failed : Verdict
  gone : Verdict

pub data Message : Type 0 where
  stopped_message : Message
  warn_message : List ℕ → Message
  off_message : List ℕ → Message

pub record Checked : Type 0 where
  pub verdict : Verdict
  pub messages : List Message
  pub store : Store

abbrev pub add_absent : ℕ → Option Bool → Option (List ℕ) → Option (List ℕ)
add_absent c none rest = none
add_absent c (some true) rest = rest
add_absent c (some false) none = none
add_absent c (some false) (some cs) = some (c ∷ cs)

-- `missing`: the channels the chat is not in; `none` for CheckFailed.
unfoldable pub missing : (ℕ → Option Bool) → List ℕ → Option (List ℕ)
missing is_member [] = some []
missing is_member (c ∷ cs) = add_absent c (is_member c) (missing is_member cs)

abbrev pub after_end : Bool × Store → Message → Checked
after_end (false, s) m = record { verdict = gone; messages = []; store = s }
after_end (true, s) m = record { verdict = ended; messages = m ∷ []; store = s }

abbrev pub after_hold : Bool × Store → Verdict → Checked
after_hold (false, s) v = record { verdict = gone; messages = []; store = s }
after_hold (true, s) v = record { verdict = v; messages = []; store = s }

abbrev pub after_mark : Option ℕ × Store → ℕ → List ℕ → ℕ → Checked
after_mark (none, s) u absent now = record { verdict = gone; messages = []; store = s }
after_mark (some since, s) u absent now =
    if since == now
    then record { verdict = warned; messages = warn_message absent ∷ []; store = s }
    else if ltb now (since + grace_hours * 3600)
    then record { verdict = warned; messages = []; store = s }
    else after_end (end u unsubscribed now true s) (off_message absent)

abbrev pub after_missing : Option (List ℕ) → ℕ → ℕ → Store → Checked
after_missing none u now s = after_hold (hold u now s) is_failed
after_missing (some []) u now s = after_hold (hold u now s) is_held
after_missing (some (c ∷ cs)) u now s = after_mark (mark_missing u now s) u (c ∷ cs) now

-- `_check` of the holder `u`
unfoldable pub check : ℕ → Conf → ℕ → (ℕ → Option Bool) → Store → Checked
check u conf now is_member s =
    if conf.is_enabled
    then after_missing (missing is_member conf.channels) u now s
    else after_end (end u stopped now true s) stopped_message
