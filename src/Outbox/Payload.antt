-- ===== src/Outbox/Payload.antt =====
-- The parts of a stored payload that the queue itself reads and rewrites.
use yourcastbot.Prelude.{
  ℕ, Bool, true, false, Option, none, some, List, [], ◌∷◌, ◌==◌, if◌then◌else◌,
}
use yourcastbot.Outbox.{Params}

abbrev pub contains {ℓ} : {V : Type ℓ} → ℕ → List (ℕ × V) → Bool
contains k [] = false
contains k ((j, _) ∷ m) = if j == k then true else contains k m

-- `m.pop(k, None)`
abbrev pub pop {ℓ} : {V : Type ℓ} → ℕ → List (ℕ × V) → List (ℕ × V)
pop k [] = []
pop k ((j, v) ∷ m) = let rest = pop k m in if j == k then rest else (j, v) ∷ rest

abbrev pub is_empty {ℓ} : {V : Type ℓ} → List V → Bool
is_empty [] = true
is_empty (_ ∷ _) = false

abbrev id_matches : ℕ → Option ℕ → Bool
id_matches wanted none = false
id_matches wanted (some e) = e == wanted

-- `_record_uniq_id_from_payload(payload) == wanted`; a payload that does not parse is skipped.
abbrev pub is_episode : ℕ → Option Params → Bool
is_episode wanted none = false
is_episode wanted (some p) = id_matches wanted p.record_uniq_id

abbrev pub has_chat : ℕ → Option Params → Bool
has_chat c none = false
has_chat c (some p) = contains c p.chat_ids

-- The three pops of `drop_circle_recipient`.
abbrev pub drop_chat : ℕ → Params → Params
drop_chat c p = record p {
  chat_ids = pop c p.chat_ids;
  utglangs = pop c p.utglangs;
  bitratestg = pop c p.bitratestg;
}
