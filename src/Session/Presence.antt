-- ===== src/Session/Presence.antt =====
-- owner-mode.json, the owner's presence, and the reachable states of the sessions.
use zorin_host_agent.Prelude.{
  ◌<◌, ◌≡◌, refl, ap, ◌∙◌, ◌⊎◌, inl, inr, Bool, true, false, not, some, List, [], ◌∷◌, arith, ◌==◌,
  is_some, Bool-cases, is_empty, any, All,
}
use zorin_host_agent.Text.{Text}
use zorin_host_agent.Dict.{Dict, lookup, values, any_value}
use zorin_host_agent.Dict.Laws.{values-All}
use zorin_host_agent.Agent.{Agent, Session, is_present, zero_session}
use zorin_host_agent.Session.{any_present, newer_present, newest_present, owner_mode_of}
use zorin_host_agent.Session.Invariant.{IsConsistent}

abbrev pub IsProper : Session → Type 0
IsProper s = (s.trusted ≡ true) × (0 < s.since)

newer_present-started : (n s : Session) → 0 < n.since → 0 < s.since → 0 < (newer_present n s).since
unfolding newer_present
newer_present-started n s h k = ground arith

newer_present-present :
    (n s : Session) → n.since ≡ 0 → s.user_present ≡ true → newer_present n s ≡ s
unfolding newer_present
newer_present-present n s h k = ground arith

newer_present-absent : (n s : Session) → s.user_present ≡ false → newer_present n s ≡ n
unfolding newer_present
newer_present-absent n s h = rw h

newest_present-started :
    (n : Session) (l : List Session) → 0 < n.since → All IsProper l → 0 < (newest_present n l).since
unfolding newest_present
newest_present-started n [] h k = h
newest_present-started n (s ∷ l) h k =
    newest_present-started (newer_present n s) l (newer_present-started n s h k.0.1) k.1

newest_present-none :
    (n : Session) (l : List Session)
    → n.since ≡ 0
    → All IsProper l
    → ((newest_present n l).since == 0) ≡ not (any is_present l)
unfolding newest_present is_present
newest_present-none n [] h k = ground arith
newest_present-none n (s ∷ l) h k = elim (Bool-cases s.user_present) [
  | inl here ↦ ground (
    arith,
    ap (λ m. newest_present m l) (newer_present-present n s h here),
    newest_present-started s l k.0.1 k.1,
  )
  | inr away ↦ ground (
    arith,
    ap (λ m. newest_present m l) (newer_present-absent n s away),
    newest_present-none n l h k.1,
  )
]

any_value-empty :
    (p : Session → Bool) (m : Dict Session) → is_empty m ≡ true → any_value p m ≡ false
unfolding any_value
any_value-empty p [] h = refl
any_value-empty p (e ∷ m) h = cc

pub any_value-values : (p : Session → Bool) (m : Dict Session) → any_value p m ≡ any p (values m)
unfolding any_value values
any_value-values p [] = refl
any_value-values p ((k, v) ∷ m) = ground (arith, any_value-values p m)

pub session-IsProper :
    (a : Agent)
    → IsConsistent a
    → (fp : Text) (s : Session) → lookup fp a.sessions ≡ some s
    → IsProper s
session-IsProper a c fp s e = ground (arith, c.agree fp)

owner_mode_of-present :
    (a : Agent) → All IsProper (values a.sessions) → is_some (owner_mode_of a) ≡ any_present a
unfolding owner_mode_of any_present
owner_mode_of-present a h = elim (Bool-cases (is_empty a.sessions)) [
  | inl e ↦ ground (arith, any_value-empty is_present a.sessions e)
  | inr e ↦
      rw (any_value-values is_present a.sessions)
        (ground (arith, newest_present-none zero_session (values a.sessions) refl h))
]

-- A session is trusted or has no start.
abbrev pub IsSettled : Session → Type 0
IsSettled s = (s.trusted ≡ true) ⊎ (s.since ≡ 0)

newest_present-found :
    (n : Session) (l : List Session)
    → All IsSettled l
    → ((newest_present n l).since == 0) ≡ false
    → ((n.since == 0) ≡ false) ⊎ (any is_present l ≡ true)
unfolding newest_present
newest_present-found n [] h k = inl k
newest_present-found n (s ∷ l) h k = elim (newest_present-found (newer_present n s) l h.1 k) [
  | inl found ↦ unfold newer_present is_present in ground (arith, h.0)
  | inr later ↦ ground arith
]

-- owner-mode.json names a phone that is trusted and unlocked.
pub owner_mode_of-found :
    (a : Agent)
    → All IsSettled (values a.sessions)
    → is_some (owner_mode_of a) ≡ true
    → any_present a ≡ true
unfolding owner_mode_of any_present
owner_mode_of-found a h e =
    any_value-values is_present a.sessions
    ∙ elim (newest_present-found zero_session (values a.sessions) h (ground arith)) [
      | inl absent ↦ unfold zero_session in absurd (ground arith)
      | inr found ↦ found
    ]

-- owner-mode.json exists exactly while a trusted phone is unlocked.
pub owner_mode_file-present :
    (a : Agent) → IsConsistent a → is_some a.owner_mode_file ≡ any_present a
owner_mode_file-present a c =
    ap is_some c.owner_mode
    ∙ owner_mode_of-present a (values-All IsProper a.sessions c.sessions_map (session-IsProper a c))
