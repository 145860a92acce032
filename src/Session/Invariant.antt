-- ===== src/Session/Invariant.antt =====
-- The sessions and the live connections agree, and the two files follow them.
use zorin_host_agent.Prelude.{
  ℕ, ◌<◌, ◌≡◌, refl, inl, inr, Bool, true, Option, none, some, arith, if◌then◌else◌, Bool-cases,
  Option-cases, is_empty,
}
use zorin_host_agent.Text.{Text, text_eq}
use zorin_host_agent.Text.Laws.{text_eq_iff}
use zorin_host_agent.Dict.{Dict, IsMap, lookup, values}
use zorin_host_agent.Dict.Laws.{lookup-insert, lookup-delete, insert-IsMap, delete-IsMap}
use zorin_host_agent.Agent.{Agent, Session, LiveSession}
use zorin_host_agent.Session.{
  session_up, session_touch, session_down, write_session, write_owner_mode, owner_mode_of,
  put_session, put_touch, drop_session, new_session, touch_live, touched_session,
}

-- A phone has a session exactly if it has a live connection; the session is trusted, has the
-- presence of the connection and a proper start.
abbrev pub Agree : Text → Option Session → Option LiveSession → Type 0
Agree fp none none = Unit
Agree fp none (some l) = ⊥
Agree fp (some s) none = ⊥
Agree fp (some s) (some l) =
    (s.trusted ≡ true)
    × (s.user_present ≡ l.user_present)
    × (0 < s.since)
    × (s.phone_fingerprint ≡ fp)
    × (l.phone_fp ≡ fp)

pub record IsConsistent (a : Agent) : Type 0 where
  pub sessions_map : IsMap a.sessions
  pub live_map : IsMap a.live
  pub agree : (fp : Text) → Agree fp (lookup fp a.sessions) (lookup fp a.live)
  pub session_file :
      a.session_file ≡ (if is_empty a.sessions then none else some (values a.sessions))
  pub owner_mode : a.owner_mode_file ≡ owner_mode_of a

put_session-Agree :
    (a : Agent) (live : LiveSession) (now : ℕ) (fp : Text)
    → 0 < now
    → Agree fp (lookup fp a.sessions) (lookup fp a.live)
    → Agree fp
        (lookup fp (put_session a live now).sessions)
        (lookup fp (put_session a live now).live)
unfolding put_session new_session
put_session-Agree a live now fp h c =
    rw
      (
        lookup-insert live.phone_fp fp (new_session a live now) a.sessions,
        lookup-insert live.phone_fp fp live a.live,
      )
      (elim (Bool-cases (text_eq live.phone_fp fp)) [
        | inl same ↦ rw same (refl, refl, h, (text_eq_iff _ _).0 same, (text_eq_iff _ _).0 same)
        | inr other ↦ rw other c
      ])

drop_session-Agree :
    (a : Agent) (gone fp : Text)
    → Agree fp (lookup fp a.sessions) (lookup fp a.live)
    → Agree fp (lookup fp (drop_session a gone).sessions) (lookup fp (drop_session a gone).live)
unfolding drop_session
drop_session-Agree a gone fp c =
    rw (lookup-delete gone fp a.sessions, lookup-delete gone fp a.live)
      (elim (Bool-cases (text_eq gone fp)) [ inl same ↦ rw same tt | inr other ↦ rw other c ])

put_touch-Agree :
    (a : Agent) (phone fp : Text) (present : Bool) (now : ℕ) (l : LiveSession)
    → lookup phone a.live ≡ some l
    → Agree phone (lookup phone a.sessions) (lookup phone a.live)
    → Agree fp (lookup fp a.sessions) (lookup fp a.live)
    → Agree fp
        (lookup fp (put_touch a phone present now).sessions)
        (lookup fp (put_touch a phone present now).live)
unfolding put_touch touch_live touched_session
put_touch-Agree a phone fp present now l found own c =
    elim (Option-cases (lookup phone a.sessions)) [
      | inl missing ↦ absurd (rw (missing, found) at own)
      | inr (s, e) ↦ ground (
        arith,
        lookup-insert phone fp (record s { last_seen = now; user_present = present }) a.sessions,
        lookup-insert phone fp (record l { user_present = present }) a.live,
        text_eq_iff phone fp,
      )
    ]

written-IsConsistent :
    (a : Agent)
    → IsMap a.sessions
    → IsMap a.live
    → ((fp : Text) → Agree fp (lookup fp a.sessions) (lookup fp a.live))
    → IsConsistent (write_owner_mode (write_session a))
unfolding write_owner_mode write_session owner_mode_of
written-IsConsistent a hs hl c = record {
  sessions_map = hs;
  live_map = hl;
  agree = c;
  session_file = refl;
  owner_mode = refl;
}

pub touch_live-IsMap :
    (fp : Text) (present : Bool) (live : Dict LiveSession)
    → IsMap live
    → IsMap (touch_live fp present live)
unfolding touch_live
touch_live-IsMap fp present live h = elim (Option-cases (lookup fp live)) [
  | inl e ↦ ground arith
  | inr (l, e) ↦ ground (arith, insert-IsMap fp (record l { user_present = present }) live h)
]

-- A connection that comes up, whatever sessions there are, keeps the invariant.
pub session_up-IsConsistent :
    (now : ℕ) (live : LiveSession) (a : Agent)
    → 0 < now
    → IsConsistent a
    → IsConsistent (session_up now live a).0
unfolding session_up put_session
session_up-IsConsistent now live a h c =
    written-IsConsistent (put_session a live now)
      (insert-IsMap live.phone_fp (new_session a live now) a.sessions c.sessions_map)
      (insert-IsMap live.phone_fp live a.live c.live_map)
      (λ fp. put_session-Agree a live now fp h (c.agree fp))

-- A poll of a phone with a live connection keeps the invariant.
pub session_touch-IsConsistent :
    (now : ℕ) (phone : Text) (present : Bool) (a : Agent) (l : LiveSession)
    → lookup phone a.live ≡ some l
    → IsConsistent a
    → IsConsistent (session_touch now phone present a).0
unfolding session_touch put_touch
session_touch-IsConsistent now phone present a l found c =
    written-IsConsistent (put_touch a phone present now)
      (insert-IsMap phone (touched_session phone present now a.sessions) a.sessions c.sessions_map)
      (touch_live-IsMap phone present a.live c.live_map)
      (λ fp. put_touch-Agree a phone fp present now l found (c.agree phone) (c.agree fp))

-- A connection that ends keeps the invariant.
pub session_down-IsConsistent :
    (phone : Text) (a : Agent) → IsConsistent a → IsConsistent (session_down phone a).0
unfolding session_down drop_session
session_down-IsConsistent phone a c =
    written-IsConsistent (drop_session a phone) (delete-IsMap phone a.sessions c.sessions_map)
      (delete-IsMap phone a.live c.live_map) (λ fp. drop_session-Agree a phone fp (c.agree fp))
