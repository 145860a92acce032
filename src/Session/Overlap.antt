-- ===== src/Session/Overlap.antt =====
-- What each operation does to the phone at hand and to the others, and what happens where a phone
-- connects again before its old connection has ended.
use zorin_host_agent.Prelude.{ℕ, ◌≡◌, inl, inr, Bool, false, none, some, arith, Option-cases}
use zorin_host_agent.Text.{Text, text_eq}
use zorin_host_agent.Dict.{lookup}
use zorin_host_agent.Dict.Laws.{lookup-insert, lookup-insert_self, lookup-delete_self}
use zorin_host_agent.Agent.{Agent, Session, LiveSession, zero_session}
use zorin_host_agent.Session.{
  session_up, session_touch, session_down, write_session, write_owner_mode, put_touch, drop_session,
  touch_live, touched_session,
}

-- A poll of a phone with a session keeps its trust and start, whatever the lock state, and leaves
-- the sessions and connections of other phones alone.
pub session_touch-frame :
    (now : ℕ) (phone other : Text) (present : Bool) (a : Agent) (s : Session)
    → lookup phone a.sessions ≡ some s
    → text_eq phone other ≡ false
    → (lookup phone (session_touch now phone present a).0.sessions
        ≡ some (record s { last_seen = now; user_present = present }))
      × (lookup other (session_touch now phone present a).0.sessions ≡ lookup other a.sessions)
      × (lookup other (session_touch now phone present a).0.live ≡ lookup other a.live)
unfolding session_touch write_session write_owner_mode put_touch touched_session touch_live
session_touch-frame now phone other present a s found apart = (
  ground (
    arith,
    lookup-insert_self phone (record s { last_seen = now; user_present = present }) a.sessions,
  ),
  ground (
    arith,
    lookup-insert phone other (record s { last_seen = now; user_present = present }) a.sessions,
  ),
  elim (Option-cases (lookup phone a.live)) [
    | inl e ↦ ground arith
    | inr (l, e) ↦
        ground (arith, lookup-insert phone other (record l { user_present = present }) a.live)
  ],
)

pub down_gone :
    (phone : Text) (a : Agent)
    → (lookup phone (session_down phone a).0.sessions ≡ none)
      × (lookup phone (session_down phone a).0.live ≡ none)
unfolding session_down write_session write_owner_mode drop_session
down_gone phone a = (lookup-delete_self phone a.sessions, lookup-delete_self phone a.live)

touch_missing :
    (now : ℕ) (phone : Text) (present : Bool) (a : Agent)
    → lookup phone a.sessions ≡ none
    → lookup phone a.live ≡ none
    → (lookup phone (session_touch now phone present a).0.sessions
        ≡ some (record zero_session { last_seen = now; user_present = present }))
      × (lookup phone (session_touch now phone present a).0.live ≡ none)
unfolding session_touch write_session write_owner_mode put_touch touched_session touch_live
touch_missing now phone present a h k = (
  ground (
    arith,
    lookup-insert_self phone (record zero_session { last_seen = now; user_present = present })
        a.sessions,
  ),
  ground arith,
)

-- After a connection has come up, the end of an older connection of its phone takes the session
-- and the live entry away, and the next poll of the connection that is still open stores an empty
-- session, not trusted, and no live entry.
pub overlap-loses_session :
    (now later : ℕ) (live : LiveSession) (present : Bool) (a : Agent)
    → (lookup live.phone_fp
          (session_touch later live.phone_fp present
            (session_down live.phone_fp (session_up now live a).0).0).0.sessions
        ≡ some (record zero_session { last_seen = later; user_present = present }))
      × (lookup live.phone_fp
            (session_touch later live.phone_fp present
              (session_down live.phone_fp (session_up now live a).0).0).0.live
          ≡ none)
overlap-loses_session now later live present a =
    touch_missing later live.phone_fp present
      (session_down live.phone_fp (session_up now live a).0).0
      (down_gone live.phone_fp (session_up now live a).0).0
      (down_gone live.phone_fp (session_up now live a).0).1
