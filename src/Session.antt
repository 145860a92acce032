-- ===== src/Session.antt =====
-- main.go: `sessionUp`, `sessionTouch`, `sessionDown`, and the two files that follow the sessions.
pub mod Invariant
pub mod Presence
pub mod Reachable
pub mod Interleaved
pub mod Refinement
pub mod Overlap
mod Tests
use zorin_host_agent.Prelude.{
  ℕ, Bool, true, false, not, ◌&&◌, ◌||◌, Option, none, some, List, [], ◌∷◌, ◌++◌, ltb, ◌==◌,
  if◌then◌else◌, is_empty,
}
use zorin_host_agent.Text.{Text, text}
use zorin_host_agent.Dict.{Dict, lookup, insert, delete, any_value, values}
use zorin_host_agent.Agent.{
  Agent, Session, LiveSession, OwnerMode, Effect, pulse, write_ui, zero_session, is_present,
  run_hook, event_of,
}

-- anyPresentLocked
unfoldable pub any_present : Agent → Bool
unfolding is_present
any_present a = any_value is_present a.sessions

-- writeSessionLocked
unfoldable pub write_session : Agent → Agent
write_session a = record a {
  session_file = if is_empty a.sessions then none else some (values a.sessions);
}

-- The body of the loop of `writeOwnerModeLocked`.
unfoldable pub newer_present : Session → Session → Session
newer_present newest s =
    if not s.user_present
    then newest
    else if newest.since == 0 || ltb newest.last_seen s.last_seen
    then s
    else newest

-- The loop: the present session that was seen last.
unfoldable pub newest_present : Session → List Session → Session
newest_present newest [] = newest
newest_present newest (s ∷ rest) = newest_present (newer_present newest s) rest

unfoldable pub owner_mode_of : Agent → Option OwnerMode
unfolding zero_session
owner_mode_of a =
    let newest = newest_present zero_session (values a.sessions) in
    if is_empty a.sessions
    then none
    else if newest.since == 0
    then none
    else some (record {
      host_fingerprint = a.host_fp;
      phone_fingerprint = newest.phone_fingerprint;
      identity_provider = a.provider;
      since = newest.since;
      last_seen = newest.last_seen;
    })

-- writeOwnerModeLocked
unfoldable pub write_owner_mode : Agent → Agent
write_owner_mode a = record a { owner_mode_file = owner_mode_of a }

unfoldable pub new_session : Agent → LiveSession → ℕ → Session
new_session a live now = record {
  trusted = true;
  host_fingerprint = a.host_fp;
  phone_fingerprint = live.phone_fp;
  since = now;
  last_seen = now;
  policy = text "owner-workstation";
  host_identity_provider = a.provider;
  user_present = live.user_present;
  transport = live.transport;
  remote_addr = live.remote_addr;
}

-- The hooks at a change of the owner's presence: `sessionUp` has the first alone.
unfoldable pub presence_gained : Agent → Bool → Bool → List Effect
presence_gained a before after = if not before && after then run_hook a.on_presence else []

unfoldable pub presence_lost : Agent → Bool → Bool → List Effect
presence_lost a before after = if before && not after then run_hook a.on_absence else []

-- The state under the lock of `sessionUp`.
unfoldable pub put_session : Agent → LiveSession → ℕ → Agent
put_session a live now = record a {
  live = insert live.phone_fp live a.live;
  sessions = insert live.phone_fp (new_session a live now) a.sessions;
}

unfoldable pub session_up : ℕ → LiveSession → Agent → Agent × List Effect
session_up now live a =
    let a' = write_owner_mode (write_session (put_session a live now)) in
    (
      a',
      (write_ui
            ∷ event_of (text "device-trust") (text "success") (text "Device trust established")
                (text "Mutual ZTRUST/2 authentication succeeded.") live.phone_fp
                (some live.user_present)
            ∷ pulse
            ∷ [])
          ++ ((if is_empty a.sessions then run_hook a.on_trust else [])
              ++ presence_gained a (any_present a) (any_present a')),
    )

-- The entry of the map `live`, if there is one, changed in place.
unfoldable pub touch_live : Text → Bool → Dict LiveSession → Dict LiveSession
touch_live fp present live = elim (lookup fp live) [
  | none ↦ live
  | some l ↦ insert fp (record l { user_present = present }) live
]

-- A missing session reads as `Session{}` and is stored all the same.
unfoldable pub touched_session : Text → Bool → ℕ → Dict Session → Session
touched_session fp present now sessions = elim (lookup fp sessions) [
  | none ↦ record zero_session { last_seen = now; user_present = present }
  | some s ↦ record s { last_seen = now; user_present = present }
]

unfoldable pub put_touch : Agent → Text → Bool → ℕ → Agent
put_touch a fp present now = record a {
  last_presence = insert fp present a.last_presence;
  live = touch_live fp present a.live;
  sessions = insert fp (touched_session fp present now a.sessions) a.sessions;
}

-- `!hadOld || old != userPresent`
unfoldable pub presence_news : Option Bool → Bool → Bool
presence_news none present = true
presence_news (some true) present = not present
presence_news (some false) present = present

unfoldable pub presence_event : Text → Bool → Effect
presence_event fp present =
    if present
    then event_of (text "owner-presence") (text "success") (text "Owner presence restored")
        (text "Phone unlocked; owner-authorized actions are enabled.") fp (some present)
    else event_of (text "owner-presence") (text "info") (text "Owner authority suspended")
        (text "Phone locked; device trust remains active, owner proofs are denied.") fp
        (some present)

unfoldable pub session_touch : ℕ → Text → Bool → Agent → Agent × List Effect
session_touch now fp present a =
    let a' = write_owner_mode (write_session (put_touch a fp present now)) in
    (
      a',
      (write_ui
            ∷ (if presence_news (lookup fp a.last_presence) present
                then presence_event fp present ∷ []
                else []))
          ++ (presence_gained a (any_present a) (any_present a')
              ++ presence_lost a (any_present a) (any_present a')),
    )

unfoldable pub drop_session : Agent → Text → Agent
drop_session a fp = record a {
  sessions = delete fp a.sessions;
  live = delete fp a.live;
  last_presence = delete fp a.last_presence;
}

unfoldable pub session_down : Text → Agent → Agent × List Effect
session_down fp a =
    let a' = write_owner_mode (write_session (drop_session a fp)) in
    (
      a',
      write_ui
          ∷ event_of (text "device-trust-lost") (text "info") (text "Device trust ended")
              (text "Authenticated transport session ended.") fp none
          ∷ (presence_lost a (any_present a) (any_present a')
              ++ (if is_empty a'.sessions then run_hook a.on_untrust else [])),
    )
