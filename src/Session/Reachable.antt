-- ===== src/Session/Reachable.antt =====
-- The sessions over a run in which every phone has one connection at a time.
use zorin_host_agent.Prelude.{ℕ, ◌<◌, ◌≡◌, Bool, none, some, []}
use zorin_host_agent.Text.{Text}
use zorin_host_agent.Dict.{lookup}
use zorin_host_agent.Agent.{Agent, LiveSession}
use zorin_host_agent.Session.{session_up, session_touch, session_down, owner_mode_of}
use zorin_host_agent.Session.Invariant.{
  IsConsistent, session_up-IsConsistent, session_touch-IsConsistent, session_down-IsConsistent,
}

-- A connection comes up, polls while it has its session, or ends.
pub data Step : Agent → Agent → Type 0 where
  up : (now : ℕ) (live : LiveSession) (a : Agent) → 0 < now → Step a (session_up now live a).0
  touch :
      (now : ℕ) (phone : Text) (present : Bool) (a : Agent) (l : LiveSession)
      → lookup phone a.live ≡ some l
      → Step a (session_touch now phone present a).0
  down : (phone : Text) (a : Agent) → Step a (session_down phone a).0

pub data Reach (a : Agent) : Agent → Type 0 where
  here : Reach a a
  next : {b c : Agent} → Reach a b → Step b c → Reach a c

-- As `loadAgent` and `runPortable` build the agent, with no file left behind.
pub record IsFresh (a : Agent) : Type 0 where
  pub sessions : a.sessions ≡ []
  pub live : a.live ≡ []
  pub session_file : a.session_file ≡ none
  pub owner_mode : a.owner_mode_file ≡ none

fresh-IsConsistent : (a : Agent) → IsFresh a → IsConsistent a
unfolding owner_mode_of lookup
fresh-IsConsistent a f = record {
  sessions_map = rw f.sessions tt;
  live_map = rw f.live tt;
  agree = λ fp. rw (f.sessions, f.live) tt;
  session_file = rw (f.sessions, f.session_file);
  owner_mode = rw (f.sessions, f.owner_mode);
}

Step-IsConsistent : {a b : Agent} → Step a b → IsConsistent a → IsConsistent b
Step-IsConsistent (up now live a h) c = session_up-IsConsistent now live a h c
Step-IsConsistent (touch now phone present a l h) c =
    session_touch-IsConsistent now phone present a l h c
Step-IsConsistent (down phone a) c = session_down-IsConsistent phone a c

-- From an agent with no sessions and no files, over connections that come up, at times that are
-- not zero, poll while they have a live entry, and end, each phone has a session exactly if it has
-- a live connection, the session is trusted and has the presence of the connection, and both files
-- are up to date.
pub Reach-IsConsistent : {a b : Agent} → IsFresh a → Reach a b → IsConsistent b
Reach-IsConsistent f here = fresh-IsConsistent _ f
Reach-IsConsistent f (next r s) = Step-IsConsistent s (Reach-IsConsistent f r)
