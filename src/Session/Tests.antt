-- ===== src/Session/Tests.antt =====
-- The theorems on sessions at a host that a phone connects to.
use zorin_host_agent.Prelude.{◌≡◌, true, none, some}
use zorin_host_agent.Dict.{lookup}
use zorin_host_agent.Agent.{Agent, zero_session}
use zorin_host_agent.Session.{session_up, session_touch, session_down}
use zorin_host_agent.Session.Overlap.{overlap-loses_session}
use zorin_host_agent.Samples.{phone_id, live_phone, served_host}
use zorin_host_agent.Text.{Text}

-- The phone connects twice, the first connection ends, and the second one polls.
abbrev overlapped : Agent
overlapped =
    (session_touch 9 phone_id true
      (session_down phone_id (session_up 8 live_phone served_host).0).0).0

overlap-loses_session_example :
    (lookup phone_id
        (session_touch 9 phone_id true
          (session_down phone_id (session_up 8 live_phone served_host).0).0).0.sessions
      ≡ some (record zero_session { last_seen = 9; user_present = true }))
    × (lookup phone_id
          (session_touch 9 phone_id true
            (session_down phone_id (session_up 8 live_phone served_host).0).0).0.live
        ≡ none)
overlap-loses_session_example = overlap-loses_session 8 9 live_phone true served_host
