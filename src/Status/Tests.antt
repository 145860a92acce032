-- ===== src/Status/Tests.antt =====
-- The status of a few sessions.
use zorin_host_agent.Prelude.{◌≡◌, refl, true, false, none, some, List, [], ◌∷◌, any}
use zorin_host_agent.Text.{text}
use zorin_host_agent.Agent.{Session, zero_session, is_present}
use zorin_host_agent.Status.{scan_session, scan_sessions, file_sessions, print_status}

-- A session that is unlocked but not trusted, as the end of an older connection leaves it, and a
-- trusted one that is locked: the status says that the owner's actions are enabled.
abbrev leftover : List Session
leftover =
    record zero_session { user_present = true }
    ∷ record zero_session { trusted = true; since = 7 }
    ∷ []

mixed_sessions : (print_status 9 none (some leftover)).authority ≡ text "ENABLED"
unfolding print_status scan_sessions scan_session file_sessions zero_session
mixed_sessions = refl

not_present : any is_present leftover ≡ false
unfolding is_present zero_session
not_present = refl
