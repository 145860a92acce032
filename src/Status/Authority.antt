-- ===== src/Status/Authority.antt =====
-- That the status command and the daemon's files agree.
use zorin_host_agent.Prelude.{◌≡◌, Bool, ◌||◌, List, [], ◌∷◌, arith, any}
use zorin_host_agent.Agent.{Session, Agent}
use zorin_host_agent.Status.{Scan, scan_session, scan_sessions}
use zorin_host_agent.Text.{Text}
use zorin_host_agent.Dict.{Dict}

abbrev pub is_trusted : Session → Bool
is_trusted s = s.trusted

abbrev pub is_unlocked : Session → Bool
is_unlocked s = s.user_present

pub scan_sessions_lem :
    (ss : List Session) (seen : Scan)
    → ((scan_sessions ss seen).trusted ≡ (seen.trusted || any is_trusted ss))
      × ((scan_sessions ss seen).present ≡ (seen.present || any is_unlocked ss))
unfolding scan_sessions scan_session
scan_sessions_lem [] seen = (ground arith, ground arith)
scan_sessions_lem (s ∷ ss) seen =
    let (t, p) = scan_sessions_lem ss (scan_session s seen) in
    (ground (arith, t), ground (arith, p))
