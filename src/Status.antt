-- ===== src/Status.antt =====
-- main.go: what `printStatus` says of the state in the files.
pub mod Authority
mod Tests
use zorin_host_agent.Prelude.{
  ℕ, ◌+◌, Bool, false, not, ◌&&◌, ◌||◌, Option, none, some, List, [], ◌∷◌, ltb, ◌==◌, if◌then◌else◌,
  is_empty,
}
use zorin_host_agent.Text.{Text, text}
use zorin_host_agent.Agent.{DaemonHealth, Session}

-- The loop over the sessions of session.json: whether one is trusted, whether one is unlocked, and
-- the first transport of a trusted one.
pub record Scan : Type 0 where
  pub trusted : Bool
  pub present : Bool
  pub transport : Text

unfoldable pub scan_session : Session → Scan → Scan
scan_session s seen = record {
  trusted = seen.trusted || s.trusted;
  present = seen.present || s.user_present;
  transport = if s.trusted && is_empty seen.transport then s.transport else seen.transport;
}

unfoldable pub scan_sessions : List Session → Scan → Scan
scan_sessions [] seen = seen
scan_sessions (s ∷ rest) seen = scan_sessions rest (scan_session s seen)

abbrev pub nothing_seen : Scan
nothing_seen = record { trusted = false; present = false; transport = [] }

-- The sessions of the file; one that is missing is an empty one.
unfoldable pub file_sessions : Option (List Session) → List Session
file_sessions none = []
file_sessions (some sessions) = sessions

-- The health of daemon-health.json, if it is younger than eight seconds.
unfoldable pub is_fresh : ℕ → Option DaemonHealth → Bool
is_fresh now none = false
is_fresh now (some h) = not (h.updated == 0) && ltb now (h.updated + 8_000_000_000)

unfoldable pub is_online : Option DaemonHealth → Bool
is_online none = false
is_online (some h) = not (is_empty h.devices) && not (is_empty h.reverse_ok)

unfoldable pub has_adb : Option DaemonHealth → Bool
has_adb none = false
has_adb (some h) = h.adb_available

-- The four lines of the Trust Center state.
pub record StatusLines : Type 0 where
  pub trust : Text
  pub presence : Text
  pub authority : Text
  pub transport : Text

unfoldable pub transport_line : Scan → ℕ → Option DaemonHealth → Text
transport_line seen now health =
    if not (is_empty seen.transport)
    then seen.transport
    else if is_fresh now health && is_online health
    then text "USB / ADB"
    else if is_fresh now health && has_adb health
    then text "RECOVERING"
    else text "OFFLINE"

-- printStatus
unfoldable pub print_status : ℕ → Option DaemonHealth → Option (List Session) → StatusLines
print_status now health file =
    let seen = scan_sessions (file_sessions file) nothing_seen in
    record {
      trust = if seen.trusted then text "ACTIVE" else text "INACTIVE";
      presence =
          if seen.trusted
          then (if seen.present then text "PRESENT" else text "LOCKED")
          else text "ABSENT";
      authority = if seen.trusted && seen.present then text "ENABLED" else text "SUSPENDED";
      transport = transport_line seen now health;
    }
