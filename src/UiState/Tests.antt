-- ===== src/UiState/Tests.antt =====
-- The theorems on the state that is shown, at a host that a phone is connected to.
use zorin_host_agent.Prelude.{refl, false, [], arith}
use zorin_host_agent.Agent.{DaemonHealth}
use zorin_host_agent.Session.Invariant.{IsConsistent}
use zorin_host_agent.Session.Reachable.{up, here, next, Reach-IsConsistent}
use zorin_host_agent.Samples.{live_phone, host, served_host}

abbrev health : DaemonHealth
health = record {
  updated = 0;
  adb_path = [];
  adb_available = false;
  devices = [];
  reverse_ok = [];
  last_service_start = [];
  last_error = [];
}

served-IsConsistent : IsConsistent served_host
served-IsConsistent =
    Reach-IsConsistent
      (record { sessions = refl; live = refl; session_file = refl; owner_mode = refl })
      (next here (up 7 live_phone (host false) (omega arith)))
