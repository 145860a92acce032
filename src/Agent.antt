-- ===== src/Agent.antt =====
-- main.go: the state that the daemon keeps, and what it writes of it. A time is the number of
-- nanoseconds since the zero time of Go, so that 0 is the time for which `IsZero` holds.
use zorin_host_agent.Prelude.{
  ℕ, Bool, false, ◌&&◌, Option, List, [], ◌∷◌, if◌then◌else◌, is_empty, ℤ,
}
use zorin_host_agent.Text.{Text, trim_space}
use zorin_host_agent.Dict.{Dict}

pub record Config : Type 0 where
  pub paired_phones : Dict Text
  pub device_labels : Dict Text
  pub adb_path : Text

pub record DaemonHealth : Type 0 where
  pub updated : ℕ
  pub adb_path : Text
  pub adb_available : Bool
  pub devices : List Text
  pub reverse_ok : List Text
  pub last_service_start : Text
  pub last_error : Text

pub record EventRecord : Type 0 where
  pub kind : Text
  pub severity : Text
  pub title : Text
  pub detail : Text
  pub phone : Text
  pub user_present : Option Bool

pub record Session : Type 0 where
  pub trusted : Bool
  pub host_fingerprint : Text
  pub phone_fingerprint : Text
  pub since : ℕ
  pub last_seen : ℕ
  pub policy : Text
  pub host_identity_provider : Text
  pub user_present : Bool
  pub transport : Text
  pub remote_addr : Text

-- `result`, a channel of its own for each request, is the number of the caller that waits on it.
pub record ProofRequest : Type 0 where
  pub action : Text
  pub resource : Text
  pub ttl : ℤ
  pub request_id : Text
  pub prompt : Text
  pub explicit : Bool
  pub result : ℕ

-- The entry that `live` points to. `conn` is the number of the connection, and names its queue.
pub record LiveSession : Type 0 where
  pub phone_fp : Text
  pub phone_der : Text
  pub conn : ℕ
  pub user_present : Bool
  pub transport : Text
  pub remote_addr : Text

-- The contents of owner-mode.json that vary.
pub record OwnerMode : Type 0 where
  pub host_fingerprint : Text
  pub phone_fingerprint : Text
  pub identity_provider : Text
  pub since : ℕ
  pub last_seen : ℕ

-- What an operation does beside the change of state: a line of events.jsonl, a hook command, the
-- visual pulse on the phone, config.json written anew, ui-state.json written from the state at hand.
pub data Effect : Type 0 where
  event : EventRecord → Effect
  hook : Text → Effect
  pulse : Effect
  save_config : Config → Effect
  write_ui : Effect

pub record Agent : Type 0 where
  pub host_fp : Text
  pub provider : Text
  pub cfg : Config
  pub pair_once : Bool
  pub on_trust : Text
  pub on_untrust : Text
  pub on_presence : Text
  pub on_absence : Text
  pub portable : Bool
  pub portable_invite : Text
  pub portable_expires : ℕ
  pub sessions : Dict Session
  pub live : Dict LiveSession
  pub last_presence : Dict Bool
  -- the buffered requests of each connection
  pub queues : ℕ → List ProofRequest
  -- session.json and owner-mode.json, where they exist
  pub session_file : Option (List Session)
  pub owner_mode_file : Option OwnerMode

-- Session{}
unfoldable pub zero_session : Session
zero_session = record {
  trusted = false;
  host_fingerprint = [];
  phone_fingerprint = [];
  since = 0;
  last_seen = 0;
  policy = [];
  host_identity_provider = [];
  user_present = false;
  transport = [];
  remote_addr = [];
}

unfoldable pub is_present : Session → Bool
is_present s = s.trusted && s.user_present

-- runHook
unfoldable pub run_hook : Text → List Effect
run_hook command = if is_empty (trim_space command) then [] else hook command ∷ []

unfoldable pub event_of : Text → Text → Text → Text → Text → Option Bool → Effect
event_of kind severity title detail phone present = event (record {
  kind = kind;
  severity = severity;
  title = title;
  detail = detail;
  phone = phone;
  user_present = present;
})
