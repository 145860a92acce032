-- ===== src/Startup/Load.antt =====
-- main.go: `loadAgent`, `saveConfig` and `writeHostInfo`.
pub mod Restart
mod Tests
use zorin_host_agent.Prelude.{Bool, false, Option, none, some, List, [], ◌∷◌}
use zorin_host_agent.Text.{Text, text, trim_space}
use zorin_host_agent.Files.{Files, join_path, read_file, write_file}
use zorin_host_agent.Agent.{Config, Session, OwnerMode, Agent}
use zorin_host_agent.Identity.{fingerprint, pair_code}
use zorin_host_agent.HostIdentity.{HostIdentity, public_der, provider_of}
use zorin_host_agent.Proof.{protocol_name}
use zorin_host_agent.Policy.Store.{PolicyCodec, ensure_policy}
use zorin_host_agent.Startup.{ensure_control_token}

-- encoding/json on config.json: what Unmarshal makes of an empty configuration, whose maps it leaves
-- where it fails, and what MarshalIndent writes.
pub record ConfigCodec : Type 0 where
  pub parse : Text → Config
  pub marshal : Config → Text

abbrev pub empty_config : Config
empty_config = record { paired_phones = []; device_labels = []; adb_path = [] }

-- encoding/json on session.json and owner-mode.json, as the other commands read what these files hold.
pub record StateCodec : Type 0 where
  pub parse_sessions : Text → List Session
  pub parse_owner_mode : Text → OwnerMode

unfoldable pub session_path : Text → Text
session_path dir = join_path dir (text "session.json")

unfoldable pub owner_mode_path : Text → Text
owner_mode_path dir = join_path dir (text "owner-mode.json")

unfoldable pub stored_sessions : StateCodec → Text → Files → Option (List Session)
stored_sessions state dir fs = elim (read_file (session_path dir) fs) [
  | none ↦ none
  | some bytes ↦ some (state.parse_sessions bytes)
]

unfoldable pub stored_owner_mode : StateCodec → Text → Files → Option OwnerMode
stored_owner_mode state dir fs = elim (read_file (owner_mode_path dir) fs) [
  | none ↦ none
  | some bytes ↦ some (state.parse_owner_mode bytes)
]

unfoldable pub config_path : Text → Text
config_path dir = join_path dir (text "config.json")

unfoldable pub load_config : ConfigCodec → Text → Files → Config
load_config codec dir fs = elim (read_file (config_path dir) fs) [
  | none ↦ empty_config
  | some bytes ↦ codec.parse bytes
]

-- saveConfig: whether it is written.
unfoldable pub save_config_file : ConfigCodec → Text → Config → Files → Files × Bool
save_config_file codec dir cfg fs = write_file (config_path dir) (codec.marshal cfg) fs

-- The agent as a start makes it. `sessions` and `owner_mode` are what session.json and
-- owner-mode.json hold then.
unfoldable pub agent_of :
    (Text → Text) → HostIdentity → Config → Option (List Session) → Option OwnerMode → Agent
agent_of sha256 id cfg sessions owner_mode = record {
  host_fp = fingerprint sha256 (public_der id);
  provider = provider_of id;
  cfg = cfg;
  pair_once = false;
  on_trust = [];
  on_untrust = [];
  on_presence = [];
  on_absence = [];
  portable = false;
  portable_invite = [];
  portable_expires = 0;
  sessions = [];
  live = [];
  last_presence = [];
  queues = λ conn. [];
  session_file = sessions;
  owner_mode_file = owner_mode;
}

-- The agent, its control token and the path of adb.
pub record Loaded : Type 0 where
  pub agent : Agent
  pub control_token : Text
  pub adb_path : Text

-- loadAgent in the state directory: `load_identity` is loadHostIdentity, and `fresh` is random text.
-- The error of ensurePolicy is ignored.
unfoldable pub load_agent :
    (Text → Text)
    → ConfigCodec
    → PolicyCodec
    → StateCodec
    → (Files → Files × Option HostIdentity)
    → Text
    → Text
    → Files
    → Files × Option Loaded
load_agent sha256 codec policy state load_identity dir fresh fs =
    let (fs1, identity) = load_identity fs in
    let cfg = load_config codec dir fs1 in
    let (fs2, token) = ensure_control_token dir fresh fs1 in
    let (fs3, _) = ensure_policy policy dir fs2 in
    elim identity [
      | none ↦ (fs1, none)
      | some id ↦ elim token [
        | none ↦ (fs2, none)
        | some t ↦ (
          fs3,
          some (record {
            agent =
                agent_of sha256 id cfg (stored_sessions state dir fs3)
                  (stored_owner_mode state dir fs3);
            control_token = t;
            adb_path = trim_space cfg.adb_path;
          }),
        )
      ]
    ]

-- The contents of host-info.json that vary, as writeHostInfo writes them.
unfoldable pub host_info : Agent → List (Text × Text)
host_info a =
    (text "host_fingerprint", a.host_fp)
    ∷ (text "identity_provider", a.provider)
    ∷ (text "protocol", protocol_name)
    ∷ (text "pair_verification", pair_code a.host_fp)
    ∷ []
