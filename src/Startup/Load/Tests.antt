-- ===== src/Startup/Load/Tests.antt =====
-- A start on concrete files.
use zorin_host_agent.Prelude.{
  ◌≡◌, refl, ◌≢◌, true, false, ◌&&◌, none, some, List, [], ◌∷◌, ◌++◌, arith, if◌then◌else◌, any,
}
use zorin_host_agent.Dict.{insert}
use zorin_host_agent.Files.{join_path}
use zorin_host_agent.Samples.{
  toy_crypto, host_key, terminal_policy, sign_toy, sample_peer, sample_frame,
}
use zorin_host_agent.Text.{Text, text, trim_space, text_eq}
use zorin_host_agent.Dict.{lookup, insert}
use zorin_host_agent.Files.{Files, read_file, write_file, join_path}
use zorin_host_agent.Frame.{newline}
use zorin_host_agent.Agent.{Session, zero_session}
use zorin_host_agent.HostIdentity.{legacy}
use zorin_host_agent.Policy.{PolicyConfig}
use zorin_host_agent.Policy.Store.{
  PolicyCodec, write_policy, write_then, stored_policy, ensure_policy, policy_path,
}
use zorin_host_agent.Control.{ControlResponse, answer, authorize_request}
use zorin_host_agent.Status.{scan_session, scan_sessions, file_sessions, print_status}
use zorin_host_agent.Startup.{token_path, stored_token, ensure_control_token}
use zorin_host_agent.Startup.Load.{
  ConfigCodec, StateCodec, session_path, owner_mode_path, stored_sessions, stored_owner_mode,
  config_path, empty_config, load_config, agent_of, Loaded, load_agent,
}
use zorin_host_agent.Connection.Handshake.Pairing.{after_handshakes}
use zorin_host_agent.Status.Authority.{is_trusted, is_unlocked}
use zorin_host_agent.Startup.Load.Restart.{load_agent-no_grant}

abbrev drawn : Text
drawn = text "0123456789abcdef0123456789abcdef"

abbrev config_toy : ConfigCodec
config_toy = record {
  parse = λ bytes. record empty_config { adb_path = bytes };
  marshal = λ cfg. cfg.adb_path;
}

nothing_decoded : (cfg : PolicyConfig) → none ≢ some cfg
nothing_decoded cfg h = ground arith

nothing_encoded : (raw : Text) → none ≢ some raw
nothing_encoded raw h = ground arith

-- A codec that encodes nothing, so that policy.json is not written, which a start ignores.
abbrev policy_toy : PolicyCodec
policy_toy = record {
  is_valid = λ s. true;
  marshal = λ cfg. none;
  unmarshal = λ raw. none;
  ascii_is_valid = λ s h. refl;
  decodes_valid = λ raw cfg h. absurd (nothing_decoded cfg h);
  round_trip = λ cfg raw h k. absurd (nothing_encoded raw k);
}

-- What a run that was killed has left.
abbrev left_over : List Session
left_over = record zero_session { trusted = true; user_present = true } ∷ []

abbrev state_toy : StateCodec
state_toy = record {
  parse_sessions = λ bytes. left_over;
  parse_owner_mode = λ bytes. record {
    host_fingerprint = [];
    phone_fingerprint = [];
    identity_provider = [];
    since = 7;
    last_seen = 7;
  };
}

abbrev left_files : Files
left_files = record {
  contents = (session_path (text "s"), text "[..]") ∷ [];
  writable = λ path. true;
}

abbrev after_start : Files
after_start = (write_file (token_path (text "s")) (drawn ++ newline ∷ []) left_files).0

abbrev restarted : Loaded
restarted = record {
  agent = agent_of toy_crypto.sha256 (legacy host_key) empty_config (some left_over) none;
  control_token = drawn;
  adb_path = [];
}

starts :
    load_agent toy_crypto.sha256 config_toy policy_toy state_toy
      (λ fs. (fs, some (legacy host_key)))
      (text "s")
      drawn
      left_files
    ≡ (after_start, some restarted)
unfolding load_agent load_config ensure_control_token stored_token ensure_policy stored_policy
    write_then write_policy read_file lookup write_file trim_space insert text_eq token_path
    join_path text policy_path stored_sessions stored_owner_mode session_path owner_mode_path
    config_path
starts = refl

load_agent-no_grant_example :
    let last_run = file_sessions (stored_sessions state_toy (text "s") left_files) in
    let b =
      after_handshakes toy_crypto sign_toy host_key
        ((5, sample_peer, sample_frame) ∷ [])
        (record restarted.agent { pair_once = true }) in
    ((r : ControlResponse) × ((authorize_request terminal_policy b
          (text "ops.terminal")
          (text "vps:1")
          (text "open")
          (text "r1")
          false
          (text "r2")
          4).0
        ≡ answer r)
      × (r.allowed ≡ false))
    × ((print_status 9 none restarted.agent.session_file).trust
        ≡ (if any is_trusted last_run then text "ACTIVE" else text "INACTIVE"))
    × ((print_status 9 none restarted.agent.session_file).authority ≡ (
        if any is_trusted last_run && any is_unlocked last_run
        then text "ENABLED"
        else text "SUSPENDED"))
load_agent-no_grant_example =
    load_agent-no_grant toy_crypto.sha256 config_toy policy_toy state_toy
      (λ fs. (fs, some (legacy host_key))) (text "s") drawn toy_crypto sign_toy host_key left_files
      after_start restarted true ((5, sample_peer, sample_frame) ∷ []) terminal_policy
      (text "ops.terminal") (text "vps:1") (text "open") (text "r1") (text "r2") false 4 9 none refl
      starts

-- The status after it: the owner's actions are called enabled.
stale_status : (print_status 9 none restarted.agent.session_file).authority ≡ text "ENABLED"
unfolding print_status scan_sessions scan_session file_sessions zero_session agent_of
stale_status = refl
