-- ===== src/Samples.antt =====
-- Concrete data that the tests share: a toy cryptography, a host, a phone and its frame.
use zorin_host_agent.Prelude.{
  ◌%◌, ◌≡◌, refl, Bool, true, false, Option, none, some, [], ◌∷◌, ◌++◌, length, pos,
}
use zorin_host_agent.Text.{Text, text, text_eq, to_upper, equal_fold, trim_space, join}
use zorin_host_agent.Text.Hex.{hex_encode}
use zorin_host_agent.Crypto.{ecdsa, Crypto}
use zorin_host_agent.Identity.{fingerprint}
use zorin_host_agent.Agent.{ProofRequest, LiveSession, Agent}
use zorin_host_agent.Session.{session_up, write_session, write_owner_mode, new_session, put_session}
use zorin_host_agent.Policy.{
  PolicyConfig, match_policy, rule_matches, decide_rule, evaluate_rules, evaluate_policy,
}
use zorin_host_agent.Policy.Defaults.{rule_of}
use zorin_host_agent.Glob.{path_match}
use zorin_host_agent.Dict.{lookup, insert, values, Dict}
use zorin_host_agent.Control.{
  choose_live, is_live_present, ask, proof_ttl, ask_phone, authorize_request,
}
use zorin_host_agent.Connection.Handshake.{Peer}

-- A signature is the key, followed by the digest, which is one byte.
abbrev pub toy_crypto : Crypto
toy_crypto = record {
  sha256 = λ s. (length s % 256) ∷ [];
  parse_key = λ der. ecdsa der;
  verify = λ key digest signature. text_eq signature (key ++ digest);
  hex_error = λ s. text "invalid";
}

abbrev pub phone_der : Text
phone_der = 10 ∷ 11 ∷ []

abbrev pub phone_hex : Text
phone_hex = hex_encode phone_der

-- The digest is of two bytes.
abbrev pub phone_id : Text
phone_id = fingerprint (λ s. (length s % 256) ∷ []) phone_der

-- A phone's live connection, unlocked, the first one.
abbrev pub live_phone : LiveSession
live_phone = record {
  phone_fp = phone_id;
  phone_der = phone_der;
  conn = 1;
  user_present = true;
  transport = text "USB / ADB";
  remote_addr = text "127.0.0.1:1";
}

abbrev pub sign_toy : Text → Option Text
sign_toy digest = some digest

abbrev pub host_key : Text
host_key = 1 ∷ 2 ∷ []

abbrev pub sample_peer : Peer
sample_peer = record {
  conn = 1;
  transport = text "USB / ADB";
  remote_addr = text "127.0.0.1:1";
  host_nonce = text "aa";
  sent = true;
}

abbrev pub sample_frame : Dict Text
sample_frame =
    (text "PHONE_PUB", text "0a0b")
    ∷ (text "PHONE_NONCE", text "77")
    ∷ (text "PHONE_SIG", text "0a0b1e")
    ∷ []

-- A host with no phone, its window open or shut.
abbrev pub host : Bool → Agent
host window = record {
  host_fp = text "H0";
  provider = text "legacy-pem/software";
  cfg = record { paired_phones = []; device_labels = []; adb_path = [] };
  pair_once = window;
  on_trust = [];
  on_untrust = [];
  on_presence = text "notify";
  on_absence = [];
  portable = false;
  portable_invite = [];
  portable_expires = 0;
  sessions = [];
  live = [];
  last_presence = [];
  queues = λ conn. [];
  session_file = none;
  owner_mode_file = none;
}

-- The host with the phone's connection.
abbrev pub served_host : Agent
served_host = (session_up 7 live_phone (host false)).0

abbrev pub sample_request : ProofRequest
sample_request = record {
  action = text "ops.terminal";
  resource = text "vps:1";
  ttl = pos 45;
  request_id = text "r1";
  prompt = text "open";
  explicit = false;
  result = 4;
}

-- The owner may open a terminal with the phone unlocked.
abbrev pub terminal_policy : PolicyConfig
terminal_policy = record {
  version = pos 8;
  default_effect = text "deny";
  rules = rule_of "ops.terminal" "vps:*" "allow" true true false 45 ∷ [];
}

-- A client's request for a terminal goes to the phone.
pub terminal_asked :
    (authorize_request terminal_policy served_host
      (text "ops.terminal")
      (text "vps:1")
      (text "open")
      (text "r1")
      false
      (text "fresh")
      4).0
    ≡ ask live_phone sample_request
unfolding authorize_request ask_phone text trim_space evaluate_policy evaluate_rules rule_matches
    match_policy path_match decide_rule choose_live values session_up put_session write_session
    write_owner_mode fingerprint hex_encode join to_upper insert lookup proof_ttl is_live_present
    text_eq equal_fold rule_of new_session
terminal_asked = refl
