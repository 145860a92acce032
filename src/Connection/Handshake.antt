-- ===== src/Connection/Handshake.antt =====
-- main.go: `handle` from the phone's frame to `AUTH OK`.
pub mod Authentic
pub mod Pairing
use zorin_host_agent.Prelude.{
  ℕ, Bool, true, false, not, ◌&&◌, ◌||◌, Option, none, some, List, [], ◌∷◌, ltb, ◌==◌,
  if◌then◌else◌, is_empty,
}
use zorin_host_agent.Text.{Text, text, text_eq, equal_fold, trim_space}
use zorin_host_agent.Text.Hex.{hex_encode, hex_decode}
use zorin_host_agent.Dict.{Dict, lookup, insert, get_text}
use zorin_host_agent.Crypto.{unreadable, ecdsa, other_kind, Crypto}
use zorin_host_agent.Identity.{fingerprint}
use zorin_host_agent.Agent.{Config, LiveSession, Effect, save_config, Agent, event_of}
use zorin_host_agent.Connection.{phone_proof_message, host_proof_message, field, auth_fail}

-- The checks of a portable host: the reason of a refusal, if there is one.
unfoldable pub portable_refusal : ℕ → Agent → Dict Text → Option Text
portable_refusal now a frame =
    let invite = trim_space (get_text (text "INVITE") frame) in
    if not a.portable
    then none
    else if not (a.portable_expires == 0) && ltb a.portable_expires now
    then some (text "portable-invite-expired")
    else if is_empty invite || not (text_eq invite a.portable_invite)
    then some (text "portable-invite")
    else none

-- A frame's key and signature: refused with these lines, or proven, with the key's DER form.
pub data Checked : Type 0 where
  refused : List Text → Checked
  proven : Text → Checked

module _ (crypto : Crypto) where
  -- From the signature on.
  unfoldable pub check_phone_signature : Text → Text → Text → Text → Checked
  check_phone_signature message der key sig_hex = elim (hex_decode sig_hex) [
    | none ↦ refused []
    | some sig ↦
        if crypto.verify key (crypto.sha256 message) sig
        then proven der
        else refused (auth_fail (text "bad-phone-signature"))
  ]

  unfoldable pub check_phone_key : Text → Text → Text → Checked
  check_phone_key message pub_hex sig_hex = elim (hex_decode pub_hex) [
    | none ↦ refused (auth_fail (text "phone-pub"))
    | some der ↦ elim (crypto.parse_key der) [
      | unreadable e ↦ refused (auth_fail (text "phone-pub"))
      | other_kind ↦ refused (auth_fail (text "phone-key-type"))
      | ecdsa key ↦ check_phone_signature message der key sig_hex
    ]
  ]

  -- The checks of the frame against the nonce and the key of this host.
  unfoldable pub check_phone : Text → Text → Dict Text → Checked
  check_phone host_nonce host_pub frame =
      let pub_hex = get_text (text "PHONE_PUB") frame in
      let phone_nonce = get_text (text "PHONE_NONCE") frame in
      let sig_hex = get_text (text "PHONE_SIG") frame in
      if is_empty pub_hex || is_empty phone_nonce || is_empty sig_hex
      then refused (auth_fail (text "malformed"))
      else check_phone_key
          (phone_proof_message host_nonce phone_nonce (hex_encode host_pub) pub_hex) pub_hex sig_hex

-- `paired`: the fingerprint is enrolled, with this key.
unfoldable pub is_paired : Config → Text → Text → Bool
is_paired cfg fp pub_hex = elim (lookup fp cfg.paired_phones) [
  | none ↦ false
  | some hex ↦ equal_fold hex pub_hex
]

-- The configuration after an enrollment.
unfoldable pub enroll : Text → Text → Config → Config
enroll fp pub_hex cfg = record cfg {
  paired_phones = insert fp pub_hex cfg.paired_phones;
  device_labels =
      if is_empty (get_text fp cfg.device_labels)
      then insert fp (text "Owner phone") cfg.device_labels
      else cfg.device_labels;
}

-- The part under the lock: whether the phone is paired in the end, the agent, the effects.
unfoldable pub pair_phone : Text → Text → Agent → Bool × Agent × List Effect
pair_phone fp pub_hex a =
    if is_paired a.cfg fp pub_hex
    then (true, a, [])
    else if a.pair_once
    then (
      true,
      record a { cfg = enroll fp pub_hex a.cfg; pair_once = false },
      save_config (enroll fp pub_hex a.cfg)
          ∷ event_of (text "paired") (text "success") (text "Phone paired")
              (text "Owner workstation enrollment completed.") fp none
          ∷ [],
    )
    else (false, a, [])

-- The end of a handshake: closed, or a connection that is authentic.
pub data Outcome : Type 0 where
  closed : Outcome
  authentic : LiveSession → Outcome

-- What a connection brings with it.
pub record Peer : Type 0 where
  pub conn : ℕ
  pub transport : Text
  pub remote_addr : Text
  pub host_nonce : Text
  -- whether the lines of AUTH OK are sent without an error
  pub sent : Bool

unfoldable pub initial_presence : Dict Text → Bool
initial_presence frame = not (equal_fold (get_text (text "PHONE_STATE") frame) (text "LOCKED"))

unfoldable pub live_of : Peer → Dict Text → Text → Text → LiveSession
unfolding initial_presence
live_of peer frame fp der = record {
  phone_fp = fp;
  phone_der = der;
  conn = peer.conn;
  user_present = initial_presence frame;
  transport = peer.transport;
  remote_addr = peer.remote_addr;
}

unfoldable pub auth_ok : Text → Agent → Text → List Text
auth_ok host_sig a fp =
    text "AUTH OK"
    ∷ field (text "HOST_SIG") (hex_encode host_sig)
    ∷ field (text "HOST_FINGERPRINT") a.host_fp
    ∷ field (text "PHONE_FINGERPRINT") fp
    ∷ text "POLICY owner-workstation"
    ∷ text "PROOF_PROTOCOL ZOWNER/1"
    ∷ text "END"
    ∷ []

-- The agent, the effects, the lines that are sent, and the end of it.
pub record Handled : Type 0 where
  pub agent : Agent
  pub effects : List Effect
  pub sent : List Text
  pub outcome : Outcome

unfoldable pub closed_with : Agent → List Effect → List Text → Handled
closed_with a effects lines = record {
  agent = a;
  effects = effects;
  sent = lines;
  outcome = closed;
}

-- `sign` is the host identity's SignDigest; `host_pub` its public key.
module _ (crypto : Crypto) (sign : Text → Option Text) (host_pub : Text) where
  -- From the check of the signature on.
  unfoldable pub admit : Peer → Dict Text → Text → Agent → Handled
  admit peer frame der a =
      let pub_hex = get_text (text "PHONE_PUB") frame in
      let fp = fingerprint crypto.sha256 der in
      let (paired, a', effects) = pair_phone fp pub_hex a in
      let message =
        host_proof_message peer.host_nonce (get_text (text "PHONE_NONCE") frame)
          (hex_encode host_pub) pub_hex in
      if not paired
      then closed_with a' effects
          (text "AUTH PAIR_REQUIRED" ∷ field (text "PHONE_FINGERPRINT") fp ∷ text "END" ∷ [])
      else elim (sign (crypto.sha256 message)) [
        | none ↦ closed_with a' effects []
        | some host_sig ↦ record {
          agent = a';
          effects = effects;
          sent = auth_ok host_sig a' fp;
          outcome = if peer.sent then authentic (live_of peer frame fp der) else closed;
        }
      ]

  -- The handshake of a connection whose frame is read.
  unfoldable pub handshake : ℕ → Peer → Dict Text → Agent → Handled
  handshake now peer frame a = elim (portable_refusal now a frame) [
    | some reason ↦ closed_with a [] (auth_fail reason)
    | none ↦ elim (check_phone crypto peer.host_nonce host_pub frame) [
      | refused lines ↦ closed_with a [] lines
      | proven der ↦ admit peer frame der a
    ]
  ]
