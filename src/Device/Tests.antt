-- ===== src/Device/Tests.antt =====
-- The theorems on the device commands, at one paired phone.
use zorin_host_agent.Prelude.{◌≡◌, refl, ◌≢◌, true, false, some, [], ◌∷◌}
use zorin_host_agent.Text.{Text, text, text_eq, to_upper, equal_fold, trim_space, join}
use zorin_host_agent.Text.Hex.{hex_encode, hex_decode}
use zorin_host_agent.Identity.{fingerprint}
use zorin_host_agent.Proof.{protocol_name}
use zorin_host_agent.Dict.{Dict, lookup, delete, get_text}
use zorin_host_agent.Agent.{Config, LiveSession, Agent}
use zorin_host_agent.Connection.{phone_proof_message}
use zorin_host_agent.Connection.Handshake.{
  portable_refusal, check_phone_signature, check_phone_key, check_phone, is_paired, pair_phone,
  authentic, Peer, live_of, admit, handshake,
}
use zorin_host_agent.Device.{device_saved, device_command, device_cli}
use zorin_host_agent.Device.Revoked.{handshake-turns_revoked_away}
use zorin_host_agent.Samples.{toy_crypto, phone_id, live_phone, host}

abbrev one_phone : Config
one_phone = record {
  paired_phones = (phone_id, text "0a0b") ∷ [];
  device_labels = (phone_id, text "Owner phone") ∷ [];
  adb_path = [];
}

abbrev no_phone : Config
no_phone = record { paired_phones = []; device_labels = []; adb_path = [] }

revoked : device_cli (text "revoke") phone_id [] one_phone ≡ device_saved no_phone
unfolding device_cli device_command trim_space text text_eq lookup delete fingerprint hex_encode
    join to_upper
revoked = refl

-- Another phone, which stays paired.
abbrev guest : LiveSession
guest = record live_phone {
  phone_fp = fingerprint toy_crypto.sha256 (10 ∷ 12 ∷ 13 ∷ []);
  phone_der = 10 ∷ 12 ∷ 13 ∷ [];
}

abbrev two_phones : Config
two_phones = record one_phone {
  paired_phones = (phone_id, text "0a0b") ∷ (guest.phone_fp, text "0a0c0d") ∷ [];
}

abbrev guest_host : Agent
guest_host = record (host false) {
  cfg = record {
    paired_phones = (guest.phone_fp, text "0a0c0d") ∷ [];
    device_labels = [];
    adb_path = [];
  };
}

revoked_one : device_cli (text "revoke") phone_id [] two_phones ≡ device_saved guest_host.cfg
unfolding device_cli device_command trim_space text text_eq lookup delete fingerprint hex_encode
    join to_upper
revoked_one = refl

abbrev guest_frame : Dict Text
guest_frame =
    (text "PHONE_PUB", text "0a0c0d")
    ∷ (text "PHONE_NONCE", text "77")
    ∷ (text "PHONE_SIG", text "0a0c0d20")
    ∷ []

abbrev guest_peer : Peer
guest_peer = record {
  conn = 1;
  transport = text "USB / ADB";
  remote_addr = text "127.0.0.1:1";
  host_nonce = text "aa";
  sent = true;
}

guest_taken_on :
    (handshake toy_crypto
      (λ digest. some digest)
      (1 ∷ 2 ∷ [])
      5
      guest_peer
      guest_frame
      guest_host).outcome
    ≡ authentic guest
unfolding handshake portable_refusal check_phone check_phone_key check_phone_signature
    phone_proof_message protocol_name admit pair_phone is_paired live_of get_text lookup text_eq
    text hex_decode hex_encode equal_fold fingerprint join to_upper
guest_taken_on = refl

handshake-turns_revoked_away_example : guest.phone_fp ≢ trim_space phone_id
handshake-turns_revoked_away_example =
    handshake-turns_revoked_away toy_crypto (λ digest. some digest) (1 ∷ 2 ∷ []) 5 guest_peer
      guest_frame guest_host guest phone_id [] two_phones revoked_one refl guest_taken_on
