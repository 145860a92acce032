-- ===== src/Portable/Tests.antt =====
-- A portable host on concrete data.
use zorin_host_agent.Prelude.{◌+◌, ◌*◌, ◌≤◌, ◌≡◌, refl, true, some, [], ◌∷◌, pos}
use zorin_host_agent.Samples.{
  toy_crypto, phone_der, phone_id, live_phone, sign_toy, host_key, sample_peer, sample_frame,
}
use zorin_host_agent.Text.{
  Text, text, text_eq, equal_fold, has_prefix, contains_byte, cut, trim_space, to_upper, join,
}
use zorin_host_agent.Text.Hex.{hex_encode, hex_decode}
use zorin_host_agent.Net.{split_host_port}
use zorin_host_agent.Dict.{Dict, lookup, insert, get_text}
use zorin_host_agent.Agent.{Agent}
use zorin_host_agent.Proof.{protocol_name}
use zorin_host_agent.Connection.{phone_proof_message}
use zorin_host_agent.Connection.Handshake.{
  portable_refusal, check_phone_signature, check_phone_key, check_phone, is_paired, enroll,
  pair_phone, authentic, live_of, admit, handshake,
}
use zorin_host_agent.Connection.Handshake.Authentic.{IsProven}
use zorin_host_agent.Connection.Handshake.Pairing.{after_handshakes}
use zorin_host_agent.HostIdentity.{ephemeral, KeyLibrary, new_ephemeral_identity}
use zorin_host_agent.Portable.Bootstrap.{Invitation}
use zorin_host_agent.Portable.Run.{
  parse_digits, atoi, PortableFlags, PortableSystem, bad_port, failed_start, started, minute,
  portable_ttl, portable_agent, trust_port_of, bootstrap_error, start_portable, run_portable,
}
use zorin_host_agent.Portable.Run.Admits.{run_portable-IsInvited, run_portable-one_phone}
use zorin_host_agent.Identity.{fingerprint}

abbrev flags : PortableFlags
flags = record {
  listen = text " 0.0.0.0:47482 ";
  bootstrap = text "0.0.0.0:47476";
  ttl = pos 900_000_000_000;
  proof_out = [];
}

-- A key is its public form.
abbrev toy_keys : KeyLibrary
toy_keys = record {
  parse_private = λ s. some s;
  marshal_private = λ s. some s;
  public_of = λ s. some s;
  pem_decode = λ s. some s;
  pem_encode = λ s. s;
}

abbrev system : PortableSystem
system = record {
  generated = some host_key;
  state_dir = some (text "/tmp/p");
  now = 1000;
  invite = text "abcd";
  can_listen = λ addr. true;
}

abbrev portable_host : Agent
portable_host = portable_agent toy_crypto.sha256 (ephemeral host_key) (text "abcd") 900_000_001_000

abbrev invitation : Invitation
invitation = record { trust_port = 47482; expires = 900_000_001_000; invite = text "abcd" }

starts :
    run_portable toy_keys toy_crypto.sha256 system flags
    ≡ started portable_host invitation (text "0.0.0.0:47482")
unfolding run_portable portable_ttl new_ephemeral_identity start_portable portable_agent
    trust_port_of atoi parse_digits bootstrap_error split_host_port trim_space cut has_prefix
    contains_byte text
starts = refl

bad_port_refused :
    run_portable toy_keys toy_crypto.sha256 system (record flags { listen = text "0.0.0.0:99999" })
    ≡ failed_start bad_port
unfolding run_portable portable_ttl new_ephemeral_identity start_portable portable_agent
    trust_port_of atoi parse_digits bootstrap_error split_host_port trim_space cut has_prefix
    contains_byte text
bad_port_refused = refl

abbrev invited_frame : Dict Text
invited_frame = (text "INVITE", text "abcd") ∷ sample_frame

taken_on :
    (handshake toy_crypto sign_toy host_key 5 sample_peer invited_frame portable_host).outcome
    ≡ authentic live_phone
unfolding handshake portable_refusal check_phone check_phone_key check_phone_signature
    phone_proof_message protocol_name admit pair_phone is_paired live_of get_text lookup text_eq
    text hex_decode hex_encode equal_fold portable_agent trim_space
taken_on = refl

run_portable-IsInvited_example :
    (trim_space (get_text (text "INVITE") invited_frame) ≡ text "abcd")
    × (5 ≤ 1000 + 60 * minute)
    × IsProven toy_crypto (text "aa") host_key invited_frame phone_der
run_portable-IsInvited_example =
    run_portable-IsInvited toy_crypto sign_toy host_key toy_keys system flags portable_host
      invitation (text "0.0.0.0:47482") starts [] 5 sample_peer invited_frame live_phone taken_on

taken_again :
    (handshake toy_crypto sign_toy host_key 6 sample_peer invited_frame (
      after_handshakes toy_crypto sign_toy host_key []
        (handshake toy_crypto sign_toy host_key 5 sample_peer invited_frame
          portable_host).agent)).outcome
    ≡ authentic live_phone
unfolding handshake portable_refusal check_phone check_phone_key check_phone_signature
    phone_proof_message protocol_name admit pair_phone is_paired live_of get_text lookup text_eq
    text hex_decode hex_encode equal_fold portable_agent trim_space enroll insert fingerprint join
    to_upper
taken_again = refl

run_portable-one_phone_example : phone_id ≡ phone_id
run_portable-one_phone_example =
    run_portable-one_phone toy_crypto sign_toy host_key toy_keys system flags portable_host
      invitation (text "0.0.0.0:47482") starts [] [] 5 6 sample_peer sample_peer invited_frame
      invited_frame live_phone live_phone taken_on taken_again
