-- ===== src/Connection/Tests.antt =====
-- The theorems on a connection, at a phone of a toy cryptography.
use zorin_host_agent.Prelude.{
  ℕ, ◌≤◌, ◌≡◌, refl, ◌⊎◌, true, false, none, some, [], ◌∷◌, arith, All, add_nat, pos,
}
use zorin_host_agent.Text.{Text, text, text_eq, to_upper, equal_fold, has_prefix, trim_space, join}
use zorin_host_agent.Text.Hex.{hex_encode, hex_decode}
use zorin_host_agent.Text.Decimal.{format_nat, format_int}
use zorin_host_agent.Dict.{lookup, insert, get_text}
use zorin_host_agent.Proof.{
  OwnerProof, protocol_name, owner_proof_message, signed_message, is_mismatch, check_signature,
  check_key, verify_owner_proof,
}
use zorin_host_agent.Identity.{fingerprint}
use zorin_host_agent.Agent.{Agent}
use zorin_host_agent.Session.{
  write_session, write_owner_mode, put_session, session_up, touch_live, touched_session, put_touch,
  session_touch,
}
use zorin_host_agent.Control.{issued, authorize_answer}
use zorin_host_agent.Connection.{phone_proof_message}
use zorin_host_agent.Connection.Handshake.{
  portable_refusal, check_phone_signature, check_phone_key, check_phone, is_paired, pair_phone,
  authentic, live_of, admit, handshake,
}
use zorin_host_agent.Connection.Handshake.Authentic.{IsInvited, IsProven, handshake-authentic}
use zorin_host_agent.Connection.Handshake.Pairing.{
  enrolled, after_handshakes, after_handshakes-enrolls_once,
}
use zorin_host_agent.Connection.Queue.{set_queue, dequeue}
use zorin_host_agent.Connection.Poll.{
  is_poll, poll_presence, clamp_ttl, frame, Round, outgoing, Phone, proof_of, is_signed_reply,
  checked_result, result_of, poll_queue, poll_turn, line_turn, turn, goes_on, quiet_turn,
}
use zorin_host_agent.Connection.Poll.Issue.{IsIssued, turn-issued}
use zorin_host_agent.Samples.{
  toy_crypto, phone_der, phone_id, live_phone, host, served_host, sample_request, terminal_policy,
  terminal_asked, sign_toy, host_key, sample_peer, sample_frame,
}
use zorin_host_agent.Session.Invariant.{IsConsistent}
use zorin_host_agent.Session.Reachable.{here, IsFresh, Reach-IsConsistent}
use zorin_host_agent.Connection.Run.{closing, and_then, serve_rounds, serve_frame}
use zorin_host_agent.Connection.Run.Closing.{IsSound, serve_rounds-IsSound, serve_rounds-closed}
use zorin_host_agent.Connection.Run.Keeping.{serve_frame-IsConsistent}
use zorin_host_agent.Connection.Grant.{IsGranted, authorize_answer-IsGranted}

-- A host whose window is open takes the phone on.
taken_on :
    (handshake toy_crypto sign_toy host_key 5 sample_peer sample_frame (host true)).outcome
    ≡ authentic live_phone
unfolding handshake portable_refusal check_phone check_phone_key check_phone_signature
    phone_proof_message protocol_name admit pair_phone is_paired live_of get_text lookup text_eq
    text hex_decode hex_encode equal_fold
taken_on = refl

handshake-authentic_example :
    IsInvited 5 (host true) sample_frame
    × IsProven toy_crypto (text "aa") host_key sample_frame phone_der
    × (phone_id ≡ phone_id)
    × ((is_paired (host true).cfg phone_id (get_text (text "PHONE_PUB") sample_frame) ≡ true)
        ⊎ (true ≡ true))
handshake-authentic_example =
    handshake-authentic toy_crypto sign_toy host_key 5 sample_peer sample_frame (host true)
      live_phone taken_on

after_handshakes-enrolls_once_example :
    (after_handshakes toy_crypto sign_toy host_key
        ((5, sample_peer, sample_frame) ∷ (6, sample_peer, []) ∷ [])
        (host true)
      ≡ host true)
    ⊎ (fp pub_hex : Text) × (after_handshakes toy_crypto sign_toy host_key
          ((5, sample_peer, sample_frame) ∷ (6, sample_peer, []) ∷ [])
          (host true)
        ≡ enrolled fp pub_hex (host true))
after_handshakes-enrolls_once_example =
    after_handshakes-enrolls_once toy_crypto sign_toy host_key
      ((5, sample_peer, sample_frame) ∷ (6, sample_peer, []) ∷ []) (host true)

-- A request that waits, and the phone's answer to it.
abbrev waiting_host : Agent
waiting_host = set_queue 1 (sample_request ∷ []) served_host

abbrev the_phone : Phone
the_phone = record { fp = phone_id; der = phone_der; pub_hex = text "0a0b"; conn = 1 }

abbrev answered_round : Round
answered_round = record {
  line = some (text "POLL READY");
  now = 9;
  issued_at = pos 100;
  nonce = text "77";
  fresh_id = text "f1";
  reply = frame ((text "PROOF_RESULT", text "OK") ∷ (text "SIGNATURE", text "0a0b49") ∷ []);
  checked_at = pos 110;
  pong_sent = true;
}

abbrev given_proof : OwnerProof
given_proof = record {
  version = text "ZOWNER/1";
  action = text "ops.terminal";
  resource = text "vps:1";
  host_fingerprint = text "H0";
  phone_fingerprint = phone_id;
  phone_public_key_der_hex = text "0a0b";
  nonce = text "77";
  issued = pos 100;
  expires = pos 145;
  signature_der_hex = text "0a0b49";
}

proof_given :
    (turn toy_crypto the_phone answered_round waiting_host).result ≡ some (4, issued given_proof)
unfolding turn line_turn poll_turn poll_queue dequeue set_queue session_touch session_up put_session
    put_touch write_session write_owner_mode is_poll poll_presence has_prefix trim_space result_of
    is_signed_reply checked_result proof_of outgoing clamp_ttl get_text lookup insert text_eq text
    fingerprint join hex_encode to_upper hex_decode verify_owner_proof is_mismatch equal_fold
    check_key check_signature signed_message owner_proof_message protocol_name format_int format_nat
    touch_live touched_session
proof_given = refl

turn-issued_example :
    IsIssued toy_crypto the_phone answered_round waiting_host given_proof
    × (seconds : ℕ) × (given_proof.expires ≡ add_nat given_proof.issued seconds)
    × (5 ≤ seconds)
    × (seconds ≤ 120)
turn-issued_example =
    turn-issued toy_crypto the_phone answered_round waiting_host 4 given_proof proof_given

serve_rounds-IsSound_example :
    All
      (IsSound toy_crypto the_phone waiting_host.host_fp)
      (serve_rounds toy_crypto the_phone (answered_round ∷ []) waiting_host).results
serve_rounds-IsSound_example =
    serve_rounds-IsSound toy_crypto the_phone (answered_round ∷ []) waiting_host

abbrev last_round : Round
last_round = record answered_round { line = some (text "BYE") }

run_ended :
    (serve_rounds toy_crypto the_phone (answered_round ∷ last_round ∷ []) waiting_host).is_open
    ≡ false
unfolding serve_rounds and_then closing turn line_turn quiet_turn poll_turn poll_queue dequeue
    set_queue session_touch session_up put_session put_touch write_session write_owner_mode is_poll
    poll_presence has_prefix trim_space goes_on is_signed_reply get_text lookup text_eq text
run_ended = refl

serve_rounds-closed_example :
    (lookup phone_id
        (serve_rounds toy_crypto the_phone
          (answered_round ∷ last_round ∷ [])
          waiting_host).agent.sessions
      ≡ none)
    × (lookup phone_id
          (serve_rounds toy_crypto the_phone
            (answered_round ∷ last_round ∷ [])
            waiting_host).agent.live
        ≡ none)
serve_rounds-closed_example =
    serve_rounds-closed toy_crypto the_phone (answered_round ∷ last_round ∷ []) waiting_host
      run_ended

host-IsFresh : IsFresh (host true)
host-IsFresh = record { sessions = refl; live = refl; session_file = refl; owner_mode = refl }

serve_frame-IsConsistent_example :
    IsConsistent
      (serve_frame toy_crypto sign_toy host_key 5 7 sample_peer sample_frame
        (answered_round ∷ last_round ∷ [])
        (host true)).agent
serve_frame-IsConsistent_example =
    serve_frame-IsConsistent toy_crypto sign_toy host_key 5 7 sample_peer sample_frame
      (answered_round ∷ last_round ∷ []) (host true) (omega arith)
      (Reach-IsConsistent host-IsFresh here)

authorize_answer-IsGranted_example :
    IsGranted toy_crypto the_phone terminal_policy served_host
      (text "ops.terminal")
      (text "vps:1")
      (authorize_answer (text "ok") live_phone sample_request (some (issued given_proof))).0
authorize_answer-IsGranted_example =
    authorize_answer-IsGranted toy_crypto the_phone terminal_policy served_host waiting_host
      (text "ops.terminal") (text "vps:1") (text "open") (text "r1") (text "fresh") (text "ok")
      false 4 live_phone sample_request [] answered_round (issued given_proof) terminal_asked
      (unfold set_queue in refl) proof_given (unfold authorize_answer in refl)
