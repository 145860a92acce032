-- ===== src/Connection/Poll.antt =====
-- main.go: one round of the loop of `handle`, from a line of the phone to the answer to it.
pub mod Issue
use zorin_host_agent.Prelude.{
  ℕ, Bool, true, false, not, ◌&&◌, ◌||◌, Option, none, some, List, [], ◌∷◌, ◌++◌, ltb,
  if◌then◌else◌, is_empty, ℤ, add_nat, pos, negsuc,
}
use zorin_host_agent.Text.{Text, text, text_eq, equal_fold, has_prefix, trim_space, fields}
use zorin_host_agent.Text.Hex.{hex_encode}
use zorin_host_agent.Text.Decimal.{format_int}
use zorin_host_agent.Dict.{Dict, get_text}
use zorin_host_agent.Crypto.{Crypto}
use zorin_host_agent.Proof.{
  OwnerProof, ProofError, unsupported_version, expired, issued_in_future, key_mismatch, not_ecdsa,
  bad_signature, library, verify_owner_proof,
}
use zorin_host_agent.Identity.{sanitize}
use zorin_host_agent.Agent.{ProofRequest, Effect, Agent}
use zorin_host_agent.Session.{session_touch}
use zorin_host_agent.Control.{ProofResult, issued, refused}
use zorin_host_agent.Connection.{field}
use zorin_host_agent.Connection.Queue.{dequeue}

says_locked : List Text → Bool
says_locked (verb ∷ word ∷ rest) = equal_fold word (text "LOCKED")
says_locked _ = false

-- strings.HasPrefix(line, "POLL") || line == "PING"
unfoldable pub is_poll : Text → Bool
is_poll line = has_prefix line (text "POLL") || text_eq line (text "PING")

-- `present`
unfoldable pub poll_presence : Text → Bool
unfolding says_locked
poll_presence line = if has_prefix line (text "POLL") then not (says_locked (fields line)) else true

-- The seconds that a proof lasts: `ttl` between 5 and 120.
unfoldable pub clamp_ttl : ℤ → ℕ
clamp_ttl (pos n) = if ltb n 5 then 5 else if ltb 120 n then 120 else n
clamp_ttl (negsuc n) = 5

-- A request as it is sent, and what is kept of it for the proof.
pub record Outgoing : Type 0 where
  pub request : ProofRequest
  pub request_id : Text
  pub nonce : Text
  pub issued_at : ℤ
  pub expires_at : ℤ

-- What the network and the phone answer: the lines are not sent, the frame is not read, for an
-- error with this text, or the frame.
pub data Reply : Type 0 where
  connection_lost : Reply
  unreadable_frame : Text → Reply
  frame : Dict Text → Reply

-- What a round meets: the line, or no line where the read fails, two clocks, fresh random texts,
-- the reply to a request, the time of its check, and whether the last PONG is sent.
pub record Round : Type 0 where
  pub line : Option Text
  pub now : ℕ
  pub issued_at : ℤ
  pub nonce : Text
  pub fresh_id : Text
  pub reply : Reply
  pub checked_at : ℤ
  pub pong_sent : Bool

unfoldable pub outgoing : Round → ProofRequest → Outgoing
outgoing r pr = record {
  request = pr;
  request_id = let id = sanitize pr.request_id in if is_empty id then r.fresh_id else id;
  nonce = r.nonce;
  issued_at = r.issued_at;
  expires_at = add_nat r.issued_at (clamp_ttl pr.ttl);
}

-- The lines of a request.
unfoldable pub request_lines : Outgoing → List Text
request_lines o =
    text "PROOF_REQUEST"
    ∷ field (text "REQUEST_ID") o.request_id
    ∷ field (text "MODE") (if o.request.explicit then text "EXPLICIT" else text "PRESENCE")
    ∷ field (text "PROMPT_HEX") (hex_encode o.request.prompt)
    ∷ field (text "ACTION_HEX") (hex_encode o.request.action)
    ∷ field (text "RESOURCE_HEX") (hex_encode o.request.resource)
    ∷ field (text "NONCE") o.nonce
    ∷ field (text "ISSUED") (format_int o.issued_at)
    ∷ field (text "EXPIRES") (format_int o.expires_at)
    ∷ text "END"
    ∷ []

-- The texts of the errors of `verifyOwnerProof`.
unfoldable pub proof_error_text : ProofError → Text
proof_error_text unsupported_version = text "unsupported proof version"
proof_error_text expired = text "proof expired"
proof_error_text issued_in_future = text "proof issued in the future"
proof_error_text key_mismatch = text "phone public key mismatch"
proof_error_text not_ecdsa = text "phone key is not ECDSA"
proof_error_text bad_signature = text "phone proof signature invalid"
proof_error_text (library e) = e

-- The phone at the other end, as the handshake has proven it.
pub record Phone : Type 0 where
  pub fp : Text
  pub der : Text
  pub pub_hex : Text
  pub conn : ℕ

unfoldable pub proof_of : Text → Phone → Outgoing → Text → OwnerProof
proof_of host_fp phone o signature = record {
  version = text "ZOWNER/1";
  action = o.request.action;
  resource = o.request.resource;
  host_fingerprint = host_fp;
  phone_fingerprint = phone.fp;
  phone_public_key_der_hex = phone.pub_hex;
  nonce = o.nonce;
  issued = o.issued_at;
  expires = o.expires_at;
  signature_der_hex = signature;
}

-- The frame says OK and holds a signature.
unfoldable pub is_signed_reply : Dict Text → Bool
is_signed_reply reply =
    text_eq (get_text (text "PROOF_RESULT") reply) (text "OK")
    && not (is_empty (get_text (text "SIGNATURE") reply))

unfoldable pub checked_result : Option ProofError → OwnerProof → ProofResult
checked_result none p = issued p
checked_result (some e) p = refused (proof_error_text e)

module _ (crypto : Crypto) where
  -- What is put into the result channel.
  unfoldable pub result_of : Text → Phone → Outgoing → ℤ → Reply → ProofResult
  result_of host_fp phone o checked_at connection_lost = refused (text "phone connection lost")
  result_of host_fp phone o checked_at (unreadable_frame e) = refused e
  result_of host_fp phone o checked_at (frame reply) =
      let p = proof_of host_fp phone o (get_text (text "SIGNATURE") reply) in
      if is_signed_reply reply
      then checked_result (verify_owner_proof crypto checked_at p (some phone.der)) p
      else refused (text "phone proof denied: " ++ get_text (text "REASON") reply)

-- Whether the loop goes on behind a reply. The PONG after a denial may fail.
unfoldable pub goes_on : Reply → Bool → Bool
goes_on connection_lost pong = false
goes_on (unreadable_frame e) pong = false
goes_on (frame reply) pong = if is_signed_reply reply then pong else true

-- A round: the agent and the effects, the lines that are sent before the reply, the result for a
-- caller, and whether the loop goes on.
pub record Turn : Type 0 where
  pub agent : Agent
  pub effects : List Effect
  pub sent : List Text
  pub result : Option (ℕ × ProofResult)
  pub is_open : Bool

unfoldable pub quiet_turn : Agent → List Text → Bool → Turn
quiet_turn a sent is_open = record {
  agent = a;
  effects = [];
  sent = sent;
  result = none;
  is_open = is_open;
}

-- The lines of a request as far as they are sent for certain: where `writeLines` fails it is not known
-- which of them have left.
unfoldable pub sent_request : Reply → List Text → List Text
sent_request connection_lost lines = []
sent_request (unreadable_frame e) lines = lines
sent_request (frame reply) lines = lines

-- Behind `sessionTouch`: the queue, and the request.
unfoldable pub poll_queue :
    Crypto → Phone → Round → List Effect → Option ProofRequest × Agent → Turn
poll_queue crypto phone r effects (none, a) = record {
  agent = a;
  effects = effects;
  sent = text "PONG" ∷ [];
  result = none;
  is_open = r.pong_sent;
}
poll_queue crypto phone r effects (some pr, a) = record {
  agent = a;
  effects = effects;
  sent = sent_request r.reply (request_lines (outgoing r pr));
  result = some (pr.result, result_of crypto a.host_fp phone (outgoing r pr) r.checked_at r.reply);
  is_open = goes_on r.reply r.pong_sent;
}

unfoldable pub poll_turn : Crypto → Phone → Round → Text → Agent → Turn
poll_turn crypto phone r line a =
    let (touched, effects) = session_touch r.now phone.fp (poll_presence line) a in
    poll_queue crypto phone r effects (dequeue phone.conn touched)

-- The body of the loop, for the line as it is trimmed.
unfoldable pub line_turn : Crypto → Phone → Round → Text → Agent → Turn
line_turn crypto phone r line a =
    if is_poll line
    then poll_turn crypto phone r line a
    else if text_eq line (text "BYE")
    then quiet_turn a [] false
    else quiet_turn a (text "ERR fixed-protocol-only" ∷ []) true

unfoldable pub turn : Crypto → Phone → Round → Agent → Turn
turn crypto phone r a = elim r.line [
  | none ↦ quiet_turn a [] false
  | some raw ↦ line_turn crypto phone r (trim_space raw) a
]
