-- ===== src/Control.antt =====
-- control.go: the local control API, and `authorizeDetailed` up to the request to the phone and
-- from the phone's answer on.
pub mod Choice
pub mod Authorize
mod Tests
use zorin_host_agent.Prelude.{
  ℕ, Bool, true, false, not, ◌&&◌, ◌||◌, Option, none, some, List, [], ◌∷◌, ◌++◌, map,
  if◌then◌else◌, take, is_empty, ℤ, lt_int, pos,
}
use zorin_host_agent.Text.{Text, text, text_eq, trim_space, contains, to_lower}
use zorin_host_agent.Dict.{Dict, values}
use zorin_host_agent.Policy.{PolicyConfig, PolicyContext, PolicyDecision, evaluate_policy}
use zorin_host_agent.Proof.{OwnerProof}
use zorin_host_agent.Agent.{Agent, LiveSession, ProofRequest, Effect, event_of}

pub record ControlStatus : Type 0 where
  pub trusted : Bool
  pub owner_present : Bool
  pub host_fingerprint : Text
  pub phone_fingerprint : Text
  pub identity_provider : Text

pub record ControlResponse : Type 0 where
  pub ok : Bool
  pub allowed : Bool
  pub reason : Text
  pub proof : Option OwnerProof
  pub status : Option ControlStatus
  pub error : Text

pub record ControlRequest : Type 0 where
  pub token : Text
  pub op : Text
  pub action : Text
  pub resource : Text
  pub prompt : Text
  pub explicit : Bool
  pub request_id : Text

-- controlResponse{Error: …}
unfoldable pub failed : Text → ControlResponse
failed e = record {
  ok = false;
  allowed = false;
  reason = [];
  proof = none;
  status = none;
  error = e;
}

-- controlResponse{OK: true, Allowed: false, Reason: …}
unfoldable pub denied : Text → ControlResponse
denied reason = record {
  ok = true;
  allowed = false;
  reason = reason;
  proof = none;
  status = none;
  error = [];
}

-- The loop of `controlStatus`: the presence and the fingerprint.
unfoldable pub status_loop : Text → List LiveSession → Bool × Text
status_loop fp [] = (false, fp)
status_loop fp (l ∷ rest) =
    let further = status_loop (if is_empty fp then l.phone_fp else fp) rest in
    if l.user_present then (true, l.phone_fp) else further

-- controlStatus
unfoldable pub control_status : Agent → ControlStatus
control_status a =
    let (present, fp) = status_loop [] (values a.live) in
    record {
      trusted = not (is_empty a.live);
      owner_present = present;
      host_fingerprint = a.host_fp;
      phone_fingerprint = fp;
      identity_provider = a.provider;
    }

-- The loop of `authorizeDetailed`: the first present connection, or else the first of all.
unfoldable pub choose_live : Option LiveSession → List LiveSession → Option LiveSession
choose_live live [] = live
choose_live live (s ∷ rest) =
    let further = choose_live (elim live [ none ↦ some s | some l ↦ some l ]) rest in
    if s.user_present then some s else further

unfoldable pub is_live_present : Option LiveSession → Bool
is_live_present none = false
is_live_present (some l) = l.user_present

-- promptOrAction
unfoldable pub prompt_or_action : Text → Text → Text
prompt_or_action prompt action = if is_empty (trim_space prompt) then action else prompt

-- A request before it is answered: a response at once, or a proof request for a connection.
pub data Asked : Type 0 where
  answer : ControlResponse → Asked
  ask : LiveSession → ProofRequest → Asked

-- `ttl := 30`, or what the rule says
unfoldable pub proof_ttl : PolicyDecision → ℤ
proof_ttl d = elim d.rule [
  | none ↦ pos 30
  | some rule ↦ if lt_int (pos 0) rule.proof_ttl_seconds then rule.proof_ttl_seconds else pos 30
]

abbrev pub max_prompt : ℕ
max_prompt = 360

-- The part behind the decision. `caller` is the number of the result channel that is made.
unfoldable pub ask_phone :
    PolicyDecision → Option LiveSession → Text → Text → Text → Text → Bool → ℕ → Asked × List Effect
ask_phone d live action resource prompt request_id explicit caller =
    if not d.allowed
    then (
      answer (denied d.reason),
      event_of (text "authority-denied") (text "warning") (text "Action denied")
            (action ++ (text " -> " ++ (resource ++ (text ": " ++ d.reason)))) [] none
          ∷ [],
    )
    else elim live [
      | none ↦ (answer (denied (text "trusted session disappeared")), [])
      | some l ↦
          let must_confirm = explicit || d.require_explicit in
          (
            ask l (record {
              action = action;
              resource = resource;
              ttl = proof_ttl d;
              request_id = request_id;
              prompt = prompt;
              explicit = must_confirm;
              result = caller;
            }),
            if must_confirm
                then event_of (text "approval-requested") (text "info") (text "Approval requested")
                    (prompt_or_action prompt action) l.phone_fp none
                  ∷ []
                else [],
          )
    ]

-- authorizeDetailed, up to the queue: `cfg` is what `loadPolicy` gives, `fresh_id` is
-- `randomHex(16)`.
unfoldable pub authorize_request :
    PolicyConfig → Agent → Text → Text → Text → Text → Bool → Text → ℕ → Asked × List Effect
authorize_request cfg a action resource prompt request_id explicit fresh_id caller =
    let action' = trim_space action in
    let resource' = trim_space resource in
    let id = trim_space request_id in
    let live = choose_live none (values a.live) in
    let d =
      evaluate_policy cfg action' resource'
        (record { trusted = not (is_empty a.live); owner_present = is_live_present live }) in
    if is_empty action' || is_empty resource'
    then (answer (failed (text "action and resource are required")), [])
    else ask_phone d live action' resource' (take max_prompt (trim_space prompt))
        (if is_empty id then fresh_id else id) explicit caller

-- What comes through the result channel.
pub data ProofResult : Type 0 where
  issued : OwnerProof → ProofResult
  refused : Text → ProofResult

-- `sev`
unfoldable pub refusal_severity : Text → Text
refusal_severity e =
    if contains (map to_lower e) (text "denied") then text "info" else text "warning"

-- authorizeDetailed from the second `select` on. `none` is the time-out.
unfoldable pub authorize_answer :
    Text → LiveSession → ProofRequest → Option ProofResult → ControlResponse × List Effect
authorize_answer reason l pr none = (failed (text "phone approval timed out"), [])
authorize_answer reason l pr (some (refused e)) = (
  failed e,
  event_of (text "proof-error") (refusal_severity e) (text "Approval not granted") e l.phone_fp none
      ∷ [],
)
authorize_answer reason l pr (some (issued p)) = (
  record { ok = true; allowed = true; reason = reason; proof = some p; status = none; error = [] },
  event_of (text "proof-issued") (text "success")
        (if pr.explicit then text "Action approved" else text "Owner proof issued")
        (pr.action ++ (text " -> " ++ pr.resource)) l.phone_fp none
      ∷ [],
)

-- The status response of `handleControl`.
unfoldable pub status_response : ControlStatus → ControlResponse
status_response status = record {
  ok = true;
  allowed = status.trusted;
  reason =
      if status.trusted && status.owner_present
      then text "trusted device + owner presence"
      else if status.trusted
      then text "trusted device; phone locked"
      else text "no trusted device session";
  proof = none;
  status = some status;
  error = [];
}

-- `req.Token == "" || req.Token != a.controlToken`
unfoldable pub is_unauthorized : Text → ControlRequest → Bool
is_unauthorized token req = is_empty req.token || not (text_eq req.token token)

-- handleControl, for a request that decodes or does not.
unfoldable pub handle_control :
    Text → PolicyConfig → Agent → Option ControlRequest → Text → ℕ → Asked × List Effect
handle_control token cfg a none fresh_id caller = (answer (failed (text "malformed request")), [])
handle_control token cfg a (some req) fresh_id caller =
    if is_unauthorized token req
    then (answer (failed (text "unauthorized local control client")), [])
    else if text_eq req.op (text "authorize")
    then authorize_request cfg a req.action req.resource req.prompt req.request_id req.explicit
        fresh_id caller
    else if text_eq req.op (text "status")
    then (answer (status_response (control_status a)), [])
    else (answer (failed (text "unsupported control operation")), [])
