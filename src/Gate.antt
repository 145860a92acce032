-- ===== src/Gate.antt =====
-- control.go: the client of the control API, `requestControl`, and `runGateCLI`, which runs a command
-- once the owner has approved it.
pub mod Runs
pub mod Timeouts
mod Tests
use zorin_host_agent.Prelude.{ℕ, Bool, none, some, List, [], ◌∷◌, ◌++◌, if◌then◌else◌, is_empty}
use zorin_host_agent.Text.{Text, text, text_eq}
use zorin_host_agent.Files.{join_path, Files, write_file}
use zorin_host_agent.Proof.{OwnerProof}
use zorin_host_agent.Control.{ControlResponse}

-- The seconds until the client gives up.
unfoldable pub client_timeout : Bool → ℕ
client_timeout explicit = if explicit then 70 else 12

-- `wait` of `authorizeDetailed`: the seconds until the agent gives up on the phone.
unfoldable pub answer_wait : Bool → ℕ
answer_wait explicit = if explicit then 55 else 8

-- What `requestControl` returns: an error with this text, or the response.
pub data Requested : Type 0 where
  request_failed : Text → Requested
  responded : ControlResponse → Requested

-- A response that decodes.
unfoldable pub requested : ControlResponse → Requested
requested r = if is_empty r.error then responded r else request_failed r.error

-- The arguments in front of the first `--`, and those behind it.
unfoldable pub split_args : List Text → List Text × List Text
split_args [] = ([], [])
split_args (s ∷ args) =
    let (flags, command) = split_args args in
    if text_eq s (text "--") then ([], args) else (s ∷ flags, command)

-- The end of the gate: exit code 2, a fatal error, exit code 3, or the command with the variables
-- that are added to its environment.
pub data GateOutcome : Type 0 where
  usage_error : GateOutcome
  fatal_error : Text → GateOutcome
  gate_denied : Text → GateOutcome
  gate_runs : List Text → List Text → GateOutcome

-- The flags, as the package flag reads them.
pub record GateFlags : Type 0 where
  pub action : Text
  pub resource : Text
  pub explicit : Bool
  pub prompt : Text

unfoldable pub gate_env : GateFlags → Text → OwnerProof → List Text
gate_env flags proof_file p =
    text "ZORIN_TRUSTED=1"
    ∷ (text "ZORIN_OWNER_ACTION=" ++ flags.action)
    ∷ (text "ZORIN_OWNER_RESOURCE=" ++ flags.resource)
    ∷ (text "ZORIN_OWNER_PROOF_FILE=" ++ proof_file)
    ∷ (text "ZORIN_PHONE_FINGERPRINT=" ++ p.phone_fingerprint)
    ∷ []

unfoldable pub proof_path : Text → Text
proof_path dir = join_path (join_path dir (text "proofs")) (text "latest-owner-proof.json")

-- `encode` is json.MarshalIndent of a proof, `write_error` the text of a failed write.
module _ (encode : OwnerProof → Text) (write_error : Text) where
  -- Behind the check of the response.
  unfoldable pub run_gate : Text → GateFlags → List Text → OwnerProof → Files → GateOutcome × Files
  run_gate dir flags command p fs =
      let (fs', ok) = write_file (proof_path dir) (encode p) fs in
      (
        if ok
            then gate_runs command (gate_env flags (proof_path dir) p)
            else fatal_error write_error,
        fs',
      )

  unfoldable pub gate_response :
      Text → GateFlags → List Text → ControlResponse → Files → GateOutcome × Files
  gate_response dir flags command r fs = elim r.proof [
    | none ↦ (gate_denied r.reason, fs)
    | some p ↦ if r.allowed then run_gate dir flags command p fs else (gate_denied r.reason, fs)
  ]

  -- runGateCLI, for what the request gives.
  unfoldable pub gate_cli : Text → GateFlags → List Text → Requested → Files → GateOutcome × Files
  gate_cli dir flags args (request_failed e) fs =
      (if is_empty (split_args args).1 then usage_error else fatal_error e, fs)
  gate_cli dir flags args (responded r) fs =
      let command = (split_args args).1 in
      if is_empty command then (usage_error, fs) else gate_response dir flags command r fs
