-- ===== src/Portable/Watch.antt =====
-- portable.go: `writePortableOwnerProofWhenTrusted` and `portableProofFailure`.
pub mod Ends
mod Tests
use zorin_host_agent.Prelude.{
  ℕ, zero, suc, ◌+◌, Bool, true, not, Option, none, some, ◌++◌, ltb, if◌then◌else◌, is_empty,
}
use zorin_host_agent.Text.{Text, text, trim_space}
use zorin_host_agent.Agent.{Agent}
use zorin_host_agent.Control.{ControlResponse, control_status}
use zorin_host_agent.Proof.{OwnerProof}
use zorin_host_agent.Files.{Files, write_file}

abbrev pub watch_time : ℕ
watch_time = 600_000_000_000

abbrev pub watch_interval : ℕ
watch_interval = 250_000_000

-- The rounds of the loop that fit into the time, and the one that finds it over.
abbrev pub watch_rounds : ℕ
watch_rounds = 2401

-- How the loop ends: a trusted phone at this time, or none before the deadline.
pub data Watched : Type 0 where
  found : ℕ → Watched
  timed_out : Watched

-- The loop. `agent_at` is the agent at a time, and `wake` the time after the sleep that begins at a
-- time; `none` is fuel that has run out.
unfoldable pub watch_trusted : (ℕ → Agent) → (ℕ → ℕ) → ℕ → ℕ → ℕ → Option Watched
watch_trusted agent_at wake zero deadline now = none
watch_trusted agent_at wake (suc f) deadline now =
    let rest = watch_trusted agent_at wake f deadline (wake now) in
    if ltb now deadline
    then (if (control_status (agent_at now)).trusted then some (found now) else rest)
    else some timed_out

-- portableProofFailure
unfoldable pub portable_proof_failure : ControlResponse → Text
portable_proof_failure resp =
    if not (is_empty (trim_space resp.error))
    then resp.error
    else if not (is_empty (trim_space resp.reason))
    then resp.reason
    else text "phone approval was not granted"

-- What is printed at the end.
pub data WatchEnd : Type 0 where
  no_output : WatchEnd
  not_requested : WatchEnd
  not_issued : Text → WatchEnd
  encode_failed : WatchEnd
  write_failed : WatchEnd
  written : Text → OwnerProof → WatchEnd

-- The part behind the phone's answer; `encode` is json.MarshalIndent.
unfoldable pub finish_proof :
    (OwnerProof → Option Text) → Text → ControlResponse → Files → WatchEnd × Files
finish_proof encode path resp fs = elim resp.proof [
  | none ↦ (not_issued (portable_proof_failure resp), fs)
  | some proof ↦
      if not resp.allowed
      then (not_issued (portable_proof_failure resp), fs)
      else elim (encode proof) [
        | none ↦ (encode_failed, fs)
        | some raw ↦
            let (fs', ok) = write_file path raw fs in
            (if ok then written path proof else write_failed, fs')
      ]
]

abbrev pub session_action : Text
session_action = text "portable.session"

-- The function: `authorize` is authorizeDetailed, asked at a time for an action and a resource with
-- an explicit approval.
unfoldable pub write_portable_owner_proof :
    (OwnerProof → Option Text)
    → (ℕ → Agent)
    → (ℕ → ℕ)
    → (ℕ → Text → Text → Bool → ControlResponse)
    → Text
    → ℕ
    → Files
    → Option (WatchEnd × Files)
write_portable_owner_proof encode agent_at wake authorize flag start fs =
    let path = trim_space flag in
    if is_empty path
    then some (no_output, fs)
    else elim (watch_trusted agent_at wake watch_rounds (start + watch_time) start) [
      | none ↦ none
      | some timed_out ↦ some (not_requested, fs)
      | some (found t) ↦ some (
          finish_proof encode path
            (authorize t session_action (text "host:" ++ (agent_at t).host_fp) true) fs)
    ]
