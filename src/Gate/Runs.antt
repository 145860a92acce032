-- ===== src/Gate/Runs.antt =====
-- When the gate runs a command.
use zorin_host_agent.Prelude.{
  ◌≡◌, refl, inl, inr, true, false, some, List, arith, Bool-cases, Option-cases, is_empty,
}
use zorin_host_agent.Text.{Text}
use zorin_host_agent.Files.{Files, read_file, read-write}
use zorin_host_agent.Proof.{OwnerProof}
use zorin_host_agent.Control.{ControlResponse}
use zorin_host_agent.Gate.{
  Requested, request_failed, responded, split_args, gate_runs, GateFlags, gate_env, proof_path,
  run_gate, gate_response, gate_cli,
}

module _ (encode : OwnerProof → Text) (write_error : Text) where
  run_gate-runs :
      (dir : Text) (flags : GateFlags) (command : List Text) (p : OwnerProof) (fs : Files)
      (cmd env : List Text)
      → (run_gate encode write_error dir flags command p fs).0 ≡ gate_runs cmd env
      → (cmd ≡ command)
        × (env ≡ gate_env flags (proof_path dir) p)
        × (read_file (proof_path dir) (run_gate encode write_error dir flags command p fs).1
            ≡ some (encode p))
  unfolding run_gate
  run_gate-runs dir flags command p fs cmd env h =
      (ground arith, ground arith, read-write (proof_path dir) (encode p) fs (ground arith))

  gate_response-runs :
      (dir : Text) (flags : GateFlags) (command : List Text) (r : ControlResponse) (fs : Files)
      (cmd env : List Text)
      → (gate_response encode write_error dir flags command r fs).0 ≡ gate_runs cmd env
      → (p : OwnerProof) × (r.allowed ≡ true)
        × (r.proof ≡ some p)
        × (gate_response encode write_error dir flags command r fs
            ≡ run_gate encode write_error dir flags command p fs)
  unfolding gate_response
  gate_response-runs dir flags command r fs cmd env h = elim (Option-cases r.proof) [
    | inl missing ↦ absurd (ground arith)
    | inr (p, carried) ↦ (p, ground arith, carried, ground arith)
  ]

  -- The gate runs a command only if it was given behind `--` and is not empty, the agent has
  -- allowed the action, and its response carries a proof; the proof's file holds that proof, and the
  -- command's environment names the action, the resource, the file and the proof's phone.
  pub gate_cli-runs :
      (dir : Text) (flags : GateFlags) (args : List Text) (result : Requested) (fs : Files)
      (cmd env : List Text)
      → (gate_cli encode write_error dir flags args result fs).0 ≡ gate_runs cmd env
      → (r : ControlResponse) × (p : OwnerProof) × (result ≡ responded r)
        × (r.allowed ≡ true)
        × (r.proof ≡ some p)
        × (cmd ≡ (split_args args).1)
        × (is_empty cmd ≡ false)
        × (env ≡ gate_env flags (proof_path dir) p)
        × (read_file (proof_path dir) (gate_cli encode write_error dir flags args result fs).1
            ≡ some (encode p))
  unfolding gate_cli
  gate_cli-runs dir flags args (request_failed e) fs cmd env h = absurd (ground arith)
  gate_cli-runs dir flags args (responded r) fs cmd env h =
      elim (Bool-cases (is_empty (split_args args).1)) [
        | inl none_given ↦ absurd (ground arith)
        | inr given ↦
            let (p, allowed, carries, runs) =
              gate_response-runs dir flags (split_args args).1 r fs cmd env (ground arith) in
            let (command, environment, stored) =
              run_gate-runs dir flags (split_args args).1 p fs cmd env (ground arith) in
            (r, p, refl, allowed, carries, command, ground arith, environment, ground arith)
      ]
