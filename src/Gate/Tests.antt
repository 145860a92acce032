-- ===== src/Gate/Tests.antt =====
-- The theorems on the gate and its time limits, at one command.
use zorin_host_agent.Prelude.{
  ◌<◌, ◌≡◌, refl, ◌⊎◌, true, false, none, some, List, [], ◌∷◌, is_empty, pos,
}
use zorin_host_agent.Text.{Text, text, text_eq}
use zorin_host_agent.Files.{Files, read_file, write_file}
use zorin_host_agent.Proof.{OwnerProof}
use zorin_host_agent.Control.{ControlResponse}
use zorin_host_agent.Control.Authorize.{decision}
use zorin_host_agent.Gate.{
  client_timeout, answer_wait, responded, split_args, gate_runs, GateFlags, gate_env, proof_path,
  run_gate, gate_response, gate_cli,
}
use zorin_host_agent.Gate.Runs.{gate_cli-runs}
use zorin_host_agent.Gate.Timeouts.{authorize_request-client_timeout}
use zorin_host_agent.Samples.{
  phone_id, live_phone, served_host, sample_request, terminal_policy, terminal_asked,
}

abbrev console_flags : GateFlags
console_flags = record {
  action = text "owner.console";
  resource = text "local:owner-console";
  explicit = false;
  prompt = [];
}

abbrev console_proof : OwnerProof
console_proof = record {
  version = text "ZOWNER/1";
  action = text "owner.console";
  resource = text "local:owner-console";
  host_fingerprint = text "H0";
  phone_fingerprint = phone_id;
  phone_public_key_der_hex = text "0a0b";
  nonce = text "77";
  issued = pos 100;
  expires = pos 130;
  signature_der_hex = text "00";
}

abbrev allowing : ControlResponse
allowing = record {
  ok = true;
  allowed = true;
  reason = text "ok";
  proof = some console_proof;
  status = none;
  error = [];
}

abbrev empty_disk : Files
empty_disk = record { contents = []; writable = λ path. true }

abbrev name_of : OwnerProof → Text
name_of p = p.nonce

abbrev console_args : List Text
console_args = text "-prompt" ∷ text "go" ∷ text "--" ∷ text "bash" ∷ []

console_runs :
    (gate_cli name_of
      (text "e")
      (text "s")
      console_flags
      console_args
      (responded allowing)
      empty_disk).0
    ≡ gate_runs (text "bash" ∷ []) (gate_env console_flags (proof_path (text "s")) console_proof)
unfolding gate_cli split_args gate_response run_gate write_file text text_eq
console_runs = refl

gate_cli-runs_example :
    (r : ControlResponse) × (p : OwnerProof) × (responded allowing ≡ responded r)
    × (r.allowed ≡ true)
    × (r.proof ≡ some p)
    × (text "bash" ∷ [] ≡ (split_args console_args).1)
    × (is_empty (text "bash" ∷ []) ≡ false)
    × (gate_env console_flags (proof_path (text "s")) console_proof
        ≡ gate_env console_flags (proof_path (text "s")) p)
    × (read_file
          (proof_path (text "s"))
          (gate_cli name_of
            (text "e")
            (text "s")
            console_flags
            console_args
            (responded allowing)
            empty_disk).1
        ≡ some (name_of p))
gate_cli-runs_example =
    gate_cli-runs name_of (text "e") (text "s") console_flags console_args (responded allowing)
      empty_disk (text "bash" ∷ []) (gate_env console_flags (proof_path (text "s")) console_proof)
      console_runs

authorize_request-client_timeout_example :
    ((sample_request.explicit ≡ false)
      × (answer_wait sample_request.explicit < client_timeout false))
    ⊎ (false ≡ false)
      × ((decision terminal_policy served_host
            (text "ops.terminal")
            (text "vps:1")).require_explicit
          ≡ true)
      × (client_timeout false < answer_wait sample_request.explicit)
authorize_request-client_timeout_example =
    authorize_request-client_timeout terminal_policy served_host (text "ops.terminal")
      (text "vps:1") (text "open") (text "r1") false (text "fresh") 4 live_phone sample_request
      terminal_asked
