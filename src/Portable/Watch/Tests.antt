-- ===== src/Portable/Watch/Tests.antt =====
-- The wait for a trusted phone on concrete data.
use zorin_host_agent.Prelude.{
  ℕ, ◌+◌, ◌≡◌, refl, Bool, true, false, Option, none, some, [], arith, ltb, if◌then◌else◌, pos,
}
use zorin_host_agent.Dict.{insert}
use zorin_host_agent.Samples.{phone_id, host, served_host}
use zorin_host_agent.Text.{Text, text, trim_space}
use zorin_host_agent.Files.{Files, write_file}
use zorin_host_agent.Agent.{Agent}
use zorin_host_agent.Session.{session_up, write_session, write_owner_mode, put_session}
use zorin_host_agent.Control.{ControlResponse, control_status}
use zorin_host_agent.Proof.{OwnerProof}
use zorin_host_agent.Portable.Watch.{
  watch_interval, watch_trusted, WatchEnd, written, finish_proof, write_portable_owner_proof,
}
use zorin_host_agent.Portable.Watch.Ends.{
  Sleeps, IsWritten, write_portable_owner_proof-ends, write_portable_owner_proof-IsWritten,
}

-- A phone connects after a second.
abbrev agent_at : ℕ → Agent
agent_at t = if ltb t 1_000_000_000 then host false else served_host

abbrev wake : ℕ → ℕ
wake t = t + watch_interval

abbrev sample_proof : OwnerProof
sample_proof = record {
  version = text "ZOWNER/1";
  action = text "portable.session";
  resource = text "host:H0";
  host_fingerprint = text "H0";
  phone_fingerprint = phone_id;
  phone_public_key_der_hex = text "0a0b";
  nonce = text "77";
  issued = pos 100;
  expires = pos 130;
  signature_der_hex = text "0a0b49";
}

abbrev grant : ℕ → Text → Text → Bool → ControlResponse
grant t action resource explicit = record {
  ok = true;
  allowed = true;
  reason = [];
  proof = some sample_proof;
  status = none;
  error = [];
}

abbrev encode : OwnerProof → Option Text
encode p = some p.action

abbrev disk : Files
disk = record { contents = []; writable = λ path. true }

abbrev disk_after : Files
disk_after = (write_file (text "out") (text "portable.session") disk).0

abbrev sleeps : Sleeps wake
sleeps now = omega arith

write_portable_owner_proof-ends_example :
    (end : WatchEnd) × (fs' : Files) × (write_portable_owner_proof encode agent_at wake grant
        (text " out")
        0
        disk
      ≡ some (end, fs'))
write_portable_owner_proof-ends_example =
    write_portable_owner_proof-ends encode agent_at wake grant (text " out") 0 disk sleeps

proof_written :
    write_portable_owner_proof encode agent_at wake grant (text " out") 0 disk
    ≡ some (written (text "out") sample_proof, disk_after)
unfolding write_portable_owner_proof watch_trusted finish_proof control_status session_up trim_space
    text write_owner_mode write_session put_session insert write_file
proof_written = refl

write_portable_owner_proof-IsWritten_example :
    (text "out" ≡ trim_space (text " out"))
    × IsWritten encode agent_at grant 0 (text "out") sample_proof disk_after
write_portable_owner_proof-IsWritten_example =
    write_portable_owner_proof-IsWritten encode agent_at wake grant (text " out") 0 disk sleeps
      (text "out") sample_proof disk_after proof_written
