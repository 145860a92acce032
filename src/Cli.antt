-- ===== src/Cli.antt =====
-- main.go: how `main` takes its command from the arguments. control.go: `runAuthorizeCLI` and
-- `runIdentityCLI`.
pub mod Authorize
mod Tests
use zorin_host_agent.Prelude.{
  Bool, not, ◌||◌, Option, none, some, List, [], ◌∷◌, if◌then◌else◌, is_empty,
}
use zorin_host_agent.Identity
use zorin_host_agent.Text.{Text, text, text_eq, has_prefix}
use zorin_host_agent.Files.{Files, write_file}
use zorin_host_agent.HostIdentity.{HostIdentity, public_der, provider_of}
use zorin_host_agent.Proof.{OwnerProof}
use zorin_host_agent.Gate.{Requested, request_failed, responded}

-- The commands of the program.
pub data Command : Type 0 where
  portable_command : Command
  daemon_command : Command
  status_command : Command
  ui_state_command : Command
  doctor_command : Command
  fingerprint_command : Command
  policy_command : Command
  authorize_command : Command
  gate_command : Command
  identity_command : Command
  devices_command : Command
  unpair_all_command : Command
  version_command : Command
  usage_command : Command

-- The branches of the switch, in its order.
unfoldable pub command_named : Text → Command
command_named s =
    if text_eq s (text "portable")
    then portable_command
    else if text_eq s (text "daemon")
    then daemon_command
    else if text_eq s (text "status")
    then status_command
    else if text_eq s (text "ui-state")
    then ui_state_command
    else if text_eq s (text "doctor")
    then doctor_command
    else if text_eq s (text "fingerprint")
    then fingerprint_command
    else if text_eq s (text "policy")
    then policy_command
    else if text_eq s (text "authorize") || text_eq s (text "credential")
    then authorize_command
    else if text_eq s (text "gate")
    then gate_command
    else if text_eq s (text "identity")
    then identity_command
    else if text_eq s (text "device")
    then devices_command
    else if text_eq s (text "unpair-all")
    then unpair_all_command
    else if text_eq s (text "version")
    then version_command
    else usage_command

-- The command and its arguments: the daemon where the first argument is a flag.
unfoldable pub parse_command : List Text → Command × List Text
parse_command [] = (daemon_command, [])
parse_command (s ∷ args) =
    if has_prefix s (text "-") then (daemon_command, s ∷ args) else (command_named s, args)

-- The end of `authorize`: a fatal error, exit code 3, or exit code 0 with what is printed.
pub data AuthorizeOutcome : Type 0 where
  authorize_fatal : AuthorizeOutcome
  authorize_denied : Text → AuthorizeOutcome
  authorize_allowed : Text → Option OwnerProof → AuthorizeOutcome

-- The proof that is printed and, if a file is named, written.
unfoldable pub store_proof :
    (OwnerProof → Text) → Text → Text → OwnerProof → Files → AuthorizeOutcome × Files
store_proof encode out reason p fs =
    let (fs', ok) = write_file out (encode p) fs in
    if is_empty out
    then (authorize_allowed reason (some p), fs)
    else (if ok then authorize_allowed reason (some p) else authorize_fatal, fs')

-- runAuthorizeCLI behind the call of requestControl; `encode` is the JSON text that the flag
-- --compact chooses.
unfoldable pub authorize_cli :
    (OwnerProof → Text) → Text → Requested → Files → AuthorizeOutcome × Files
authorize_cli encode out (request_failed e) fs = (authorize_fatal, fs)
authorize_cli encode out (responded r) fs =
    if not r.allowed then (authorize_denied r.reason, fs) else elim r.proof [
      | none ↦ (authorize_allowed r.reason none, fs)
      | some p ↦ store_proof encode out r.reason p fs
    ]

-- The end of `identity`.
pub data IdentityOutcome : Type 0 where
  identity_status : Text → Text → Text → IdentityOutcome
  identity_migrated : Text → Text → Text → IdentityOutcome
  identity_fatal : IdentityOutcome
  identity_usage : IdentityOutcome

-- runIdentityCLI: `windows` is whether the system is Windows, and `migrate` is
-- migrateHostIdentityToTPM.
unfoldable pub identity_cli :
    (Text → Text)
    → Bool
    → (Files → Files × Option HostIdentity)
    → HostIdentity
    → List Text
    → Files
    → IdentityOutcome × Files
identity_cli sha256 windows migrate id args fs =
    let sub = elim args as (λ x. Text) [ [] ↦ text "status" | s ∷ rest ↦ s ] in
    let own = Identity.fingerprint sha256 (public_der id) in
    let (fs', made) = migrate fs in
    if text_eq sub (text "status")
    then (identity_status own (provider_of id) (public_der id), fs)
    else if not (text_eq sub (text "migrate-tpm"))
    then (identity_usage, fs)
    else if not windows
    then (identity_fatal, fs)
    else elim made [
      | none ↦ (identity_fatal, fs')
      | some new ↦ (
        identity_migrated own (Identity.fingerprint sha256 (public_der new)) (provider_of new),
        fs',
      )
    ]
