-- ===== src/Portable/Run.antt =====
-- portable.go: `runPortable` up to the listeners. `newEphemeralIdentity`, of identity.go.
pub mod Opened
pub mod Admits
use zorin_host_agent.Prelude.{
  ℕ, zero, suc, ◌+◌, ◌-◌, ◌*◌, ◌^◌, Bool, true, false, ◌&&◌, ◌||◌, Option, none, some, [], ◌∷◌, ltb,
  leb, ◌==◌, if◌then◌else◌, is_empty, ℤ, pos, negsuc,
}
use zorin_host_agent.Text.{Text, text, trim_space}
use zorin_host_agent.Agent.{Agent}
use zorin_host_agent.Net.{split_host_port}
use zorin_host_agent.Identity.{fingerprint}
use zorin_host_agent.Portable.Bootstrap.{Invitation}
use zorin_host_agent.HostIdentity.{
  HostIdentity, public_der, provider_of, KeyLibrary, new_ephemeral_identity,
}

-- The digits of a number in base 10.
digits_value : ℕ → Text → Option ℕ
digits_value acc [] = some acc
digits_value acc (c ∷ s) =
    let rest = digits_value (acc * 10 + (c - 48)) s in
    if leb b'0' c && leb c b'9' then rest else none

unfoldable pub parse_digits : Text → Option ℕ
unfolding digits_value
parse_digits s = if is_empty s then none else digits_value 0 s

with_sign : Bool → Option ℕ → Option ℤ
with_sign minus none = none
with_sign true (some n) =
    if leb n (2 ^ 63) then some (elim n [ zero ↦ pos 0 | suc k ↦ negsuc k ]) else none
with_sign false (some n) = if ltb n (2 ^ 63) then some (pos n) else none

-- strconv.Atoi, with int of 64 bits
unfoldable pub atoi : Text → Option ℤ
unfolding with_sign
atoi [] = none
atoi (c ∷ s) =
    if c == b'-' || c == b'+'
    then with_sign (c == b'-') (parse_digits s)
    else with_sign false (parse_digits (c ∷ s))

-- The flags of the command.
pub record PortableFlags : Type 0 where
  pub listen : Text
  pub bootstrap : Text
  pub ttl : ℤ
  pub proof_out : Text

-- What the system gives: a new private key, a new directory, the time, the random
-- bytes of the invite as text, and the addresses that can be listened on.
pub record PortableSystem : Type 0 where
  pub generated : Option Text
  pub state_dir : Option Text
  pub now : ℕ
  pub invite : Text
  pub can_listen : Text → Bool

pub data PortableError : Type 0 where
  bad_ttl : PortableError
  no_identity : PortableError
  no_state_dir : PortableError
  empty_listen : PortableError
  bad_listen : PortableError
  bad_port : PortableError
  empty_bootstrap : PortableError
  bootstrap_in_use : PortableError

-- The host that runs: the agent, what its bootstrap server knows, and where it listens.
pub data PortableStart : Type 0 where
  failed_start : PortableError → PortableStart
  started : Agent → Invitation → Text → PortableStart

abbrev pub minute : ℕ
minute = 60_000_000_000

-- The lifetime of the invitation, if it is allowed.
unfoldable pub portable_ttl : ℤ → Option ℕ
portable_ttl (negsuc n) = none
portable_ttl (pos n) = if ltb n minute || ltb (60 * minute) n then none else some n

-- The agent as it starts, with this identity.
unfoldable pub portable_agent : (Text → Text) → HostIdentity → Text → ℕ → Agent
portable_agent sha256 id invite expires = record {
  host_fp = fingerprint sha256 (public_der id);
  provider = provider_of id;
  cfg = record { paired_phones = []; device_labels = []; adb_path = [] };
  pair_once = true;
  on_trust = [];
  on_untrust = [];
  on_presence = [];
  on_absence = [];
  portable = true;
  portable_invite = invite;
  portable_expires = expires;
  sessions = [];
  live = [];
  last_presence = [];
  queues = λ conn. [];
  session_file = none;
  owner_mode_file = none;
}

-- The port of the trust listener, or what is wrong with the flag.
unfoldable pub trust_port_of : Text → Option ℕ
trust_port_of port = elim (atoi port) [
  | none ↦ none
  | some (negsuc n) ↦ none
  | some (pos n) ↦ if ltb n 1 || ltb 65535 n then none else some n
]

-- startPortableBootstrap: whether it starts, on the trimmed flag.
unfoldable pub bootstrap_error : PortableSystem → Text → Option PortableError
bootstrap_error sys addr =
    if is_empty addr
    then some empty_bootstrap
    else if sys.can_listen addr
    then none
    else some bootstrap_in_use

-- The part behind the agent.
unfoldable pub start_portable : PortableSystem → PortableFlags → Agent → PortableStart
start_portable sys flags a =
    let addr = trim_space flags.listen in
    if is_empty addr then failed_start empty_listen else elim (split_host_port addr) [
      | none ↦ failed_start bad_listen
      | some (host, port) ↦ elim (trust_port_of port) [
        | none ↦ failed_start bad_port
        | some n ↦ elim (bootstrap_error sys (trim_space flags.bootstrap)) [
          | some e ↦ failed_start e
          | none ↦
              started a
                (record {
                  trust_port = n;
                  expires = a.portable_expires;
                  invite = a.portable_invite;
                })
                addr
        ]
      ]
    ]

-- runPortable
unfoldable pub run_portable :
    KeyLibrary → (Text → Text) → PortableSystem → PortableFlags → PortableStart
run_portable keys sha256 sys flags = elim (portable_ttl flags.ttl) [
  | none ↦ failed_start bad_ttl
  | some ttl ↦ elim (new_ephemeral_identity keys sys.generated) [
    | none ↦ failed_start no_identity
    | some id ↦ elim sys.state_dir [
      | none ↦ failed_start no_state_dir
      | some dir ↦ start_portable sys flags (portable_agent sha256 id sys.invite (sys.now + ttl))
    ]
  ]
]
