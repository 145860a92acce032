-- ===== src/Lib.antt =====
-- The Zorin host agent: a daemon that trusts a paired phone, asks it for signed owner proofs, and
-- lets local tools act only where a policy and such a proof allow it.
--
-- The parts, and the files of this library that model them:
--
--   policy.go   The policy file, its migration and its evaluation. Policy has the rules and
--               `evaluatePolicy`, Policy/Defaults the default policy, Policy/Migrate
--               `migratePolicy`, Policy/Store `ensurePolicy` and `loadPolicy` on the files of Files.
--               Glob is path.Match, as the documentation of Go states it, on the
--               characters of Text/Utf8. Policy/Decision,
--               Policy/DefaultDecisions, Policy/Migration and Policy/Store/Laws have the theorems.
--   proof.go    The owner proof: Proof has `ownerProofMessage` and `verifyOwnerProof`.
--   identity.go Identity has `fingerprint`, with `pairCodeFromFingerprint` and `sanitize` of main.go.
--               HostIdentity has the kinds of identity, `loadOrCreateLegacyIdentity` and
--               identity.json, HostIdentity/Signature `rawECDSAToASN1`, HostIdentity/Windows
--               `loadHostIdentity` of identity_windows.go and of identity_other.go, and
--               HostIdentity/Cng `openCNGIdentity` and `exportPublicDER` with the calls of ncrypt.dll
--               as answers.
--   portable.go Portable/Run has `runPortable` up to its listeners, Portable/Bootstrap the HTTP
--               server, Portable/Private the listing of private addresses, Portable/Link the deep link
--               with the escaping of net/url, and Portable/Watch the wait for a trusted phone that
--               writes an owner proof.
--   main.go     Agent has the daemon's state; Session has `sessionUp`, `sessionTouch` and
--               `sessionDown` with session.json and owner-mode.json; UiState has
--               `writeUIStateLocked`; Frame has `writeLines` and `readFrame`; Connection has
--               `handle`: Connection/Handshake up to AUTH OK, Connection/Queue the channel of the
--               waiting requests, Connection/Poll one round of the loop, Connection/Run the loop and,
--               in Run/Answers, who is answered.
--               EventLog has `recordEvent`, Startup `ensureControlToken` and, in Startup/Load,
--               `loadAgent`, Device `runDeviceCLI`, Status `printStatus`, and Cli the choice of the
--               command. Adb has the sweep of `adbSweep` over the devices with `shouldHeadlessWake`,
--               Adb/Configure `configureADB` and the whole sweep, Adb/Commands what adb is told, with
--               `pulseOwnerVisual` and `wakeApprovalActivity` of control.go. Listen has
--               `connectionTransport`, `isLoopbackListener` and the daemon's check of its listener, on
--               the addresses of Net.
--   control.go  Control has `handleControl`, `controlStatus` and `authorizeDetailed`: up to the
--               request to the phone, and from the phone's answer on. Connection/Grant joins the two
--               halves. Gate has `requestControl` and `runGateCLI`, Cli `runAuthorizeCLI` and
--               `runIdentityCLI`.
--
-- A local client sends a request to the control API; `authorizeDetailed` evaluates the policy in the
-- context of the live connections, and puts a request into the queue of one of them. The phone polls;
-- the loop of `handle` records the poll with `sessionTouch`, takes the oldest request, sends it, and
-- puts the phone's answer, once `verifyOwnerProof` accepts it, into the result channel. A portable host
-- is an agent with a new identity, an open pairing window and an invite that the handshake demands; its
-- bootstrap server hands the invite on in the link of a page, and its wait for a phone asks the same
-- `authorizeDetailed` for a proof.
--
-- The shape of the model. A function of the agent takes the state and gives the state and the effects
-- in their order: events, hook commands, the visual pulse, the writing of config.json and of
-- ui-state.json, whose contents UiState computes. What session.json and owner-mode.json hold is a field
-- of the state, which a start takes from the files of the state directory: their writes are taken as
-- carried out, since the source ignores their errors. The clocks, the
-- random texts, the lines and frames of the phone and the failures of the network are arguments. A
-- function holds the lock of the agent throughout, so that an interleaving is a sequence of calls; what
-- one connection does between two reads is one call. Session/Interleaved has every interleaving of
-- connections, those included in which a phone has several at a time and the end of one takes the
-- session of another away; Session/Refinement says what the sessions are an implementation of: a map
-- from phones to their presence. A phone's entry of the map `live` holds the
-- number of its connection, which names its queue: a map holds copies, and the loop keeps its own queue.
--
-- Bytes are natural numbers and a Go string is a list of bytes. Maps are association lists; a theorem
-- that needs the keys to be distinct says so, and the order of a list stands for an order of `range`.
-- Integers are unbounded: the times are seconds or nanoseconds far from 2^63, and the policy's versions
-- and seconds are only compared and clamped. A time is the number of nanoseconds since the zero time,
-- so that `IsZero` is a test for 0.
--
-- Parameters. Crypto has SHA-256, the parsing of keys, ECDSA and error texts; the host's `SignDigest`
-- is an argument of the handshake; PolicyCodec has encoding/json for a policy, with the round trip on
-- valid texts as its law. Folding of case and trimming of spaces are those of ASCII: Go also folds and
-- trims other Unicode characters. Net has the parts of the package net that are used: the parsing of
-- addresses, of IPv4 and of IPv6, and host:port pairs. KeyLibrary has the keys in X.509 and PEM,
-- MetaCodec the JSON of identity.json, Asn1 the DER of a signature, and Machine what CNG answers at a
-- start; what a theorem relies on of them are its named laws.
--
-- Fuel. `frame_loop` has the length of the stream and one, and each round reads a byte at least;
-- `groups_of_4` has the length of its text, and each step takes a byte at least. `watch_trusted` has
-- 2401 rounds, of 250 milliseconds at least, for its ten minutes, and a theorem says that they are
-- enough. `ip6_groups` counts the eight groups of an address, as the source's loop does. The other loops
-- are structural.
--
-- Not modelled: the parsing of flags, what the commands print beside the state of `printStatus`, the
-- accept loops of the listeners, the ticker of `adbWatcher`, the HTML around the texts of the bootstrap
-- page and the redirect of a path that is not clean; the calls of keys and of ncrypt.dll themselves; the
-- log lines on the terminal; deadlines, of which a time-out of a read or of a caller is an argument.
-- These are calls of the system, printing and flags.
pub mod Prelude
pub mod Text
pub mod Dict
pub mod Glob
pub mod Files
pub mod Policy
pub mod Crypto
pub mod Proof
pub mod Identity
pub mod HostIdentity
pub mod Net
pub mod Listen
pub mod Portable
pub mod Agent
pub mod Session
pub mod UiState
pub mod Status
pub mod Control
pub mod Frame
pub mod Connection
pub mod EventLog
pub mod Startup
pub mod Device
pub mod Adb
pub mod Gate
pub mod Cli
mod Samples
