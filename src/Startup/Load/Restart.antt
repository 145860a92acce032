-- ===== src/Startup/Load/Restart.antt =====
-- What a host that has started again grants and reports.
use zorin_host_agent.Prelude.{
  ℕ, ◌≡◌, refl, sym, ap, ◌∙◌, inl, inr, Bool, false, ◌&&◌, Option, some, List, [], ◌∷◌, ◌++◌, arith,
  if◌then◌else◌, Option-cases, any,
}
use zorin_host_agent.Text.{Text, text, text_eq}
use zorin_host_agent.Text.Laws.{text_eq-append}
use zorin_host_agent.Dict.{Dict}
use zorin_host_agent.Crypto.{Crypto}
use zorin_host_agent.Files.{Files, join_path, read_file, write-elsewhere}
use zorin_host_agent.Frame.{newline}
use zorin_host_agent.Agent.{DaemonHealth, Session, Agent}
use zorin_host_agent.HostIdentity.{HostIdentity}
use zorin_host_agent.Policy.{PolicyConfig}
use zorin_host_agent.Policy.Store.{
  PolicyCodec, policy_path, write_policy, write_then, stored_policy, migrate_stored, ensure_policy,
}
use zorin_host_agent.Policy.Defaults.{default_policy}
use zorin_host_agent.Policy.Migrate.{migrate_policy}
use zorin_host_agent.Startup.{ensure_control_token, token_path}
use zorin_host_agent.Startup.Load.{
  ConfigCodec, StateCodec, session_path, stored_sessions, stored_owner_mode, load_config, agent_of,
  Loaded, load_agent,
}
use zorin_host_agent.Control.{ControlResponse, answer, authorize_request}
use zorin_host_agent.Control.Authorize.{authorize_request-no_live}
use zorin_host_agent.Connection.Handshake.{Peer}
use zorin_host_agent.Connection.Handshake.Pairing.{after_handshakes, after_handshakes-enrolls_once}
use zorin_host_agent.Status.{nothing_seen, file_sessions, print_status}
use zorin_host_agent.Status.Authority.{is_trusted, is_unlocked, scan_sessions_lem}

ensure_control_token-elsewhere :
    (dir fresh path : Text) (fs : Files)
    → text_eq (token_path dir) path ≡ false
    → read_file path (ensure_control_token dir fresh fs).0 ≡ read_file path fs
unfolding ensure_control_token
ensure_control_token-elsewhere dir fresh path fs h =
    ground (arith, write-elsewhere (token_path dir) path (fresh ++ newline ∷ []) fs h)

write_policy-elsewhere :
    (codec : PolicyCodec) (at path : Text) (cfg : PolicyConfig) (fs : Files)
    → text_eq at path ≡ false
    → read_file path (write_policy codec at cfg fs).0 ≡ read_file path fs
unfolding write_policy
write_policy-elsewhere codec at path cfg fs h = elim (Option-cases (codec.marshal cfg)) [
  | inl e ↦ ground arith
  | inr (raw, e) ↦ ground (arith, write-elsewhere at path raw fs h)
]

ensure_policy-elsewhere :
    (codec : PolicyCodec) (dir path : Text) (fs : Files)
    → text_eq (policy_path dir) path ≡ false
    → read_file path (ensure_policy codec dir fs).0 ≡ read_file path fs
unfolding ensure_policy write_then migrate_stored
ensure_policy-elsewhere codec dir path fs h =
    elim (Option-cases (stored_policy codec (policy_path dir) fs)) [
      | inl e ↦
          ground (arith, write_policy-elsewhere codec (policy_path dir) path default_policy fs h)
      | inr (cfg, e) ↦
          ground
            (arith, write_policy-elsewhere codec (policy_path dir) path (migrate_policy cfg).0 fs h)
    ]

token_apart : (dir : Text) → text_eq (token_path dir) (session_path dir) ≡ false
unfolding token_path session_path join_path text text_eq
token_apart dir = text_eq-append (dir ++ text "/") (text "control.token") (text "session.json")

policy_apart : (dir : Text) → text_eq (policy_path dir) (session_path dir) ≡ false
unfolding policy_path session_path join_path text text_eq
policy_apart dir = text_eq-append (dir ++ text "/") (text "policy.json") (text "session.json")

print_status_lem :
    (now : ℕ) (health : Option DaemonHealth) (file : Option (List Session))
    → ((print_status now health file).trust
        ≡ (if any is_trusted (file_sessions file) then text "ACTIVE" else text "INACTIVE"))
      × ((print_status now health file).authority ≡ (
          if any is_trusted (file_sessions file) && any is_unlocked (file_sessions file)
          then text "ENABLED"
          else text "SUSPENDED"))
unfolding print_status
print_status_lem now health file =
    let (t, p) = scan_sessions_lem (file_sessions file) nothing_seen in
    (ground (arith, t), ground (arith, t, p))

handshakes-live :
    (crypto : Crypto) (sign : Text → Option Text) (host_pub : Text)
    (hs : List (ℕ × Peer × Dict Text)) (a : Agent)
    → (after_handshakes crypto sign host_pub hs a).live ≡ a.live
handshakes-live crypto sign host_pub hs a =
    elim (after_handshakes-enrolls_once crypto sign host_pub hs a) [
      | inl same ↦ ap (λ (b : Agent). b.live) same
      | inr (fp, pub_hex, e) ↦ ap (λ (b : Agent). b.live) e
    ]

module _ (sha256 : Text → Text) (codec : ConfigCodec) (policy : PolicyCodec) (state : StateCodec)
    (load_identity : Files → Files × Option HostIdentity) (dir fresh : Text) where
  -- The files once the token and the policy are there.
  abbrev started : Files → Files
  started fs = (ensure_policy policy dir (ensure_control_token dir fresh (load_identity fs).0).0).0

  load_agent-fresh :
      (fs fs' : Files) (l : Loaded)
      → load_agent sha256 codec policy state load_identity dir fresh fs ≡ (fs', some l)
      → (l.agent.live ≡ []) × (l.agent.session_file ≡ stored_sessions state dir (started fs))
  unfolding load_agent agent_of
  load_agent-fresh fs fs' l h = elim (Option-cases (load_identity fs).1) [
    | inl e ↦ absurd (ground arith)
    | inr (id, e) ↦ elim (Option-cases (ensure_control_token dir fresh (load_identity fs).0).1) [
      | inl k ↦ absurd (ground arith)
      | inr (t, k) ↦
          let made : agent_of sha256 id (load_config codec dir (load_identity fs).0)
                (stored_sessions state dir (started fs)) (stored_owner_mode state dir (started fs))
              ≡ l.agent =
            ground arith in
          (sym (ap (λ (a : Agent). a.live) made), sym (ap (λ (a : Agent). a.session_file) made))
    ]
  ]

  started-sessions :
      (fs : Files)
      → read_file (session_path dir) (load_identity fs).0 ≡ read_file (session_path dir) fs
      → stored_sessions state dir (started fs) ≡ stored_sessions state dir fs
  unfolding stored_sessions
  started-sessions fs h =
      let same : read_file (session_path dir) (started fs) ≡ read_file (session_path dir) fs =
        ensure_policy-elsewhere policy dir (session_path dir)
          (ensure_control_token dir fresh (load_identity fs).0).0 (policy_apart dir)
        ∙ ensure_control_token-elsewhere dir fresh (session_path dir) (load_identity fs).0
            (token_apart dir)
        ∙ h in
      rw (stored_sessions, same) refl

  -- After a start, and whatever phones have gone through the handshake since, with the pairing window
  -- open or not, no request is granted or put before a phone, whatever the policy allows, as long as
  -- no connection has come up. Yet what the status command says of trust and authority right after
  -- the start is what the sessions of the last run give, for a start does not clear session.json;
  -- reading the identity is taken not to touch that file.
  pub load_agent-no_grant :
      (crypto : Crypto) (sign : Text → Option Text) (host_pub : Text) (fs fs' : Files) (l : Loaded)
      (window : Bool) (hs : List (ℕ × Peer × Dict Text)) (cfg : PolicyConfig)
      (action resource prompt id random : Text) (explicit : Bool) (caller now : ℕ)
      (health : Option DaemonHealth)
      → read_file (session_path dir) (load_identity fs).0 ≡ read_file (session_path dir) fs
      → load_agent sha256 codec policy state load_identity dir fresh fs ≡ (fs', some l)
      → let last_run = file_sessions (stored_sessions state dir fs) in
        let b = after_handshakes crypto sign host_pub hs (record l.agent { pair_once = window }) in
        ((r : ControlResponse) × ((authorize_request cfg b action resource prompt id explicit random
              caller).0
            ≡ answer r)
          × (r.allowed ≡ false))
        × ((print_status now health l.agent.session_file).trust
            ≡ (if any is_trusted last_run then text "ACTIVE" else text "INACTIVE"))
        × ((print_status now health l.agent.session_file).authority ≡ (
            if any is_trusted last_run && any is_unlocked last_run
            then text "ENABLED"
            else text "SUSPENDED"))
  load_agent-no_grant crypto sign host_pub fs fs' l window hs cfg action resource prompt id random
        explicit caller now health keeps h =
      let (live, file) = load_agent-fresh fs fs' l h in
      let same = file ∙ started-sessions fs keeps in
      let (t, p) = print_status_lem now health (stored_sessions state dir fs) in
      let b = after_handshakes crypto sign host_pub hs (record l.agent { pair_once = window }) in
      (
        authorize_request-no_live cfg b action resource prompt id explicit random caller (
            handshakes-live crypto sign host_pub hs (record l.agent { pair_once = window }) ∙ live),
        ap (λ s. (print_status now health s).trust) same ∙ t,
        ap (λ s. (print_status now health s).authority) same ∙ p,
      )
