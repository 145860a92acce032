-- ===== src/Control/Authorize.antt =====
-- When a phone is asked for a proof, and what its answer becomes.
use zorin_host_agent.Prelude.{
  ℕ, ◌≤◌, ◌≡◌, refl, ◌↔◌, ◌⊎◌, inl, inr, Bool, true, false, not, ◌||◌, Option, none, some, [],
  arith, if◌then◌else◌, Bool-cases, length, take, is_empty, length-take, lt_int, pos,
}
use zorin_host_agent.Text.{Text, text, equal_fold, trim_space}
use zorin_host_agent.Text.Laws.{text_eq_iff}
use zorin_host_agent.Dict.{values}
use zorin_host_agent.Policy.{PolicyConfig, PolicyContext, PolicyDecision, evaluate_policy}
use zorin_host_agent.Policy.DefaultDecisions.{all_guarded, evaluate_policy-guarded}
use zorin_host_agent.Proof.{OwnerProof}
use zorin_host_agent.Agent.{Agent, LiveSession, ProofRequest}
use zorin_host_agent.Control.{
  Asked, answer, ask, ControlRequest, ControlResponse, ask_phone, authorize_request,
  authorize_answer, ProofResult, issued, refused, choose_live, is_live_present, proof_ttl,
  max_prompt, handle_control, is_unauthorized, failed, denied,
}

-- The context in which `authorizeDetailed` evaluates the policy.
abbrev pub context_of : Agent → PolicyContext
context_of a = record {
  trusted = not (is_empty a.live);
  owner_present = is_live_present (choose_live none (values a.live));
}

abbrev pub decision : PolicyConfig → Agent → Text → Text → PolicyDecision
decision cfg a action resource =
    evaluate_policy cfg (trim_space action) (trim_space resource) (context_of a)

-- What a request to the phone rests on.
pub record IsAsked (cfg : PolicyConfig) (a : Agent) (action resource : Text) (explicit : Bool)
    (l : LiveSession) (pr : ProofRequest) : Type 0 where
  pub allowed : (decision cfg a action resource).allowed ≡ true
  pub chosen : choose_live none (values a.live) ≡ some l
  pub action_is : pr.action ≡ trim_space action
  pub resource_is : pr.resource ≡ trim_space resource
  pub explicit_is : pr.explicit ≡ (explicit || (decision cfg a action resource).require_explicit)
  pub ttl_positive : lt_int (pos 0) pr.ttl ≡ true
  pub prompt_fits : length pr.prompt ≤ max_prompt

proof_ttl-positive : (d : PolicyDecision) → lt_int (pos 0) (proof_ttl d) ≡ true
unfolding proof_ttl
proof_ttl-positive d = ground arith

prompt-fits : (s : Text) → length (take max_prompt s) ≤ max_prompt
prompt-fits s = omega (arith, length-take max_prompt s)

ask_phone-asked :
    (d : PolicyDecision) (live : Option LiveSession) (action resource prompt id : Text)
    (explicit : Bool) (caller : ℕ) (l : LiveSession) (pr : ProofRequest)
    → (ask_phone d live action resource prompt id explicit caller).0 ≡ ask l pr
    → (d.allowed ≡ true)
      × (live ≡ some l)
      × (pr.action ≡ action)
      × (pr.resource ≡ resource)
      × (pr.explicit ≡ (explicit || d.require_explicit))
      × (pr.ttl ≡ proof_ttl d)
      × (pr.prompt ≡ prompt)
unfolding ask_phone
ask_phone-asked d live action resource prompt id explicit caller l pr h = ground arith

asked_parts :
    (cfg : PolicyConfig) (a : Agent) (action resource prompt id : Text) (explicit : Bool)
    (fresh : Text) (caller : ℕ) (l : LiveSession) (pr : ProofRequest)
    → (authorize_request cfg a action resource prompt id explicit fresh caller).0 ≡ ask l pr
    → (ask_phone
        (decision cfg a action resource)
        (choose_live none (values a.live))
        (trim_space action)
        (trim_space resource)
        (take max_prompt (trim_space prompt))
        (if is_empty (trim_space id) then fresh else trim_space id)
        explicit
        caller).0
      ≡ ask l pr
unfolding authorize_request
asked_parts cfg a action resource prompt id explicit fresh caller l pr h =
    elim (Bool-cases (is_empty (trim_space action) || is_empty (trim_space resource))) [
      | inl e ↦ ground arith
      | inr e ↦ ground arith
    ]

-- A phone is asked only where the policy allows the trimmed action and resource in the context of
-- the live connections; the connection that is asked is the chosen one, the caller can make the
-- request explicit but not take the policy's demand away, the lifetime is positive, and the prompt
-- has 360 bytes at most.
pub authorize_request-IsAsked :
    (cfg : PolicyConfig) (a : Agent) (action resource prompt id : Text) (explicit : Bool)
    (fresh : Text) (caller : ℕ) (l : LiveSession) (pr : ProofRequest)
    → (authorize_request cfg a action resource prompt id explicit fresh caller).0 ≡ ask l pr
    → IsAsked cfg a action resource explicit l pr
authorize_request-IsAsked cfg a action resource prompt id explicit fresh caller l pr h =
    let (allowed, live, act, res, exp, ttl, prm) =
      ask_phone-asked _ _ _ _ _ _ explicit caller l pr
        (asked_parts cfg a action resource prompt id explicit fresh caller l pr h) in
    record {
      allowed = allowed;
      chosen = live;
      action_is = act;
      resource_is = res;
      explicit_is = exp;
      ttl_positive = rw ttl (proof_ttl-positive (decision cfg a action resource));
      prompt_fits = rw prm (prompt-fits (trim_space prompt));
    }

-- Under a policy that denies by default and whose allowing rules all require trust, and presence
-- or an explicit approval, a request that asks for no explicit approval goes to an unlocked phone
-- alone.
pub authorize_request-guarded :
    (cfg : PolicyConfig) (a : Agent) (action resource prompt id : Text) (explicit : Bool)
    (fresh : Text) (caller : ℕ) (l : LiveSession) (pr : ProofRequest)
    → equal_fold cfg.default_effect (text "allow") ≡ false
    → all_guarded cfg.rules ≡ true
    → (authorize_request cfg a action resource prompt id explicit fresh caller).0 ≡ ask l pr
    → (pr.explicit ≡ true) ⊎ (l.user_present ≡ true)
authorize_request-guarded cfg a action resource prompt id explicit fresh caller l pr deny guarded
      h =
    let asked =
      authorize_request-IsAsked cfg a action resource prompt id explicit fresh caller l pr h in
    let (_, g) =
      evaluate_policy-guarded cfg (trim_space action) (trim_space resource) (context_of a) deny
        guarded asked.allowed in
    elim g [ inl e ↦ inl (ground arith) | inr p ↦ inr (unfold is_live_present in ground arith) ]

ask_phone-no_live :
    (d : PolicyDecision) (action resource prompt id : Text) (explicit : Bool) (caller : ℕ)
    → (r : ControlResponse) × ((ask_phone d none action resource prompt id explicit caller).0
        ≡ answer r)
      × (r.allowed ≡ false)
unfolding ask_phone denied
ask_phone-no_live d action resource prompt id explicit caller = elim (Bool-cases d.allowed) [
  | inl e ↦ (denied (text "trusted session disappeared"), ground arith, refl)
  | inr e ↦ (denied d.reason, ground arith, refl)
]

-- Without a live connection no phone is asked, and the response allows nothing.
pub authorize_request-no_live :
    (cfg : PolicyConfig) (a : Agent) (action resource prompt id : Text) (explicit : Bool)
    (fresh : Text) (caller : ℕ)
    → a.live ≡ []
    → (r : ControlResponse) × ((authorize_request cfg a action resource prompt id explicit fresh
          caller).0
        ≡ answer r)
      × (r.allowed ≡ false)
unfolding authorize_request choose_live values failed
authorize_request-no_live cfg a action resource prompt id explicit fresh caller e =
    elim (Bool-cases (is_empty (trim_space action) || is_empty (trim_space resource))) [
      | inl blank ↦ (failed (text "action and resource are required"), ground arith, refl)
      | inr named ↦
          let live : choose_live none (values a.live) ≡ none = rw e in
          let (r, answered, closed) =
            ask_phone-no_live (decision cfg a action resource) (trim_space action)
              (trim_space resource) (take max_prompt (trim_space prompt))
              (if is_empty (trim_space id) then fresh else trim_space id) explicit caller in
          (r, ground arith, closed)
    ]

-- The request reached the phone or was answered without an error.
abbrev pub is_served : Asked → Bool
is_served (answer r) = r.ok
is_served (ask l pr) = true

-- Only a request that decodes, carries the control token, which is not empty, and names one of the
-- two operations is served.
pub handle_control-served :
    (token : Text) (cfg : PolicyConfig) (a : Agent) (req : Option ControlRequest) (fresh : Text)
    (caller : ℕ)
    → is_served (handle_control token cfg a req fresh caller).0 ≡ true
    → (q : ControlRequest) × (req ≡ some q)
      × (q.token ≡ token)
      × (is_empty token ≡ false)
      × ((q.op ≡ text "authorize") ⊎ (q.op ≡ text "status"))
unfolding handle_control is_unauthorized failed
handle_control-served token cfg a none fresh caller h = absurd (ground arith)
handle_control-served token cfg a (some q) fresh caller h = (
  q,
  refl,
  ground (arith, text_eq_iff q.token token),
  ground (arith, text_eq_iff q.token token),
  ground (arith, text_eq_iff q.op (text "authorize"), text_eq_iff q.op (text "status")),
)

-- A response allows an action exactly if the phone issued a proof, and then it carries that proof.
pub authorize_answer-allowed :
    (reason : Text) (l : LiveSession) (pr : ProofRequest) (result : Option ProofResult)
    → ((authorize_answer reason l pr result).0.allowed ≡ true) ↔ (
        (p : OwnerProof) × (result ≡ some (issued p))
        × ((authorize_answer reason l pr result).0.proof ≡ some p))
unfolding authorize_answer failed
authorize_answer-allowed reason l pr none =
    (λ e. absurd (ground arith), λ (p, e, _). absurd (ground arith))
authorize_answer-allowed reason l pr (some (refused e)) =
    (λ h. absurd (ground arith), λ (p, e', _). absurd (ground arith))
authorize_answer-allowed reason l pr (some (issued p)) = (λ h. (p, refl, refl), λ h. refl)
