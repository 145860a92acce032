-- ===== src/Gate/Timeouts.antt =====
-- The time that a client waits, and the time that the agent waits for the phone.
use zorin_host_agent.Prelude.{ℕ, ◌<◌, ◌≡◌, ◌⊎◌, Bool, true, false, arith}
use zorin_host_agent.Text.{Text}
use zorin_host_agent.Policy.{PolicyConfig}
use zorin_host_agent.Agent.{ProofRequest, LiveSession, Agent}
use zorin_host_agent.Control.{ask, authorize_request}
use zorin_host_agent.Control.Authorize.{decision, authorize_request-IsAsked}
use zorin_host_agent.Gate.{client_timeout, answer_wait}

-- A client outlasts the agent's wait for the phone, except where the policy has made a request
-- explicit that the client did not: then the client gives up first.
pub authorize_request-client_timeout :
    (cfg : PolicyConfig) (a : Agent) (action resource prompt id : Text) (explicit : Bool)
    (fresh : Text) (caller : ℕ) (l : LiveSession) (pr : ProofRequest)
    → (authorize_request cfg a action resource prompt id explicit fresh caller).0 ≡ ask l pr
    → ((pr.explicit ≡ explicit) × (answer_wait pr.explicit < client_timeout explicit))
      ⊎ (explicit ≡ false)
        × ((decision cfg a action resource).require_explicit ≡ true)
        × (client_timeout explicit < answer_wait pr.explicit)
unfolding client_timeout answer_wait
authorize_request-client_timeout cfg a action resource prompt id explicit fresh caller l pr h =
    let asked =
      authorize_request-IsAsked cfg a action resource prompt id explicit fresh caller l pr h in
    ground (arith, asked.explicit_is)
