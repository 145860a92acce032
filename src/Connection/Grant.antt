-- ===== src/Connection/Grant.antt =====
-- From a request of a local client to the response that allows it: `authorizeDetailed` with the
-- connection's loop between its two halves.
use zorin_host_agent.Prelude.{
  ℕ, ◌≡◌, refl, ap, ◌∙◌, Bool, true, none, some, List, [], ◌∷◌, ◌++◌, arith, ==_refl, ℤ,
}
use zorin_host_agent.Text.{Text, trim_space}
use zorin_host_agent.Crypto.{Crypto}
use zorin_host_agent.Proof.{OwnerProof, verify_owner_proof}
use zorin_host_agent.Policy.{PolicyConfig}
use zorin_host_agent.Agent.{ProofRequest, LiveSession, Agent}
use zorin_host_agent.Control.{
  ControlResponse, failed, Asked, answer, ask, authorize_request, ProofResult, issued, refused,
  authorize_answer,
}
use zorin_host_agent.Control.Authorize.{decision, authorize_request-IsAsked}
use zorin_host_agent.Connection.Queue.{set_queue, enqueue, submit}
use zorin_host_agent.Connection.Poll.{Round, outgoing, Phone, proof_of, turn}
use zorin_host_agent.Connection.Poll.Issue.{turn-issued}

-- What an allowed response rests on: the policy, and a proof of this action and resource that
-- `verifyOwnerProof` accepted with the phone's key.
pub record IsGranted (crypto : Crypto) (phone : Phone) (cfg : PolicyConfig) (a : Agent)
    (action resource : Text) (response : ControlResponse) : Type 0 where
  pub allowed : (decision cfg a action resource).allowed ≡ true
  pub proof : OwnerProof
  pub carries : response.proof ≡ some proof
  pub action_is : proof.action ≡ trim_space action
  pub resource_is : proof.resource ≡ trim_space resource
  pub phone_is : proof.phone_fingerprint ≡ phone.fp
  pub checked_at : ℤ
  pub verified : verify_owner_proof crypto checked_at proof (some phone.der) ≡ none

answered_proof :
    (reason : Text) (l : LiveSession) (pr : ProofRequest) (result : ProofResult)
    → (authorize_answer reason l pr (some result)).0.allowed ≡ true
    → (p : OwnerProof) × (result ≡ issued p)
      × ((authorize_answer reason l pr (some result)).0.proof ≡ some p)
unfolding authorize_answer failed
answered_proof reason l pr (refused e) h = absurd (ground arith)
answered_proof reason l pr (issued p) h = (p, refl, refl)

-- Where a client's request has been put before a phone, in whatever state the phone's loop takes it
-- from the queue, a response that allows the action says that the policy allowed the trimmed action
-- and resource when the client asked, and carries a proof of just these by this phone, accepted by
-- `verifyOwnerProof` with the key of the phone's handshake.
pub authorize_answer-IsGranted :
    (crypto : Crypto) (phone : Phone) (cfg : PolicyConfig) (a b : Agent)
    (action resource prompt id fresh reason : Text) (explicit : Bool) (caller : ℕ) (l : LiveSession)
    (pr : ProofRequest) (rest : List ProofRequest) (r : Round) (result : ProofResult)
    → (authorize_request cfg a action resource prompt id explicit fresh caller).0 ≡ ask l pr
    → b.queues phone.conn ≡ pr ∷ rest
    → (turn crypto phone r b).result ≡ some (pr.result, result)
    → (authorize_answer reason l pr (some result)).0.allowed ≡ true
    → IsGranted crypto phone cfg a action resource (authorize_answer reason l pr (some result)).0
unfolding proof_of outgoing
authorize_answer-IsGranted crypto phone cfg a b action resource prompt id fresh reason explicit
      caller l pr rest r result asked queued taken ok =
    let from =
      authorize_request-IsAsked cfg a action resource prompt id explicit fresh caller l pr asked in
    let (p, is_issued, carries) = answered_proof reason l pr result ok in
    let (i, _, _, _, _) =
      turn-issued crypto phone r b pr.result p (taken ∙ ap (λ x. some (pr.result, x)) is_issued) in
    let same : i.request ≡ pr = ground (arith, i.queued) in
    record {
      allowed = from.allowed;
      proof = p;
      carries = carries;
      action_is =
          ap (λ (q : OwnerProof). q.action) i.proof_is
          ∙ ap (λ (q : ProofRequest). q.action) same
          ∙ from.action_is;
      resource_is =
          ap (λ (q : OwnerProof). q.resource) i.proof_is
          ∙ ap (λ (q : ProofRequest). q.resource) same
          ∙ from.resource_is;
      phone_is = ap (λ (q : OwnerProof). q.phone_fingerprint) i.proof_is;
      checked_at = r.checked_at;
      verified = i.verified;
    }

-- Where the client gets no response at once, its request has been put before a phone, and waits last
-- in the queue of that phone's connection.
pub submit-waits :
    (asked : Asked) (a b : Agent)
    → submit asked a ≡ (none, b)
    → (l : LiveSession) × (pr : ProofRequest) × (asked ≡ ask l pr)
      × (b.queues l.conn ≡ a.queues l.conn ++ pr ∷ [])
unfolding submit enqueue set_queue
submit-waits (answer r) a b h = absurd (ground arith)
submit-waits (ask l pr) a b h = (l, pr, refl, ground (arith, ==_refl l.conn))
