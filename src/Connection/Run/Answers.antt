-- ===== src/Connection/Run/Answers.antt =====
-- Which callers a connection has answered after its rounds, and in which order.
use zorin_host_agent.Prelude.{
  ℕ, ◌+◌, ◌≡◌, Bool, false, none, some, List, [], ◌∷◌, map, if◌then◌else◌, take, drop,
}
use zorin_host_agent.Text.{Text, trim_space}
use zorin_host_agent.Crypto.{Crypto}
use zorin_host_agent.Agent.{ProofRequest, Agent}
use zorin_host_agent.Control.{ProofResult}
use zorin_host_agent.Connection.Poll.{Round, is_poll}

-- The callers that wait for the requests.
abbrev pub callers : List ProofRequest → List ℕ
callers queue = map (λ pr. pr.result) queue

abbrev pub answered : List (ℕ × ProofResult) → List ℕ
answered results = map (λ r. r.0) results

-- Whether the phone polls in this round.
abbrev pub polls_in : Round → Bool
polls_in r = elim r.line [ none ↦ false | some raw ↦ is_poll (trim_space raw) ]

pub count_polls : List Round → ℕ
count_polls [] = 0
count_polls (r ∷ rounds) = (if polls_in r then 1 else 0) + count_polls rounds

-- The queue after some number of its requests were taken, each caller answered in turn.
abbrev pub IsTaken : List ProofRequest → ℕ → List (ℕ × ProofResult) → List ProofRequest → Type 0
IsTaken queue n results left = (answered results ≡ take n (callers queue)) × (left ≡ drop n queue)
