-- ===== src/Connection/Run.antt =====
-- main.go: the loop of `handle` over the rounds, with `sessionUp` before and `sessionDown` behind.
pub mod Closing
pub mod Keeping
pub mod Answers
use zorin_host_agent.Prelude.{
  ℕ, Bool, true, false, Option, none, some, List, [], ◌∷◌, ◌++◌, if◌then◌else◌,
}
use zorin_host_agent.Text.{Text, text}
use zorin_host_agent.Dict.{Dict, get_text}
use zorin_host_agent.Crypto.{Crypto}
use zorin_host_agent.Agent.{LiveSession, Effect, Agent}
use zorin_host_agent.Session.{session_up, session_down}
use zorin_host_agent.Control.{ProofResult}
use zorin_host_agent.Connection.Handshake.{closed, authentic, Peer, handshake, Outcome}
use zorin_host_agent.Connection.Poll.{Round, Phone, Turn, turn}

-- What a connection has done after some rounds.
pub record Served : Type 0 where
  pub agent : Agent
  pub effects : List Effect
  pub results : List (ℕ × ProofResult)
  pub is_open : Bool

unfoldable pub results_of : Option (ℕ × ProofResult) → List (ℕ × ProofResult)
results_of none = []
results_of (some r) = r ∷ []

-- A turn that is the last one, with the deferred `sessionDown`.
unfoldable pub closing : Phone → Turn → Served
closing phone t =
    let (a, effects) = session_down phone.fp t.agent in
    record {
      agent = a;
      effects = t.effects ++ effects;
      results = results_of t.result;
      is_open = false;
    }

unfoldable pub and_then : Turn → Served → Served
and_then t later = record {
  agent = later.agent;
  effects = t.effects ++ later.effects;
  results = results_of t.result ++ later.results;
  is_open = later.is_open;
}

-- The loop over the rounds, until one ends the connection or none is left.
unfoldable pub serve_rounds : Crypto → Phone → List Round → Agent → Served
serve_rounds crypto phone [] a = record { agent = a; effects = []; results = []; is_open = true }
serve_rounds crypto phone (r ∷ rounds) a =
    let t = turn crypto phone r a in
    let later = serve_rounds crypto phone rounds t.agent in
    if t.is_open then and_then t later else closing phone t

unfoldable pub phone_of : LiveSession → Dict Text → Phone
phone_of l frame = record {
  fp = l.phone_fp;
  der = l.phone_der;
  pub_hex = get_text (text "PHONE_PUB") frame;
  conn = l.conn;
}

-- Behind the handshake: `up_at` is the time of `sessionUp`.
unfoldable pub serve_outcome :
    Crypto → ℕ → Dict Text → List Round → Agent → List Effect → Outcome → Served
serve_outcome crypto up_at reply rounds a effects closed = record {
  agent = a;
  effects = effects;
  results = [];
  is_open = false;
}
serve_outcome crypto up_at reply rounds a effects (authentic l) =
    let (opened, up_effects) = session_up up_at l a in
    let served = serve_rounds crypto (phone_of l reply) rounds opened in
    record served { effects = effects ++ (up_effects ++ served.effects) }

-- A connection whose frame is read, from there on.
unfoldable pub serve_frame :
    Crypto → (Text → Option Text) → Text → ℕ → ℕ → Peer → Dict Text → List Round → Agent → Served
serve_frame crypto sign host_pub now up_at peer reply rounds a =
    let h = handshake crypto sign host_pub now peer reply a in
    serve_outcome crypto up_at reply rounds h.agent h.effects h.outcome
