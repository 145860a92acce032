-- ===== src/Connection/Queue.antt =====
-- main.go and control.go: the channel `req` of a connection, with a buffer of eight requests.
pub mod Order
use zorin_host_agent.Prelude.{
  ℕ, Option, none, some, List, [], ◌∷◌, ◌++◌, ltb, ◌==◌, if◌then◌else◌, length,
}
use zorin_host_agent.Control.{ControlResponse, failed, Asked, answer, ask}
use zorin_host_agent.Agent.{ProofRequest, Agent}
use zorin_host_agent.Text.{text}

abbrev pub queue_limit : ℕ
queue_limit = 8

-- The queues with one replaced.
unfoldable pub set_queue : ℕ → List ProofRequest → Agent → Agent
set_queue conn requests a = record a { queues = λ c. if c == conn then requests else a.queues c }

-- `live.req <- pr`; `none` is the time-out of a full buffer.
unfoldable pub enqueue : ℕ → ProofRequest → Agent → Option Agent
enqueue conn pr a =
    if ltb (length (a.queues conn)) queue_limit
    then some (set_queue conn (a.queues conn ++ pr ∷ []) a)
    else none

-- The `select` of `handle`: the oldest request, if there is one.
unfoldable pub dequeue : ℕ → Agent → Option ProofRequest × Agent
dequeue conn a = elim (a.queues conn) [
  | [] ↦ (none, a)
  | pr ∷ rest ↦ (some pr, set_queue conn rest a)
]

-- The first `select` of `authorizeDetailed`: the request waits in the queue of the connection that
-- is asked, or there is a response at once.
unfoldable pub submit : Asked → Agent → Option ControlResponse × Agent
submit (answer r) a = (some r, a)
submit (ask l pr) a = elim (enqueue l.conn pr a) [
  | none ↦ (some (failed (text "phone proof queue unavailable")), a)
  | some a' ↦ (none, a')
]
