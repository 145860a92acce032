-- ===== src/Connection/Queue/Order.antt =====
-- The requests of a connection: the buffer is bounded and kept in order, and no other is touched.
use zorin_host_agent.Prelude.{
  ℕ, zero, suc, ◌≤◌, ◌≡◌, refl, ◌⊎◌, inl, inr, none, some, List, [], ◌∷◌, ◌++◌, arith, ltb, ==_refl,
  Bool-cases, length, length-append,
}
use zorin_host_agent.Agent.{ProofRequest, Agent}
use zorin_host_agent.Connection.Queue.{queue_limit, set_queue, enqueue, dequeue}

-- The requests that are taken in turn, at most `n`, and the agent then.
abbrev pub drain : ℕ → ℕ → Agent → List ProofRequest × Agent
drain zero conn a = ([], a)
drain (suc n) conn a =
    let (oldest, a') = dequeue conn a in
    let (prs, b) = drain n conn a' in elim oldest [ none ↦ ([], a') | some pr ↦ (pr ∷ prs, b) ]

-- A request that is accepted stands behind all others of its connection, the buffer keeps its
-- bound, and the queues of other connections are as they were; one is turned away exactly if the
-- buffer is full.
pub enqueue-last :
    (conn other : ℕ) (pr : ProofRequest) (a : Agent)
    → ((enqueue conn pr a ≡ none) × (queue_limit ≤ length (a.queues conn)))
      ⊎ (b : Agent) × (enqueue conn pr a ≡ some b)
        × (b.queues conn ≡ a.queues conn ++ pr ∷ [])
        × (length (b.queues conn) ≤ queue_limit)
        × ((conn ≡ other) ⊎ (b.queues other ≡ a.queues other))
unfolding enqueue set_queue
enqueue-last conn other pr a = elim (Bool-cases (ltb (length (a.queues conn)) queue_limit)) [
  | inl room ↦ inr (
    set_queue conn (a.queues conn ++ pr ∷ []) a,
    ground arith,
    ground (arith, ==_refl conn),
    ground (arith, ==_refl conn, length-append (a.queues conn) (pr ∷ [])),
    ground arith,
  )
  | inr full ↦ inl (ground arith, ground arith)
]

-- Requests are taken in the order in which they were accepted: as many takings as there are
-- requests give the whole queue, the oldest first, and leave it empty.
pub drain-fifo :
    (conn : ℕ) (prs : List ProofRequest) (a : Agent)
    → a.queues conn ≡ prs
    → ((drain (length prs) conn a).0 ≡ prs) × ((drain (length prs) conn a).1.queues conn ≡ [])
unfolding dequeue set_queue
drain-fifo conn [] a h = (refl, h)
drain-fifo conn (pr ∷ prs) a h =
    let (l, r) =
      drain-fifo conn prs (set_queue conn prs a)
        (unfold set_queue in ground (arith, ==_refl conn)) in
    ground arith
