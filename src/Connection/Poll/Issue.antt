-- ===== src/Connection/Poll/Issue.antt =====
-- What a round does with a request: when a proof is issued, and that each request that is taken
-- is answered.
use zorin_host_agent.Prelude.{
  ℕ, ◌≤◌, ◌≡◌, refl, sym, subst, ◌⊎◌, inl, inr, false, none, some, List, [], ◌∷◌, arith, ==_refl,
  Bool-cases, Option-cases, ℤ, add_nat, pos, negsuc,
}
use zorin_host_agent.Text.{Text, text, text_eq, trim_space}
use zorin_host_agent.Crypto.{Crypto}
use zorin_host_agent.Proof.{OwnerProof, verify_owner_proof}
use zorin_host_agent.Agent.{ProofRequest, Agent, Effect}
use zorin_host_agent.Session.{write_session, write_owner_mode, put_touch, session_touch}
use zorin_host_agent.Control.{issued}
use zorin_host_agent.Connection.Queue.{set_queue, dequeue}
use zorin_host_agent.Connection.Poll.{
  clamp_ttl, Outgoing, Reply, connection_lost, unreadable_frame, frame, Round, outgoing,
  request_lines, sent_request, Phone, proof_of, checked_result, result_of, quiet_turn, poll_queue,
  poll_turn, line_turn, turn, is_poll, poll_presence, Turn,
}
use zorin_host_agent.Dict.{get_text}

pub clamp_ttl-bounds : (ttl : ℤ) → (5 ≤ clamp_ttl ttl) × (clamp_ttl ttl ≤ 120)
unfolding clamp_ttl
clamp_ttl-bounds (pos n) = (ground arith, ground arith)
clamp_ttl-bounds (negsuc n) = (omega arith, omega arith)

module _ (crypto : Crypto) (phone : Phone) where
  -- What one issued proof rests on.
  pub record IsIssued (r : Round) (a : Agent) (p : OwnerProof) : Type 0 where
    pub request : ProofRequest
    pub rest : List ProofRequest
    pub signature : Text
    pub queued : a.queues phone.conn ≡ request ∷ rest
    pub proof_is : p ≡ proof_of a.host_fp phone (outgoing r request) signature
    pub verified : verify_owner_proof crypto r.checked_at p (some phone.der) ≡ none

  result_of-issued :
      (host_fp : Text) (o : Outgoing) (checked_at : ℤ) (reply : Reply) (p : OwnerProof)
      → result_of crypto host_fp phone o checked_at reply ≡ issued p
      → (signature : Text) × (p ≡ proof_of host_fp phone o signature)
        × (verify_owner_proof crypto checked_at p (some phone.der) ≡ none)
  unfolding result_of checked_result
  result_of-issued host_fp o checked_at connection_lost p h = absurd (ground arith)
  result_of-issued host_fp o checked_at (unreadable_frame e) p h = absurd (ground arith)
  result_of-issued host_fp o checked_at (frame reply) p h =
      (get_text (text "SIGNATURE") reply, ground arith, ground arith)

  -- The round takes no request and gives no result, or it takes the oldest request of its
  -- connection, sends it unless the connection is lost, and has a result for its caller.
  abbrev pub IsTurn : Round → Agent → Turn → Type 0
  IsTurn r a t =
      ((t.result ≡ none) × (t.agent.queues phone.conn ≡ a.queues phone.conn))
      ⊎ (pr : ProofRequest) × (rest : List ProofRequest) × (a.queues phone.conn ≡ pr ∷ rest)
        × (t.agent.queues phone.conn ≡ rest)
        × (t.sent ≡ sent_request r.reply (request_lines (outgoing r pr)))
        × (t.result
            ≡ some
                (pr.result, result_of crypto a.host_fp phone (outgoing r pr) r.checked_at r.reply))

  queue_taken :
      (r : Round) (effects : List Effect) (a : Agent) (queue : List ProofRequest)
      → a.queues phone.conn ≡ queue
      → IsTurn r a (poll_queue crypto phone r effects (dequeue phone.conn a))
  unfolding poll_queue dequeue set_queue
  queue_taken r effects a [] h = inl (ground arith, ground arith)
  queue_taken r effects a (pr ∷ rest) h =
      inr (pr, rest, h, ground (arith, ==_refl phone.conn), ground arith, ground arith)

  poll_turn-takes :
      (r : Round) (line : Text) (a : Agent) → IsTurn r a (poll_turn crypto phone r line a)
  unfolding poll_turn session_touch write_session write_owner_mode put_touch
  poll_turn-takes r line a =
      let (touched, effects) = session_touch r.now phone.fp (poll_presence line) a in
      queue_taken r effects touched _ refl

  line_turn-takes :
      (r : Round) (line : Text) (a : Agent) → IsTurn r a (line_turn crypto phone r line a)
  unfolding line_turn quiet_turn
  line_turn-takes r line a = elim (Bool-cases (is_poll line)) [
    | inl poll ↦ rw poll (poll_turn-takes r line a)
    | inr other ↦ elim (Bool-cases (text_eq line (text "BYE"))) [
      | inl bye ↦ rw (other, bye) (inl (refl, refl))
      | inr odd ↦ rw (other, odd) (inl (refl, refl))
    ]
  ]

  -- The loop's body is that of its line, or the end where no line is read.
  pub turn-cases :
      (r : Round) (a : Agent)
      → (turn crypto phone r a ≡ quiet_turn a [] false)
        ⊎ (raw : Text) × (turn crypto phone r a ≡ line_turn crypto phone r (trim_space raw) a)
  unfolding turn
  turn-cases r a = elim (Option-cases r.line) [
    | inl gone ↦ inl (ground arith)
    | inr (raw, e) ↦ inr (raw, ground arith)
  ]

  -- In every round either no request is taken and no caller gets a result, or the oldest request of
  -- the connection is taken, its lines are sent unless the connection is lost over them, and its
  -- caller gets the one result, whether the phone answers, denies or is lost.
  pub turn-takes : (r : Round) (a : Agent) → IsTurn r a (turn crypto phone r a)
  unfolding quiet_turn
  turn-takes r a = elim (turn-cases r a) [
    | inl gone ↦ subst (IsTurn r a) (sym gone) (inl (refl, refl))
    | inr (raw, e) ↦ subst (IsTurn r a) (sym e) (line_turn-takes r (trim_space raw) a)
  ]

  -- A proof that a caller gets is of the oldest request of this connection: it has the request's
  -- action and resource, this host's and this phone's fingerprints, the nonce that was sent, and a
  -- lifetime from 5 to 120 seconds; and it has passed `verifyOwnerProof` with this phone's key.
  pub turn-issued :
      (r : Round) (a : Agent) (caller : ℕ) (p : OwnerProof)
      → (turn crypto phone r a).result ≡ some (caller, issued p)
      → IsIssued r a p
        × (seconds : ℕ) × (p.expires ≡ add_nat p.issued seconds)
        × (5 ≤ seconds)
        × (seconds ≤ 120)
  unfolding proof_of outgoing
  turn-issued r a caller p h = elim (turn-takes r a) [
    | inl (silent, _) ↦ absurd (ground arith)
    | inr (pr, rest, queued, _, _, result) ↦
        let (signature, proof_is, verified) =
          result_of-issued a.host_fp (outgoing r pr) r.checked_at r.reply p (ground arith) in
        let (low, high) = clamp_ttl-bounds pr.ttl in
        (
          record {
            request = pr;
            rest = rest;
            signature = signature;
            queued = queued;
            proof_is = proof_is;
            verified = verified;
          },
          clamp_ttl pr.ttl,
          ground arith,
          low,
          high,
        )
  ]
