-- ===== src/Connection/Run/Keeping.antt =====
-- A whole connection keeps the sessions, the live connections and the two files in agreement.
use zorin_host_agent.Prelude.{
  ℕ, ◌<◌, ◌≡◌, refl, sym, subst, ◌⊎◌, inl, inr, Bool, Option, none, some, List, [], ◌∷◌, arith,
  Bool-cases,
}
use zorin_host_agent.Text.{Text, text, text_eq, trim_space}
use zorin_host_agent.Dict.{Dict, lookup}
use zorin_host_agent.Crypto.{Crypto}
use zorin_host_agent.Agent.{ProofRequest, LiveSession, Effect, Agent}
use zorin_host_agent.Session.{
  owner_mode_of, session_touch, write_session, write_owner_mode, put_session, session_up,
  touch_live, put_touch,
}
use zorin_host_agent.Session.Invariant.{
  IsConsistent, session_touch-IsConsistent, session_down-IsConsistent, session_up-IsConsistent,
}
use zorin_host_agent.Connection.Handshake.{Peer, handshake, Outcome, closed, authentic}
use zorin_host_agent.Connection.Handshake.Pairing.{enrolled, handshake-enrolls}
use zorin_host_agent.Connection.Queue.{set_queue, dequeue}
use zorin_host_agent.Connection.Poll.{
  is_poll, poll_presence, Round, Phone, quiet_turn, poll_queue, poll_turn, line_turn, turn,
}
use zorin_host_agent.Connection.Poll.Issue.{turn-cases}
use zorin_host_agent.Connection.Run.{
  closing, and_then, serve_rounds, serve_frame, phone_of, serve_outcome,
}
use zorin_host_agent.Dict.Laws.{lookup-insert_self}

-- The live entry of the phone is there and all agrees.
abbrev pub IsServing : Phone → Agent → Type 0
IsServing phone a = (l : LiveSession) × (lookup phone.fp a.live ≡ some l) × IsConsistent a

set_queue-IsConsistent :
    (conn : ℕ) (prs : List ProofRequest) (a : Agent)
    → IsConsistent a
    → IsConsistent (set_queue conn prs a)
unfolding set_queue owner_mode_of
set_queue-IsConsistent conn prs a c = record {
  sessions_map = c.sessions_map;
  live_map = c.live_map;
  agree = c.agree;
  session_file = c.session_file;
  owner_mode = c.owner_mode;
}

enrolled-IsConsistent :
    (fp pub_hex : Text) (a : Agent) → IsConsistent a → IsConsistent (enrolled fp pub_hex a)
unfolding owner_mode_of
enrolled-IsConsistent fp pub_hex a c = record {
  sessions_map = c.sessions_map;
  live_map = c.live_map;
  agree = c.agree;
  session_file = c.session_file;
  owner_mode = c.owner_mode;
}

queue-cases :
    (conn : ℕ) (a : Agent)
    → ((dequeue conn a).1 ≡ a)
      ⊎ (prs : List ProofRequest) × ((dequeue conn a).1 ≡ set_queue conn prs a)
unfolding dequeue
queue-cases conn a = queue_of (a.queues conn) refl
  where
    queue_of :
        (queue : List ProofRequest)
        → a.queues conn ≡ queue
        → ((dequeue conn a).1 ≡ a)
          ⊎ (prs : List ProofRequest) × ((dequeue conn a).1 ≡ set_queue conn prs a)
    queue_of [] e = inl (ground arith)
    queue_of (pr ∷ prs) e = inr (prs, ground arith)

dequeue-IsServing :
    (phone : Phone) (conn : ℕ) (a : Agent) → IsServing phone a → IsServing phone (dequeue conn a).1
unfolding dequeue set_queue
dequeue-IsServing phone conn a (l, found, c) = elim (queue-cases conn a) [
  | inl same ↦ subst (IsServing phone) (sym same) (l, found, c)
  | inr (prs, e) ↦ subst (IsServing phone) (sym e) (l, found, set_queue-IsConsistent conn prs a c)
]

touch-live :
    (now : ℕ) (fp : Text) (present : Bool) (a : Agent) (l : LiveSession)
    → lookup fp a.live ≡ some l
    → lookup fp (session_touch now fp present a).0.live ≡ some (record l { user_present = present })
unfolding session_touch write_session write_owner_mode put_touch touch_live
touch-live now fp present a l found =
    ground (arith, lookup-insert_self fp (record l { user_present = present }) a.live)

touch-IsServing :
    (now : ℕ) (phone : Phone) (present : Bool) (a : Agent)
    → IsServing phone a
    → IsServing phone (session_touch now phone.fp present a).0
touch-IsServing now phone present a (l, found, c) = (
  record l { user_present = present },
  touch-live now phone.fp present a l found,
  session_touch-IsConsistent now phone.fp present a l found c,
)

poll_queue-agent :
    (crypto : Crypto) (phone : Phone) (r : Round) (effects : List Effect)
    (q : Option ProofRequest × Agent)
    → (poll_queue crypto phone r effects q).agent ≡ q.1
unfolding poll_queue
poll_queue-agent crypto phone r effects (none, a) = refl
poll_queue-agent crypto phone r effects (some pr, a) = refl

line_turn-IsServing :
    (crypto : Crypto) (phone : Phone) (r : Round) (line : Text) (a : Agent)
    → IsServing phone a
    → IsServing phone (line_turn crypto phone r line a).agent
unfolding line_turn poll_turn quiet_turn
line_turn-IsServing crypto phone r line a s = elim (Bool-cases (is_poll line)) [
  | inl poll ↦ rw poll (
      subst (IsServing phone) (sym (poll_queue-agent crypto phone r _ _)) (
        dequeue-IsServing phone phone.conn _
          (touch-IsServing r.now phone (poll_presence line) a s)))
  | inr other ↦ elim (Bool-cases (text_eq line (text "BYE"))) [
    | inl bye ↦ rw (other, bye) s
    | inr odd ↦ rw (other, odd) s
  ]
]

turn-IsServing :
    (crypto : Crypto) (phone : Phone) (r : Round) (a : Agent)
    → IsServing phone a
    → IsServing phone (turn crypto phone r a).agent
unfolding quiet_turn
turn-IsServing crypto phone r a s = elim (turn-cases crypto phone r a) [
  | inl gone ↦ rw gone s
  | inr (raw, e) ↦ rw e (line_turn-IsServing crypto phone r (trim_space raw) a s)
]

serve_rounds-IsConsistent :
    (crypto : Crypto) (phone : Phone) (rounds : List Round) (a : Agent)
    → IsServing phone a
    → IsConsistent (serve_rounds crypto phone rounds a).agent
unfolding serve_rounds and_then closing
serve_rounds-IsConsistent crypto phone [] a (l, found, c) = c
serve_rounds-IsConsistent crypto phone (r ∷ rounds) a s =
    let next = turn-IsServing crypto phone r a s in
    elim (Bool-cases (turn crypto phone r a).is_open) [
      | inl on ↦
          rw on (serve_rounds-IsConsistent crypto phone rounds (turn crypto phone r a).agent next)
      | inr off ↦ rw off (session_down-IsConsistent phone.fp (turn crypto phone r a).agent next.2)
    ]

handshake-IsConsistent :
    (crypto : Crypto) (sign : Text → Option Text) (host_pub : Text) (now : ℕ) (peer : Peer)
    (reply : Dict Text) (a : Agent)
    → IsConsistent a
    → IsConsistent (handshake crypto sign host_pub now peer reply a).agent
handshake-IsConsistent crypto sign host_pub now peer reply a c =
    elim (handshake-enrolls crypto sign host_pub now peer reply a) [
      | inl (same, _) ↦ rw same c
      | inr (der, _, _, _, changed) ↦ rw changed (enrolled-IsConsistent _ _ a c)
    ]

up-IsServing :
    (now : ℕ) (l : LiveSession) (reply : Dict Text) (a : Agent)
    → 0 < now
    → IsConsistent a
    → IsServing (phone_of l reply) (session_up now l a).0
unfolding session_up write_session write_owner_mode put_session phone_of
up-IsServing now l reply a h c =
    (l, lookup-insert_self l.phone_fp l a.live, session_up-IsConsistent now l a h c)

serve_outcome-IsConsistent :
    (crypto : Crypto) (up_at : ℕ) (reply : Dict Text) (rounds : List Round) (a : Agent)
    (effects : List Effect) (o : Outcome)
    → 0 < up_at
    → IsConsistent a
    → IsConsistent (serve_outcome crypto up_at reply rounds a effects o).agent
unfolding serve_outcome
serve_outcome-IsConsistent crypto up_at reply rounds a effects closed h c = c
serve_outcome-IsConsistent crypto up_at reply rounds a effects (authentic l) h c =
    serve_rounds-IsConsistent crypto (phone_of l reply) rounds (session_up up_at l a).0
      (up-IsServing up_at l reply a h c)

-- If each phone has a session exactly if it has a live connection, and both files are up to date,
-- then it is so after the frame of a phone and any rounds of its connection, its end included,
-- which comes up at a time that is not zero.
pub serve_frame-IsConsistent :
    (crypto : Crypto) (sign : Text → Option Text) (host_pub : Text) (now up_at : ℕ) (peer : Peer)
    (reply : Dict Text) (rounds : List Round) (a : Agent)
    → 0 < up_at
    → IsConsistent a
    → IsConsistent (serve_frame crypto sign host_pub now up_at peer reply rounds a).agent
unfolding serve_frame
serve_frame-IsConsistent crypto sign host_pub now up_at peer reply rounds a pos_time c =
    serve_outcome-IsConsistent crypto up_at reply rounds _ _ _ pos_time
      (handshake-IsConsistent crypto sign host_pub now peer reply a c)
