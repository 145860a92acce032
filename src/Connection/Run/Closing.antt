-- ===== src/Connection/Run/Closing.antt =====
-- The end of a connection, and the results of its whole run.
use zorin_host_agent.Prelude.{
  ℕ, ◌≡◌, refl, ap, subst, ◌∙◌, inl, inr, false, Option, none, some, List, [], ◌∷◌, arith,
  Bool-cases, All, All-append, ℤ,
}
use zorin_host_agent.Text.{Text, trim_space}
use zorin_host_agent.Dict.{lookup}
use zorin_host_agent.Crypto.{Crypto}
use zorin_host_agent.Proof.{OwnerProof, verify_owner_proof}
use zorin_host_agent.Agent.{Agent}
use zorin_host_agent.Session.{write_session, write_owner_mode, put_touch, session_touch}
use zorin_host_agent.Session.Overlap.{down_gone}
use zorin_host_agent.Control.{ProofResult, issued, refused}
use zorin_host_agent.Connection.Queue.{set_queue, dequeue}
use zorin_host_agent.Connection.Poll.{
  Round, Phone, proof_of, Turn, quiet_turn, poll_queue, poll_turn, line_turn, turn,
}
use zorin_host_agent.Connection.Poll.Issue.{turn-cases, turn-issued}
use zorin_host_agent.Connection.Run.{results_of, closing, and_then, serve_rounds}

-- A result of a phone's connection: a proof is one that `verifyOwnerProof` accepted with the phone's
-- key, with the fingerprints of this host and of this phone.
abbrev pub IsSound : Crypto → Phone → Text → ℕ × ProofResult → Type 0
IsSound crypto phone host_fp (caller, refused e) = Unit
IsSound crypto phone host_fp (caller, issued p) =
    (p.host_fingerprint ≡ host_fp)
    × (p.phone_fingerprint ≡ phone.fp)
    × (checked_at : ℤ) × (verify_owner_proof crypto checked_at p (some phone.der) ≡ none)

line_turn-host :
    (crypto : Crypto) (phone : Phone) (r : Round) (line : Text) (a : Agent)
    → (line_turn crypto phone r line a).agent.host_fp ≡ a.host_fp
unfolding line_turn poll_turn poll_queue quiet_turn dequeue set_queue session_touch write_session
    write_owner_mode put_touch
line_turn-host crypto phone r line a = ground arith

turn-host :
    (crypto : Crypto) (phone : Phone) (r : Round) (a : Agent)
    → (turn crypto phone r a).agent.host_fp ≡ a.host_fp
unfolding quiet_turn
turn-host crypto phone r a = elim (turn-cases crypto phone r a) [
  | inl gone ↦ ap (λ (t : Turn). t.agent.host_fp) gone
  | inr (raw, e) ↦
      ap (λ (t : Turn). t.agent.host_fp) e ∙ line_turn-host crypto phone r (trim_space raw) a
]

turn-IsSound :
    (crypto : Crypto) (phone : Phone) (r : Round) (a : Agent) (result : Option (ℕ × ProofResult))
    → (turn crypto phone r a).result ≡ result
    → All (IsSound crypto phone a.host_fp) (results_of result)
unfolding results_of proof_of
turn-IsSound crypto phone r a none h = tt
turn-IsSound crypto phone r a (some (caller, refused e)) h = (tt, tt)
turn-IsSound crypto phone r a (some (caller, issued p)) h =
    let (i, _, _, _, _) = turn-issued crypto phone r a caller p h in
    (
      (
        ap (λ (q : OwnerProof). q.host_fingerprint) i.proof_is,
        ap (λ (q : OwnerProof). q.phone_fingerprint) i.proof_is,
        r.checked_at,
        i.verified,
      ),
      tt,
    )

-- Over any rounds of a connection, every proof that goes to a caller has passed `verifyOwnerProof`
-- with the phone's key, and names this host and this phone.
pub serve_rounds-IsSound :
    (crypto : Crypto) (phone : Phone) (rounds : List Round) (a : Agent)
    → All (IsSound crypto phone a.host_fp) (serve_rounds crypto phone rounds a).results
unfolding serve_rounds and_then closing
serve_rounds-IsSound crypto phone [] a = tt
serve_rounds-IsSound crypto phone (r ∷ rounds) a =
    let now = turn-IsSound crypto phone r a _ refl in
    let later = serve_rounds-IsSound crypto phone rounds (turn crypto phone r a).agent in
    elim (Bool-cases (turn crypto phone r a).is_open) [
      | inl on ↦ rw on (
          All-append (IsSound crypto phone a.host_fp) (results_of (turn crypto phone r a).result) _
            now
            (subst
              (λ fp.
                All (IsSound crypto phone fp)
                  (serve_rounds crypto phone rounds (turn crypto phone r a).agent).results)
              (turn-host crypto phone r a) later))
      | inr off ↦ rw off now
    ]

-- When the rounds have ended a connection, its phone has neither a session nor a live connection
-- left.
pub serve_rounds-closed :
    (crypto : Crypto) (phone : Phone) (rounds : List Round) (a : Agent)
    → (serve_rounds crypto phone rounds a).is_open ≡ false
    → (lookup phone.fp (serve_rounds crypto phone rounds a).agent.sessions ≡ none)
      × (lookup phone.fp (serve_rounds crypto phone rounds a).agent.live ≡ none)
unfolding serve_rounds and_then closing
serve_rounds-closed crypto phone [] a h = absurd (ground arith)
serve_rounds-closed crypto phone (r ∷ rounds) a h =
    elim (Bool-cases (turn crypto phone r a).is_open) [
      | inl on ↦
          rw on
            (serve_rounds-closed crypto phone rounds (turn crypto phone r a).agent (ground arith))
      | inr off ↦ rw off (down_gone phone.fp (turn crypto phone r a).agent)
    ]
