-- ===== src/Cli/Authorize.antt =====
-- What `authorize` prints and writes.
use zorin_host_agent.Prelude.{
  ◌≡◌, refl, sym, ap, ◌∙◌, ◌⊎◌, inl, inr, true, some, arith, Bool-cases, Option-cases, is_empty,
}
use zorin_host_agent.Text.{Text}
use zorin_host_agent.Files.{Files, read_file, write_file, read-write}
use zorin_host_agent.Proof.{OwnerProof}
use zorin_host_agent.Control.{ControlResponse}
use zorin_host_agent.Gate.{Requested, request_failed, responded}
use zorin_host_agent.Cli.{authorize_allowed, store_proof, authorize_cli}

store_proof-stored :
    (encode : OwnerProof → Text) (out reason reason' : Text) (q p : OwnerProof) (fs fs' : Files)
    → store_proof encode out reason q fs ≡ (authorize_allowed reason' (some p), fs')
    → (q ≡ p) × ((is_empty out ≡ true) × (fs' ≡ fs) ⊎ (read_file out fs' ≡ some (encode p)))
unfolding store_proof
store_proof-stored encode out reason reason' q p fs fs' h = elim (Bool-cases (is_empty out)) [
  | inl e ↦ (ground arith, inl (e, ground arith))
  | inr e ↦
      let same : q ≡ p = ground arith in
      let ok : (write_file out (encode q) fs).1 ≡ true = ground arith in
      let files : (write_file out (encode q) fs).0 ≡ fs' = ground arith in
      (
        same,
        inr (
            ap (read_file out) (sym files)
            ∙ read-write out (encode q) fs ok
            ∙ ap (λ x. some (encode x)) same),
      )
]

-- The command succeeds only on an allowed response, whose proof it prints, and a file that is named
-- then holds that proof.
pub authorize_cli-allowed :
    (encode : OwnerProof → Text) (out reason : Text) (p : OwnerProof) (request : Requested)
    (fs fs' : Files)
    → authorize_cli encode out request fs ≡ (authorize_allowed reason (some p), fs')
    → (r : ControlResponse) × (request ≡ responded r)
      × (r.allowed ≡ true)
      × (r.proof ≡ some p)
      × ((is_empty out ≡ true) × (fs' ≡ fs) ⊎ (read_file out fs' ≡ some (encode p)))
unfolding authorize_cli
authorize_cli-allowed encode out reason p (request_failed e) fs fs' h = absurd (ground arith)
authorize_cli-allowed encode out reason p (responded r) fs fs' h = elim (Bool-cases r.allowed) [
  | inr denied ↦ absurd (ground arith)
  | inl ok ↦ elim (Option-cases r.proof) [
    | inl e ↦ absurd (ground arith)
    | inr (q, e) ↦
        let stored : store_proof encode out r.reason q fs
            ≡ (authorize_allowed reason (some p), fs') =
          ground arith in
        let (same, kept) = store_proof-stored encode out r.reason reason q p fs fs' stored in
        (r, refl, ok, e ∙ ap some same, kept)
  ]
]
