-- ===== src/Portable/Watch/Ends.antt =====
-- The wait for a trusted phone ends, and what it has written then.
use zorin_host_agent.Prelude.{
  ℕ, zero, suc, ◌+◌, ◌*◌, ◌≤◌, ◌<◌, ◌≡◌, refl, sym, ap, subst, ◌∙◌, inl, inr, Bool, true, false,
  Option, some, ◌++◌, arith, ltb, Bool-cases, Option-cases, is_empty,
}
use zorin_host_agent.Agent.{Agent}
use zorin_host_agent.Portable.Watch.{
  not_requested, watch_interval, Watched, watch_trusted, watch_time, found, timed_out, WatchEnd,
  written, finish_proof, session_action, write_portable_owner_proof, watch_rounds, no_output,
}
use zorin_host_agent.Text.{Text, text, trim_space}
use zorin_host_agent.Control.{ControlResponse, control_status}
use zorin_host_agent.Proof.{OwnerProof}
use zorin_host_agent.Files.{Files, read_file, write_file, read-write}

-- A sleep lasts at least as long as it is asked to.
abbrev pub Sleeps : (ℕ → ℕ) → Type 0
Sleeps wake = (now : ℕ) → now + watch_interval ≤ wake now

watch_trusted-ends :
    (agent_at : ℕ → Agent) (wake : ℕ → ℕ) (f deadline now : ℕ)
    → Sleeps wake
    → deadline ≤ now + f * watch_interval
    → (w : Watched) × (watch_trusted agent_at wake (suc f) deadline now ≡ some w)
unfolding watch_trusted
watch_trusted-ends agent_at wake zero deadline now s h = (timed_out, ground arith)
watch_trusted-ends agent_at wake (suc f) deadline now s h =
    let (w, e) = watch_trusted-ends agent_at wake f deadline (wake now) s (omega (arith, s now)) in
    elim (Bool-cases (ltb now deadline)) [
      | inr over ↦ (timed_out, rw over refl)
      | inl early ↦ elim (Bool-cases (control_status (agent_at now)).trusted) [
        | inl here ↦ (found now, rw (early, here) refl)
        | inr away ↦ (w, rw (early, away) e)
      ]
    ]

-- A phone is found at a look between the start and the deadline at which one is trusted.
watch_trusted-found :
    (agent_at : ℕ → Agent) (wake : ℕ → ℕ) (f deadline now t : ℕ)
    → Sleeps wake
    → watch_trusted agent_at wake f deadline now ≡ some (found t)
    → (now ≤ t) × (t < deadline) × ((control_status (agent_at t)).trusted ≡ true)
unfolding watch_trusted
watch_trusted-found agent_at wake zero deadline now t s h = absurd (ground arith)
watch_trusted-found agent_at wake (suc f) deadline now t s h =
    elim (Bool-cases (ltb now deadline)) [
      | inr over ↦ absurd (ground arith)
      | inl early ↦ elim (Bool-cases (control_status (agent_at now)).trusted) [
        | inl here ↦
            let same : now ≡ t = ground arith in
            (
              omega arith,
              ground arith,
              subst (λ u. (control_status (agent_at u)).trusted ≡ true) same here,
            )
        | inr away ↦
            let (l, d, tr) =
              watch_trusted-found agent_at wake f deadline (wake now) t s (ground arith) in
            (omega (arith, s now), d, tr)
      ]
    ]

-- What holds where a proof has been written.
pub record IsWritten (encode : OwnerProof → Option Text) (agent_at : ℕ → Agent)
    (authorize : ℕ → Text → Text → Bool → ControlResponse) (start : ℕ) (path : Text)
    (proof : OwnerProof) (fs' : Files) : Type 0 where
  pub at : ℕ
  pub raw : Text
  pub begun : start ≤ at
  pub in_time : at < start + watch_time
  pub trusted : (control_status (agent_at at)).trusted ≡ true
  pub allowed :
      (authorize at session_action (text "host:" ++ (agent_at at).host_fp) true).allowed ≡ true
  pub carries :
      (authorize at session_action (text "host:" ++ (agent_at at).host_fp) true).proof ≡ some proof
  pub encoded : encode proof ≡ some raw
  pub stored : read_file path fs' ≡ some raw

finish_proof-written :
    (encode : OwnerProof → Option Text) (path : Text) (resp : ControlResponse) (fs fs' : Files)
    (path' : Text) (proof : OwnerProof)
    → finish_proof encode path resp fs ≡ (written path' proof, fs')
    → (path' ≡ path)
      × (resp.allowed ≡ true)
      × (resp.proof ≡ some proof)
      × (raw : Text) × (encode proof ≡ some raw)
      × (read_file path fs' ≡ some raw)
unfolding finish_proof
finish_proof-written encode path resp fs fs' path' proof h = elim (Option-cases resp.proof) [
  | inl e ↦ absurd (ground arith)
  | inr (q, e) ↦ elim (Bool-cases resp.allowed) [
    | inr k ↦ absurd (ground arith)
    | inl k ↦ elim (Option-cases (encode q)) [
      | inl u ↦ absurd (ground arith)
      | inr (raw, u) ↦ elim (Bool-cases (write_file path raw fs).1) [
        | inr ok ↦ absurd (ground arith)
        | inl ok ↦
            let same : q ≡ proof = ground arith in
            let files : (write_file path raw fs).0 ≡ fs' = ground arith in
            (
              ground arith,
              k,
              e ∙ ap some same,
              raw,
              ap encode (sym same) ∙ u,
              ap (read_file path) (sym files) ∙ read-write path raw fs ok,
            )
      ]
    ]
  ]
]

module _ (encode : OwnerProof → Option Text) (agent_at : ℕ → Agent) (wake : ℕ → ℕ)
    (authorize : ℕ → Text → Text → Bool → ControlResponse) (flag : Text) (start : ℕ) (fs : Files)
    (sleeps : Sleeps wake) where
  ended :
      (w : Watched)
      → watch_trusted agent_at wake watch_rounds (start + watch_time) start ≡ some w
      → is_empty (trim_space flag) ≡ false
      → (end : WatchEnd) × (fs' : Files) × (write_portable_owner_proof encode agent_at wake
            authorize flag start fs
          ≡ some (end, fs'))
  unfolding write_portable_owner_proof
  ended (found t) e given =
      let done =
        finish_proof encode (trim_space flag)
          (authorize t session_action (text "host:" ++ (agent_at t).host_fp) true) fs in
      (done.0, done.1, rw (given, e) refl)
  ended timed_out e given = (not_requested, fs, rw (given, e) refl)

  -- The function ends, after 2401 looks at most, whenever phones come and go.
  pub write_portable_owner_proof-ends :
      (end : WatchEnd) × (fs' : Files) × (write_portable_owner_proof encode agent_at wake authorize
          flag start fs
        ≡ some (end, fs'))
  unfolding write_portable_owner_proof
  write_portable_owner_proof-ends =
      let (w, e) =
        watch_trusted-ends agent_at wake 2400 (start + watch_time) start sleeps (omega arith) in
      elim (Bool-cases (is_empty (trim_space flag))) [
        | inl none_given ↦ (no_output, fs, rw none_given refl)
        | inr given ↦ ended w e given
      ]

  -- A proof is written only to the path of the flag, once a phone was trusted within ten minutes,
  -- and it is the proof of the allowed response to the request that was made then, for this host and
  -- with an explicit approval; the file holds its text.
  pub write_portable_owner_proof-IsWritten :
      (path : Text) (proof : OwnerProof) (fs' : Files)
      → write_portable_owner_proof encode agent_at wake authorize flag start fs
        ≡ some (written path proof, fs')
      → (path ≡ trim_space flag) × IsWritten encode agent_at authorize start path proof fs'
  unfolding write_portable_owner_proof
  write_portable_owner_proof-IsWritten path proof fs' h =
      elim (Bool-cases (is_empty (trim_space flag))) [
        | inl none_given ↦ absurd (ground arith)
        | inr given ↦
            elim (Option-cases
              (watch_trusted agent_at wake watch_rounds (start + watch_time) start)) [
                | inl e ↦ absurd (ground arith)
                | inr (timed_out, e) ↦ absurd (ground arith)
                | inr (found t, e) ↦
                    let (b, d, tr) =
                      watch_trusted-found agent_at wake watch_rounds (start + watch_time) start t
                        sleeps e in
                    let done : finish_proof encode (trim_space flag)
                          (authorize t session_action (text "host:" ++ (agent_at t).host_fp) true)
                          fs
                        ≡ (written path proof, fs') =
                      ground arith in
                    let (p, ok, c, raw, u, st) =
                      finish_proof-written encode _ _ fs fs' path proof done in
                    (
                      p,
                      record {
                        at = t;
                        raw = raw;
                        begun = b;
                        in_time = d;
                        trusted = tr;
                        allowed = ok;
                        carries = c;
                        encoded = u;
                        stored = subst (λ x. read_file x fs' ≡ some raw) (sym p) st;
                      },
                    )
              ]
      ]
