-- ===== src/HostIdentity/Cng/Handles.antt =====
-- Which handles are open behind `openCNGIdentity`.
use zorin_host_agent.Prelude.{
  ℕ, ◌≡◌, ◌≢◌, Bool, Option, none, some, List, [], ◌∷◌, arith, ◌==◌, if◌then◌else◌,
}
use zorin_host_agent.HostIdentity.Cng.{
  HandleCall, opened, freed, CngAnswers, CngEnd, cng_identity, cng_error, cng_panics, free_provider,
  export_opened, create_key, open_cng_identity,
}

abbrev pub remove_handle : ℕ → List ℕ → Option (List ℕ)
remove_handle h [] = none
remove_handle h (x ∷ xs) = elim (remove_handle h xs) [
  | none ↦ if x == h then some xs else none
  | some ys ↦ if x == h then some xs else some (x ∷ ys)
]

-- The handles that are open behind the calls, the last one first; `none` if a handle was freed that
-- was not open.
abbrev pub run_calls : List ℕ → List HandleCall → Option (List ℕ)
run_calls held [] = some held
run_calls held (opened h ∷ calls) = run_calls (h ∷ held) calls
run_calls held (freed h ∷ calls) = elim (remove_handle h held) as (λ x. Option (List ℕ)) [
  | none ↦ none
  | some rest ↦ run_calls rest calls
]

-- The handles that are open at an end: those of the identity, and the key that a panic leaves.
abbrev pub held_by : CngEnd → List ℕ
held_by cng_error = []
held_by (cng_identity id) = id.key ∷ id.provider ∷ []
held_by (cng_panics hk) = hk ∷ []

-- Every handle that is opened or made is freed once, where there is an error, and the two of the
-- identity stay open, where there is none, and nothing else; where the export panics the provider is
-- freed and the key's handle is left open. Handles are never 0.
pub open_cng_identity-frees :
    (cng : CngAnswers) (create : Bool)
    → cng.provider ≢ some 0
    → run_calls [] (open_cng_identity cng create).0
      ≡ some (held_by (open_cng_identity cng create).1)
unfolding open_cng_identity create_key export_opened free_provider
open_cng_identity-frees cng create h = ground arith
